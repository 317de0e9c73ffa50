-- ===== src/Prelude/Map/Values.antt =====
-- The values of a map, counted.
use mathlib.Core.Path.{◌≡◌, refl, ◌∙◌, subst}
use mathlib.Core.Option.{none, some}
use mathlib.Core.List.{List, [], ◌∷◌, ◌++◌}
use mathlib.Core.Logic.{inl, inr}
use Prim.Native.Nat.{ℕ, ◌+◌}
use native.Mathlib.Omega.{arith}
use waepic.Prelude.Eq.{HasEq, ◌==◌, ==_refl, nat_eq}
use waepic.Prelude.Tests.{if◌then◌else◌, Bool-cases, if_true}
use waepic.Prelude.Map.{Map, get, remove, insert, get-remove}

abbrev pub hit : ℕ → ℕ → ℕ
hit x y = if y == x then 1 else 0

abbrev pub count : ℕ → List ℕ → ℕ
count x [] = 0
count x (y ∷ ys) = hit x y + count x ys

pub count-append : (x : ℕ) (xs ys : List ℕ) → count x (xs ++ ys) ≡ count x xs + count x ys
count-append x [] ys = omega arith
count-append x (y ∷ xs) ys = omega (arith, count-append x xs ys)

module _ {K : Type 0} ⦃e : HasEq K⦄ where
  abbrev pub values : {V : Type 0} → Map K V → List V
  values [] = []
  values ((k, v) ∷ m) = v ∷ values m

  -- No key has two entries.
  abbrev pub Unique : {V : Type 0} → Map K V → Type 0
  Unique [] = Unit
  Unique ((k, v) ∷ m) = (get k m ≡ none) × Unique m

  remove_absent : {V : Type 0} (k : K) (m : Map K V) → get k m ≡ none → remove k m ≡ m
  unfolding get remove
  remove_absent k [] h = refl
  remove_absent k ((j, v) ∷ m) h = ground (arith, remove_absent k m)

  pub remove-Unique : {V : Type 0} (k : K) (m : Map K V) → Unique m → Unique (remove k m)
  unfolding remove
  remove-Unique k [] u = tt
  remove-Unique k ((j, v) ∷ m) u = ground (arith, remove-Unique k m u.1, get-remove k j m, u.0)

  pub get-remove_self : {V : Type 0} (k : K) (m : Map K V) → get k (remove k m) ≡ none
  get-remove_self k m = get-remove k k m ∙ if_true none _ (==_refl k)

  pub insert-Unique : {V : Type 0} (k : K) (v : V) (m : Map K V) → Unique m → Unique (insert k v m)
  unfolding insert
  insert-Unique k v m u = (get-remove_self k m, remove-Unique k m u)

  pub count-values-remove :
      (x : ℕ) (k : K) (v : ℕ) (m : Map K ℕ)
      → Unique m
      → get k m ≡ some v
      → count x (values m) ≡ count x (values (remove k m)) + hit x v
  unfolding get remove
  count-values-remove x k v [] u h = ground arith
  count-values-remove x k v ((j, w) ∷ m) u h = elim (Bool-cases (j == k)) [
    | inl same ↦
        let absent : remove k m ≡ m =
          remove_absent k m (subst (λ i. get i m ≡ none) ((e.beq_iff j k).0 same) u.0) in
        let here : some w ≡ some v = rw same at h in
        let found : w ≡ v = cc in rw (same, remove) (rw (absent, found) (omega arith))
    | inr other ↦
        rw (other, remove) (omega (arith, count-values-remove x k v m u.1 (rw other at h)))
  ]

  pub count-values-insert :
      (x : ℕ) (k : K) (v : ℕ) (m : Map K ℕ)
      → get k m ≡ none
      → count x (values (insert k v m)) ≡ hit x v + count x (values m)
  unfolding insert
  count-values-insert x k v m h = rw (remove_absent k m h)
