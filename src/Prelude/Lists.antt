-- ===== src/Prelude/Lists.antt =====
-- Lists measured by native numbers, and Boolean searches.
use Prim.Native.Nat.{ℕ, zero, suc, ◌+◌}
use mathlib.Core.Path.{◌≡◌, refl, sym, ap, ◌∙◌}
use mathlib.Core.Logic.{◌⊎◌, inl, inr}
use mathlib.Core.Bool.{Bool, true, false, true≢false, ◌||◌}
use mathlib.Core.List.{List, [], ◌∷◌, ◌++◌}
use mathlib.Core.Option.{Option, none, some}
use native.Mathlib.Omega.{arith}
use waepic.Prelude.Tests.{if◌then◌else◌, Bool-cases, ltb}

module _ {ℓ} {A : Type ℓ} where
  abbrev pub length : List A → ℕ
  length [] = 0
  length (x ∷ xs) = suc (length xs)

  pub length-append : (xs ys : List A) → length (xs ++ ys) ≡ length xs + length ys
  length-append [] ys = omega arith
  length-append (x ∷ xs) ys = omega (arith, length-append xs ys)

  -- `iter().any(p)`
  abbrev pub any : (A → Bool) → List A → Bool
  any p [] = false
  any p (x ∷ xs) = p x || any p xs

  -- `iter().find(p)`
  abbrev pub find : (A → Bool) → List A → Option A
  find p [] = none
  find p (x ∷ xs) = let rest = find p xs in if p x then some x else rest

  abbrev pub keep : (A → Bool) → List A → List A
  keep p [] = []
  keep p (x ∷ xs) = let rest = keep p xs in if p x then x ∷ rest else rest

  abbrev pub All {κ} : (A → Type κ) → List A → Type κ
  All P [] = Unit
  All P (x ∷ xs) = P x × All P xs

  abbrev pub get_elem? : List A → ℕ → Option A
  get_elem? [] i = none
  get_elem? (x ∷ xs) zero = some x
  get_elem? (x ∷ xs) (suc i) = get_elem? xs i

module _ {A : Type 0} where
  abbrev pub Listed : A → List A → Type 0
  Listed x [] = ⊥
  Listed x (y ∷ ys) = (y ≡ x) ⊎ Listed x ys

  pub Listed-keep :
      (p : A → Bool) (x : A) (xs : List A) → p x ≡ true → Listed x xs → Listed x (keep p xs)
  Listed-keep p x [] h m = m
  Listed-keep p x (y ∷ ys) h m = elim (Bool-cases (p y)) [
    | inl held ↦
        rw held (elim m [ inl same ↦ inl same | inr rest ↦ inr (Listed-keep p x ys h rest) ])
    | inr missed ↦ rw missed (elim m [
      | inl same ↦ absurd (true≢false (sym h ∙ ap p (sym same) ∙ missed))
      | inr rest ↦ Listed-keep p x ys h rest
    ])
  ]

  pub kept-Listed :
      (p : A → Bool) (x : A) (xs : List A) → Listed x (keep p xs) → (p x ≡ true) × Listed x xs
  kept-Listed p x [] m = elim m [ ]
  kept-Listed p x (y ∷ ys) m = elim (Bool-cases (p y)) [
    | inl held ↦ elim (rw held at m) [
      | inl same ↦ (ap p (sym same) ∙ held, inl same)
      | inr rest ↦ let there = kept-Listed p x ys rest in (there.0, inr (there.1))
    ]
    | inr missed ↦ let there = kept-Listed p x ys (rw missed at m) in (there.0, inr (there.1))
  ]

  pub find-either :
      (p : A → Bool) (xs : List A)
      → ((x : A) × (find p xs ≡ some x) × (p x ≡ true) × Listed x xs)
        ⊎ ((find p xs ≡ none) × ((x : A) → Listed x xs → p x ≡ false))
  find-either p [] = inr (refl, λ x m. absurd m)
  find-either p (y ∷ ys) = elim (Bool-cases (p y)) [
    | inl held ↦ inl (y, rw held refl, held, inl refl)
    | inr missed ↦ elim (find-either p ys) [
      | inl (x, found, held, there) ↦ inl (x, rw missed found, held, inr there)
      | inr (absent, others) ↦ inr (
        rw missed absent,
        λ x m. elim m [ inl same ↦ ap p (sym same) ∙ missed | inr rest ↦ others x rest ],
      )
    ]
  ]

  pub Listed-nonempty : (x : A) (xs : List A) → Listed x xs → ltb 0 (length xs) ≡ true
  Listed-nonempty x [] m = absurd m
  Listed-nonempty x (y ∷ ys) m = ground arith

  pub keep-none :
      (p : A → Bool) (xs : List A) → ((x : A) → Listed x xs → p x ≡ false) → keep p xs ≡ []
  keep-none p [] h = refl
  keep-none p (y ∷ ys) h = rw (h y (inl refl)) (keep-none p ys (λ x m. h x (inr m)))

  pub Listed-append_right : (x : A) (xs ys : List A) → Listed x ys → Listed x (xs ++ ys)
  Listed-append_right x [] ys m = m
  Listed-append_right x (y ∷ xs) ys m = inr (Listed-append_right x xs ys m)

  pub append_assoc : (xs ys zs : List A) → (xs ++ ys) ++ zs ≡ xs ++ (ys ++ zs)
  append_assoc [] ys zs = refl
  append_assoc (x ∷ xs) ys zs = ap (λ l. x ∷ l) (append_assoc xs ys zs)

  pub All-append : (P : A → Type 0) (xs ys : List A) → All P xs → All P ys → All P (xs ++ ys)
  All-append P [] ys h k = k
  All-append P (x ∷ xs) ys h k = (h.0, All-append P xs ys h.1 k)
