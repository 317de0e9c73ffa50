-- ===== src/Prelude/Outcome.antt =====
-- Rust's `Result`, and methods that change a state and may fail. What was written before a
-- failure stays written, so the state comes back beside the error too.
pub mod Batch
use mathlib.Core.Path.{◌≡◌, refl, ap}
use mathlib.Core.Logic.{◌≢◌, ◌⊎◌, inl, inr}
use mathlib.Core.Option.{Option, none, some}
use native.Mathlib.Omega.{arith}
use mathlib.Core.List.{List, [], ◌∷◌}

pub data Result {ℓ} (E A : Type ℓ) : Type ℓ where
  ok : A → Result E A
  err : E → Result E A

abbrev pub Exec {ℓ} : Type ℓ → Type ℓ → Type ℓ → Type ℓ
Exec S E A = S → Result E A × S

module _ {ℓ} {E A : Type ℓ} where
  abbrev pub map_err : {F : Type ℓ} → (E → F) → Result E A → Result F A
  map_err f (ok a) = ok a
  map_err f (err e) = err (f e)

  abbrev pub ok_or : Option A → E → Result E A
  ok_or none e = err e
  ok_or (some a) e = ok a

module _ {ℓ} {S E A : Type ℓ} where
  abbrev pub lift : Result E A → Exec S E A
  lift r s = (r, s)

  abbrev pub pure : A → Exec S E A
  pure a s = (ok a, s)

  abbrev pub raise : E → Exec S E A
  raise e s = (err e, s)

  -- An error that is only logged, `if let Err(e) = …` or `let _ = …`: the state goes on.
  abbrev pub ignore : Exec S E A → S → S
  ignore m s = (m s).1

module _ {ℓ} {S E A B : Type ℓ} where
  abbrev pub continue : Result E A → (A → Exec S E B) → Exec S E B
  continue (ok a) f s = f a s
  continue (err e) f s = (err e, s)

  infixl 5 ◌>>=◌
  abbrev pub ◌>>=◌ : Exec S E A → (A → Exec S E B) → Exec S E B
  ◌>>=◌ m f s = continue (m s).0 f (m s).1

  infixl 5 ◌>>◌
  abbrev pub ◌>>◌ : Exec S E A → Exec S E B → Exec S E B
  m >> k = m >>= λ _. k

-- `for x in xs { step(x)?; }`
module _ {S E A : Type 0} where
  abbrev pub for_each : (A → Exec S E (Unit {0})) → List A → Exec S E (Unit {0})
  for_each step [] = pure tt
  for_each step (x ∷ xs) = step x >> for_each step xs

pub Result-cases {ℓ} :
    {E A : Type ℓ} (r : Result E A) → ((a : A) × (r ≡ ok a)) ⊎ ((e : E) × (r ≡ err e))
Result-cases (ok a) = inl (a, refl)
Result-cases (err e) = inr (e, refl)

module _ {E A : Type 0} where
  pub err≢ok : {e : E} {a : A} → ◌≢◌ {A = Result E A} (err e) (ok a)
  err≢ok h = ground arith

  pub ok_injective : {a b : A} → ◌≡◌ {A = Result E A} (ok a) (ok b) → a ≡ b
  ok_injective h = ground arith

-- A chain that ends in `Ok` went through each of its parts.
pub continue-ok :
    {S E A B : Type 0} (r : Result E A) (f : A → Exec S E B) (s : S) (b : B)
    → (continue r f s).0 ≡ ok b
    → (a : A) × (r ≡ ok a) × (continue r f s ≡ f a s)
continue-ok (ok a) f s b h = (a, refl, refl)
continue-ok (err e) f s b h = absurd (err≢ok h)

pub map_err-ok :
    {E F A : Type 0} (f : E → F) (r : Result E A) (a : A) → map_err f r ≡ ok a → r ≡ ok a
map_err-ok f (ok b) a h = ap (λ x. ok x) (ok_injective h)
map_err-ok f (err e) a h = absurd (err≢ok h)
