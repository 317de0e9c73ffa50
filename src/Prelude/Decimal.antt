-- ===== src/Prelude/Decimal.antt =====
-- A number written in decimal, as `format!("{n}")` writes it.
use Prim.Native.Char.{Char, code}
use Prim.Native.String.{String, [], ◌∷◌}
use Prim.Native.Nat.{ℕ, zero, suc, ◌+◌, ◌-◌, ◌*◌, ◌/◌, ◌%◌, ◌<◌}
use mathlib.Core.Path.{◌≡◌, refl, ◌∙◌, sym, ap}
use mathlib.Core.Logic.{inl, inr}
use native.Mathlib.Omega.{arith}
use waepic.Prelude.Eq.{nat_eq}
use waepic.Prelude.Tests.{ltb, if◌then◌else◌, Bool-cases}

digit : ℕ → Char
digit zero = "0"
digit (suc zero) = "1"
digit (suc (suc zero)) = "2"
digit (suc (suc (suc zero))) = "3"
digit (suc (suc (suc (suc zero)))) = "4"
digit (suc (suc (suc (suc (suc zero))))) = "5"
digit (suc (suc (suc (suc (suc (suc zero)))))) = "6"
digit (suc (suc (suc (suc (suc (suc (suc zero))))))) = "7"
digit (suc (suc (suc (suc (suc (suc (suc (suc zero)))))))) = "8"
digit _ = "9"

code-digit : (d : ℕ) → d < 10 → code (digit d) - 48 ≡ d
unfolding digit
code-digit zero h = refl
code-digit (suc zero) h = refl
code-digit (suc (suc zero)) h = refl
code-digit (suc (suc (suc zero))) h = refl
code-digit (suc (suc (suc (suc zero)))) h = refl
code-digit (suc (suc (suc (suc (suc zero))))) h = refl
code-digit (suc (suc (suc (suc (suc (suc zero)))))) h = refl
code-digit (suc (suc (suc (suc (suc (suc (suc zero))))))) h = refl
code-digit (suc (suc (suc (suc (suc (suc (suc (suc zero)))))))) h = refl
code-digit (suc (suc (suc (suc (suc (suc (suc (suc (suc zero))))))))) h = refl
code-digit (suc (suc (suc (suc (suc (suc (suc (suc (suc (suc n)))))))))) h = absurd (omega arith)

-- The digits of `n` before `rest`.
digits_onto : ℕ → ℕ → String → String
unfolding digit
digits_onto zero n rest = rest
digits_onto (suc fuel) n rest =
    let more = digits_onto fuel (n / 10) (digit (n % 10) ∷ rest) in
    if ltb n 10 then digit n ∷ rest else more

unfoldable pub decimal : ℕ → String
unfolding digits_onto
decimal n = digits_onto (suc n) n ""

value : ℕ → String → ℕ
value a [] = a
value a (c ∷ s) = value (a * 10 + (code c - 48)) s

value-digits_onto :
    (fuel n : ℕ) (rest : String) → n < fuel → value 0 (digits_onto fuel n rest) ≡ value n rest
unfolding digits_onto value
value-digits_onto zero n rest h = absurd (omega arith)
value-digits_onto (suc fuel) n rest h = elim (Bool-cases (ltb n 10)) [
  | inl small ↦ rw small (ap (λ k. value k rest) (omega (arith, code-digit n (ground arith))))
  | inr large ↦ rw large (
      value-digits_onto fuel (n / 10) (digit (n % 10) ∷ rest) (ground arith)
      ∙ ap (λ k. value k rest) (omega (arith, code-digit (n % 10) (omega arith))))
]

-- Different numbers are written differently.
pub decimal-injective : (m n : ℕ) → decimal m ≡ decimal n → m ≡ n
unfolding decimal value
decimal-injective m n e = sym (decimal_value m) ∙ ap (value 0) e ∙ decimal_value n
  where
    decimal_value : (k : ℕ) → value 0 (decimal k) ≡ k
    decimal_value k = value-digits_onto (suc k) k "" (omega arith)

decimal_example : decimal 1205 ≡ "1205"
unfolding decimal
decimal_example = refl
