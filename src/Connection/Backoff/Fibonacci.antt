-- ===== src/Connection/Backoff/Fibonacci.antt =====
-- `fibonacci_backoff` against the Fibonacci numbers.
use waepic.Prelude.{
  ℕ, zero, suc, ◌+◌, ◌-◌, ◌*◌, ◌^◌, ◌/◌, ◌≤◌, ◌<◌, ◌≡◌, refl, ◌∙◌, arith, sym, min, leb, le→leb,
  lt→leb, if◌then◌else◌,
}
use native.Mathlib.Decide.{dec_le}
use waepic.Connection.Backoff.{Growth, capped, reached, grow, base_delay, finish, fibonacci_backoff}

abbrev pub fib : ℕ → ℕ
fib zero = 0
fib (suc zero) = 1
fib (suc (suc n)) = fib n + fib (suc n)

fib-le-suc : (n : ℕ) → fib n ≤ fib (suc n)
fib-le-suc zero = omega arith
fib-le-suc (suc n) = omega arith

fib_mono : (m n : ℕ) → m ≤ n → fib m ≤ fib n
fib_mono m zero h = let e : m ≡ 0 = omega arith in ground arith
fib_mono m (suc n) h = elim (dec_le m n) [
  | yes p ↦ omega (arith, fib_mono m n p, fib-le-suc n)
  | no p ↦ let e : m ≡ suc n = omega arith in rw e (omega arith)
]

-- 34 is the first Fibonacci number above 21.
fib_small : (m : ℕ) → fib m < 30 → fib m ≤ 21
fib_small m h = elim (dec_le m 8) [
  | yes p ↦ omega (arith, fib_mono m 8 p)
  | no p ↦ absurd (omega (arith, fib_mono 9 m (omega arith)))
]

-- The delay before jitter: twice the Fibonacci number, until that reaches the cap.
abbrev spec : ℕ → Growth
spec m = if leb 60 (2 * fib m) then capped else reached (2 * fib m)

spec_capped : (m : ℕ) → 60 ≤ 2 * fib m → spec m ≡ capped
spec_capped m h = rw (le→leb _ _ h)

spec-reached : (m : ℕ) → 2 * fib m < 60 → spec m ≡ reached (2 * fib m)
spec-reached m h = rw (lt→leb 60 (2 * fib m) h)

next_round :
    (n : ℕ)
    → 2 * fib (suc n) < 60
    → min (2 * fib n + 2 * fib (suc n)) (2 ^ 64 - 1) ≡ 2 * fib (suc (suc n))
next_round n h = omega (arith, fib-le-suc n)

grow-eq-spec :
    (k n m : ℕ)
    → m ≡ k + suc n
    → 2 * fib (suc n) < 60
    → grow k (2 * fib n) (2 * fib (suc n)) ≡ spec m
unfolding grow
grow-eq-spec zero n m e h = let e' : m ≡ suc n = omega arith in rw e' (ground arith)
grow-eq-spec (suc k) n m e h = rw (next_round n h) (elim (dec_le 60 (2 * fib (suc (suc n)))) [
  | yes p ↦ rw (le→leb _ _ p) (sym (spec_capped m (omega (arith, fib_mono (suc (suc n)) m))))
  | no p ↦
      rw (lt→leb 60 (2 * fib (suc (suc n))) (omega arith))
        (grow-eq-spec k (suc n) m (omega arith) (omega arith))
])

base_delay-eq-spec : (attempt : ℕ) → base_delay attempt ≡ spec (suc attempt)
unfolding base_delay
base_delay-eq-spec zero = refl
base_delay-eq-spec (suc zero) = refl
base_delay-eq-spec (suc (suc n)) =
    grow-eq-spec (suc n) 1 (suc (suc (suc n))) (omega arith) (omega arith)

-- The Fibonacci delay, from 2 seconds up to 60.
abbrev pub ideal : ℕ → ℕ
ideal attempt = min 60 (2 * fib (suc attempt))

-- The delay in use differs from the Fibonacci delay by a tenth of it at most, and lies between 2 and 60 seconds.
pub fibonacci_backoff_bounds :
    (attempt : ℕ)
    → (fibonacci_backoff attempt ≤ ideal attempt + ideal attempt / 10)
      × (ideal attempt ≤ fibonacci_backoff attempt + ideal attempt / 10)
      × (2 ≤ fibonacci_backoff attempt)
      × (fibonacci_backoff attempt ≤ 60)
unfolding fibonacci_backoff
fibonacci_backoff_bounds attempt = elim (dec_le 60 (2 * fib (suc attempt))) [
  | yes p ↦ rw (base_delay-eq-spec attempt ∙ spec_capped (suc attempt) p, finish) (omega arith)
  | no p ↦
      rw (base_delay-eq-spec attempt ∙ spec-reached (suc attempt) (omega arith), finish)
        (ground (arith, fib_small (suc attempt), fib_mono 1 (suc attempt)))
]
