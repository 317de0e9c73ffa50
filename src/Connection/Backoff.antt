-- ===== src/Connection/Backoff.antt =====
-- `fibonacci_backoff` of waepic-connection/src/frame.rs, in whole seconds.
-- `secs as f64 * 0.1` truncated is `secs / 10` at every value that the loop can leave in `b` (2, 4,
-- 6, 10, 16, 26 and 42).
pub mod Fibonacci
use waepic.Prelude.{ℕ, zero, suc, ◌+◌, ◌-◌, ◌*◌, ◌/◌, ◌%◌, ◌^◌, min, max, ltb, leb, if◌then◌else◌}

abbrev pub backoff_base_secs : ℕ
backoff_base_secs = 2

abbrev pub backoff_max_secs : ℕ
backoff_max_secs = 60

-- What the match leaves: an early `return` at the cap, or the value to which jitter is added.
pub data Growth : Type 0 where
  capped : Growth
  reached : ℕ → Growth

abbrev pub saturating_add : ℕ → ℕ → ℕ
saturating_add a b = min (a + b) (2 ^ 64 - 1)

-- The loop body, `rounds` times.
unfoldable pub grow : ℕ → ℕ → ℕ → Growth
grow zero a b = reached b
grow (suc rounds) a b =
    let next = saturating_add a b in
    let rest = grow rounds b next in if leb backoff_max_secs next then capped else rest

-- `for _ in 2..=attempt` runs `attempt - 1` rounds.
unfoldable pub base_delay : ℕ → Growth
unfolding grow
base_delay zero = reached backoff_base_secs
base_delay (suc zero) = reached backoff_base_secs
base_delay (suc (suc n)) = grow (suc n) backoff_base_secs backoff_base_secs

-- `secs as i64 + offset` is at least `secs - jitter`; where it is negative, `max(1)` is 1 too.
unfoldable pub with_jitter : ℕ → ℕ → ℕ
with_jitter attempt secs =
    let jitter = secs / 10 in
    let adjusted =
      if ltb 0 jitter then secs + attempt * 17 % 2 ^ 64 % (jitter * 2 + 1) - jitter else secs in
    max adjusted 1

unfoldable pub finish : ℕ → Growth → ℕ
unfolding with_jitter
finish attempt capped = backoff_max_secs
finish attempt (reached secs) = with_jitter attempt secs

unfoldable pub fibonacci_backoff : ℕ → ℕ
unfolding base_delay finish
fibonacci_backoff attempt = finish attempt (base_delay attempt)
