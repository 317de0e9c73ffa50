-- ===== src/Connection/Runner/Retrying.antt =====
-- How long the runner goes on when no attempt to connect succeeds.
use mathlib.Core.Path.{subst}
use waepic.Prelude.{
  ℕ, ◌+◌, ◌^◌, ◌<◌, List, [], ◌∷◌, none, some, true, false, ◌≡◌, refl, ◌∙◌, ap, arith, length, All,
  Bool, not, ◌||◌, String, if_false,
}
use waepic.Prelude.Outcome.{ok, err}
use waepic.Connection.Error.{ConnectionError}
use waepic.Connection.Ports.{Crypto, Transport, Wire, Decoder, Handshake}
use waepic.Connection.Backoff.{fibonacci_backoff}
use waepic.Connection.State.{RunnerFields}
use waepic.Connection.Lifecycle.{Episode, connect_once}
use waepic.Connection.Lifecycle.Dialling.{connect_once-Dials, Dials}
use waepic.Connection.Runner.{
  Run, returns, retries, saturating_suc, attempted, after_failure, go_round, run,
}

not_giving_up : (auto out : Bool) → auto ≡ true → out ≡ false → (not auto || out) ≡ false
not_giving_up auto out h k = ground arith

after_failure-eq-retries :
    {C T N : Type 0} (message : String) (m : ConnectionError) (a : ℕ) (f : RunnerFields C T N)
    → f.config.auto_reconnect ≡ true
    → f.logged_out ≡ false
    → a + 1 < 2 ^ 64
    → after_failure message m a f ≡ retries (a + 1) (fibonacci_backoff a) f
after_failure-eq-retries message m a f auto on h =
    if_false _ (retries (saturating_suc a) (fibonacci_backoff a) f)
      (not_giving_up f.config.auto_reconnect f.logged_out auto on)
    ∙ ap (λ n. retries n (fibonacci_backoff a) f) (omega arith)

module _ {C T N K D H V : Type 0} (crypto : Crypto C) (net : Transport T) (w : Wire N K)
    (dec : Decoder D) (hs : Handshake H V C) where
  -- The attempt fails, whatever the reason.
  abbrev pub Fails : RunnerFields C T N → Episode V T N → Type 0
  Fails f e =
      (m : ConnectionError) × (f' : RunnerFields C T N) × (connect_once crypto net dec hs e f
        ≡ some (err m, f'))

  -- The delays of as many attempts, counted from `a`.
  abbrev pub backoffs : ℕ → List (Episode V T N) → List ℕ
  backoffs a [] = []
  backoffs a (e ∷ es) = fibonacci_backoff a ∷ backoffs (a + 1) es

  go_round-Fails :
      (e : Episode V T N) (a : ℕ) (f : RunnerFields C T N)
      → f.config.auto_reconnect ≡ true
      → f.logged_out ≡ false
      → a + 1 < 2 ^ 64
      → Fails f e
      → go_round crypto net w dec hs e a f ≡ retries (a + 1) (fibonacci_backoff a) f
  unfolding go_round
  go_round-Fails e a f auto on h (m, f', c) =
      if_false (returns (ok tt) f) _ on
      ∙ ap (λ o. attempted crypto net w dec hs a e.wakeups o f) c
      ∙ ap (after_failure "connect failed and auto_reconnect is disabled: " m a)
          (subst (Dials crypto net dec hs f) c (connect_once-Dials crypto net dec hs e f))
      ∙ after_failure-eq-retries "connect failed and auto_reconnect is disabled: " m a f auto on h

  pub run-Fails :
      (es : List (Episode V T N)) (a : ℕ) (f : RunnerFields C T N)
      → f.config.auto_reconnect ≡ true
      → f.logged_out ≡ false
      → a + length es < 2 ^ 64
      → All (Fails f) es
      → run crypto net w dec hs es a f
        ≡ record { outcome = none; fields = f; delays = backoffs a es }
  unfolding run
  run-Fails [] a f auto on h fails = refl
  run-Fails (e ∷ es) a f auto on h fails =
      rw (go_round-Fails e a f auto on (omega arith) fails.0, run)
        (ap (λ (r : Run C T N). record r { delays = fibonacci_backoff a ∷ r.delays })
          (run-Fails es (a + 1) f auto on (omega arith) fails.1))
