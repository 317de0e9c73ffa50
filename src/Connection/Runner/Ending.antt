-- ===== src/Connection/Runner/Ending.antt =====
-- What is left when the runner returns, and when it goes round again.
use waepic.Prelude.{
  ℕ, List, [], ◌∷◌, Option, none, some, true, false, ◌≡◌, refl, String, ◌⊎◌, inl, inr, sym, arith,
  Bool-cases, if_intro,
}
use waepic.Prelude.Outcome.{Result, ok, err}
use waepic.Connection.Error.{ConnectionError}
use waepic.Connection.Ports.{Crypto, Transport, Wire, Decoder, Handshake}
use waepic.Connection.Backoff.{fibonacci_backoff}
use waepic.Connection.State.{Live, RunnerFields, broadcast}
use waepic.Connection.Lifecycle.{Episode, connect_once, cleanup_connection}
use mathlib.Core.Path.{subst}
use waepic.Connection.Lifecycle.Dialling.{Dials, connect_once-Dials}
use waepic.Connection.ReadLoop.{Wakeup, Turn, goes_on, ends, read_loop}
use waepic.Connection.Runner.{
  Next, Next-cases, returns, retries, waits, Run, gives_up, after_failure, after_loop, after_turns,
  looped, attempted, equip, taken_down, put_back, go_round, run,
}

-- No connection is up: none is announced as such, and no part of one is kept.
pub record IsIdle {C T N : Type 0} (f : RunnerFields C T N) : Type 0 where
  pub flag : f.is_connected ≡ false
  pub transport : f.transport ≡ none
  pub socket : f.noise_socket ≡ none
  pub receiver : f.transport_events ≡ false

-- What a turn of the outer loop leaves, whichever way it goes.
abbrev pub Settles : {C T N : Type 0} → ℕ → Next (RunnerFields C T N) → Type 0
Settles attempt (returns r f') = IsIdle f'
Settles attempt (retries next delay f') =
    IsIdle f'
    × (f'.config.auto_reconnect ≡ true)
    × (f'.logged_out ≡ false)
    × ((delay ≡ fibonacci_backoff attempt) ⊎ (delay ≡ fibonacci_backoff 0))
Settles attempt (waits f') = Unit

module _ {C T N : Type 0} where
  after_failure-Settles :
      (m : String) (e : ConnectionError) (a b : ℕ) (f : RunnerFields C T N)
      → (fibonacci_backoff b ≡ fibonacci_backoff a) ⊎ (fibonacci_backoff b ≡ fibonacci_backoff 0)
      → IsIdle f
      → Settles a (after_failure m e b f)
  unfolding broadcast
  after_failure-Settles m e a b f d idle = elim (Bool-cases (gives_up f)) [
    | inl stop ↦ rw stop (record {
      flag = idle.flag;
      transport = idle.transport;
      socket = idle.socket;
      receiver = idle.receiver;
    })
    | inr on ↦ rw on (idle, ground arith, ground arith, d)
  ]

  taken_down-IsIdle : (net : Transport T) (f : RunnerFields C T N) → IsIdle (taken_down net f)
  unfolding broadcast cleanup_connection
  taken_down-IsIdle net f = record { flag = refl; transport = refl; socket = refl; receiver = refl }

  after_loop-Settles :
      (net : Transport T) (r : Result ConnectionError (Unit {0})) (a : ℕ) (f : RunnerFields C T N)
      → Settles a (after_loop net r f)
  after_loop-Settles net (ok _) a f = taken_down-IsIdle net f
  after_loop-Settles net (err e) a f =
      after_failure-Settles "disconnected: " e a 0 (taken_down net f) (inr refl)
        (taken_down-IsIdle net f)

  after_turns-Settles :
      {D : Type 0} (net : Transport T) (t : Turn (D × Live C T N)) (a : ℕ) (f : RunnerFields C T N)
      → Settles a (after_turns net t f)
  after_turns-Settles net (goes_on (d, s)) a f = tt
  after_turns-Settles net (ends r (d, s)) a f = after_loop-Settles net r a (put_back s f)

module _ {C T N K D H V : Type 0} (crypto : Crypto C) (net : Transport T) (w : Wire N K)
    (dec : Decoder D) (hs : Handshake H V C) where
  looped-Settles :
      (wakeups : List (Wakeup N)) (r : Result ConnectionError (Live C T N)) (a : ℕ)
      (f : RunnerFields C T N)
      → Settles a (looped crypto net w dec hs wakeups r f)
  looped-Settles wakeups (err e) a f = after_loop-Settles net (err e) a f
  looped-Settles wakeups (ok s) a f =
      after_turns-Settles net (read_loop crypto net w dec wakeups (dec.new, s)) a f

  attempted-Settles :
      (a : ℕ) (wakeups : List (Wakeup N))
      (o : Option (Result ConnectionError (Unit {0}) × RunnerFields C T N)) (f : RunnerFields C T N)
      → IsIdle f
      → Dials crypto net dec hs f o
      → Settles a (attempted crypto net w dec hs a wakeups o f)
  attempted-Settles a wakeups none f idle d = tt
  attempted-Settles a wakeups (some (err e, f')) f idle d =
      after_failure-Settles "connect failed and auto_reconnect is disabled: " e a a f' (inl refl)
        (subst IsIdle (sym d) idle)
  attempted-Settles a wakeups (some (ok u, f')) f idle d =
      looped-Settles wakeups (equip f'.transport f'.noise_socket f'.transport_events f') a f'

  -- From a runner with no connection: a turn of the outer loop that returns leaves no connection, and one that goes round leaves none either, happens only with automatic reconnects on and no logout seen, and sleeps the backoff of the current attempt or, after a connection, that of attempt 0.
  pub go_round-Settles :
      (e : Episode V T N) (a : ℕ) (f : RunnerFields C T N)
      → IsIdle f
      → Settles a (go_round crypto net w dec hs e a f)
  unfolding go_round
  go_round-Settles e a f idle =
      if_intro (Settles a) f.logged_out (returns (ok tt) f) _ (λ _. idle)
        λ _.
          attempted-Settles a e.wakeups (connect_once crypto net dec hs e f) f idle
            (connect_once-Dials crypto net dec hs e f)

  abbrev pub LeavesIdle : Run C T N → Type 0
  LeavesIdle r = elim r.outcome [ none ↦ Unit | some _ ↦ IsIdle r.fields ]

  -- From a runner with no connection, whatever happens: when `run` returns, the connected flag is down and no transport, socket or event receiver is kept.
  pub run-LeavesIdle :
      (es : List (Episode V T N)) (a : ℕ) (f : RunnerFields C T N)
      → IsIdle f
      → LeavesIdle (run crypto net w dec hs es a f)
  unfolding run
  run-LeavesIdle [] a f idle = tt
  run-LeavesIdle (e ∷ rest) a f idle = elim (Next-cases (go_round crypto net w dec hs e a f)) [
    | inl (r, f', t) ↦ rw (t, run) (rw t at (go_round-Settles e a f idle))
    | inr (inl (n, d, f', t)) ↦
        rw (t, run) (run-LeavesIdle rest n f' (rw t at (go_round-Settles e a f idle)).0)
    | inr (inr (f', t)) ↦ rw (t, run) tt
  ]
