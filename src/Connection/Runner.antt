-- ===== src/Connection/Runner.antt =====
-- `ConnectionRunner::run` of waepic-connection/src/connection.rs. Where an episode leaves a loop
-- waiting, or the list of episodes ends, the runner still runs.
pub mod Ending
pub mod Retrying
use Prim.Native.String.{◌++◌ as text_append}
use waepic.Prelude.{
  ℕ, ◌+◌, ◌^◌, ◌-◌, min, List, [], ◌∷◌, Option, none, some, Bool, ◌≡◌, refl, ◌⊎◌, inl, inr, true,
  false, not, ◌||◌, String, map, if◌then◌else◌,
}
use waepic.Prelude.Outcome.{Result, ok, err}
use waepic.Connection.Error.{ConnectionError, protocol, to_string}
use waepic.Connection.Ports.{Crypto, Transport, Wire, Decoder, Handshake}
use waepic.Connection.Noise.{NoiseSocket}
use waepic.Connection.Backoff.{fibonacci_backoff}
use waepic.Connection.State.{Live, RunnerFields, RawEvent, error, disconnected, broadcast}
use waepic.Connection.Lifecycle.{Episode, connect_once, cleanup_connection}
use waepic.Connection.ReadLoop.{Wakeup, Turn, goes_on, ends, read_loop}

-- How one turn of the outer loop ends: `run` returns, sleeps and goes round again, or still waits.
pub data Next {ℓ} (S : Type ℓ) : Type ℓ where
  returns : Result ConnectionError (Unit {0}) → S → Next S
  retries : (attempt delay : ℕ) → S → Next S
  waits : S → Next S

pub Next-cases {ℓ} :
    {S : Type ℓ} (t : Next S)
    → ((r : Result ConnectionError (Unit {0})) × (s : S) × (t ≡ returns r s))
      ⊎ ((attempt : ℕ) × (delay : ℕ) × (s : S) × (t ≡ retries attempt delay s))
      ⊎ ((s : S) × (t ≡ waits s))
Next-cases (returns r s) = inl (r, s, refl)
Next-cases (retries a d s) = inr (inl (a, d, s, refl))
Next-cases (waits s) = inr (inr (s, refl))

abbrev pub saturating_suc : ℕ → ℕ
saturating_suc n = min (n + 1) (2 ^ 64 - 1)

abbrev pub announce : {C T N : Type 0} → RawEvent N → RunnerFields C T N → RunnerFields C T N
announce e f = record f { shared = broadcast e f.shared }

-- `!fields.config.auto_reconnect || fields.logged_out.load(…)`
abbrev pub gives_up : {C T N : Type 0} → RunnerFields C T N → Bool
gives_up f = not f.config.auto_reconnect || f.logged_out

-- The end of a failed attempt or of a read loop that failed: `message` and the error are
-- broadcast where the runner gives up.
abbrev pub after_failure :
    {C T N : Type 0} → String → ConnectionError → ℕ → RunnerFields C T N → Next (RunnerFields C T N)
after_failure message e attempt f =
    if gives_up f
    then returns (err e) (announce (error (text_append message (to_string e))) f)
    else retries (saturating_suc attempt) (fibonacci_backoff attempt) f

module _ {C T N : Type 0} where
  -- The parts that `read_loop` takes out of the fields, in its order; an error leaves them.
  abbrev pub equip :
      Option T
      → Option (NoiseSocket C)
      → Bool
      → RunnerFields C T N
      → Result ConnectionError (Live C T N)
  equip none k present f = err (protocol "transport not set in read loop")
  equip (some t) none present f = err (protocol "noise_socket not set in read loop")
  equip (some t) (some k) false f = err (protocol "transport_events not set in read loop")
  equip (some t) (some k) true f =
      ok (record { link = record { noise_socket = k; transport = t }; shared = f.shared })

  -- The fields behind the loop: its transport and socket are the ones that the fields still hold.
  abbrev pub put_back : Live C T N → RunnerFields C T N → RunnerFields C T N
  put_back s f = record f {
    transport = some s.link.transport;
    noise_socket = some s.link.noise_socket;
    transport_events = false;
    shared = s.shared;
  }

module _ {C T N : Type 0} (net : Transport T) where
  -- After the loop: the flag, the cleanup, the event; then the result decides.
  abbrev pub taken_down : RunnerFields C T N → RunnerFields C T N
  taken_down f =
      announce disconnected
        (cleanup_connection net (record f { shared = record (f.shared) { is_connected = false } }))

  abbrev pub after_loop :
      Result ConnectionError (Unit {0}) → RunnerFields C T N → Next (RunnerFields C T N)
  after_loop (ok _) f = returns (ok tt) (taken_down f)
  after_loop (err e) f = after_failure "disconnected: " e 0 (taken_down f)

  abbrev pub after_turns :
      {D : Type 0} → Turn (D × Live C T N) → RunnerFields C T N → Next (RunnerFields C T N)
  after_turns (goes_on (d, s)) f = waits (put_back s f)
  after_turns (ends r (d, s)) f = after_loop r (put_back s f)

-- What `run` has returned, if it has, the fields, and the delays that it slept.
pub record Run (C T N : Type 0) : Type 0 where
  pub outcome : Option (Result ConnectionError (Unit {0}))
  pub fields : RunnerFields C T N
  pub delays : List ℕ

module _ {C T N K D H V : Type 0} (crypto : Crypto C) (net : Transport T) (w : Wire N K)
    (dec : Decoder D) (hs : Handshake H V C) where
  abbrev pub looped :
      List (Wakeup N)
      → Result ConnectionError (Live C T N)
      → RunnerFields C T N
      → Next (RunnerFields C T N)
  looped wakeups (err e) f = after_loop net (err e) f
  looped wakeups (ok s) f = after_turns net (read_loop crypto net w dec wakeups (dec.new, s)) f

  abbrev pub attempted :
      ℕ
      → List (Wakeup N)
      → Option (Result ConnectionError (Unit {0}) × RunnerFields C T N)
      → RunnerFields C T N
      → Next (RunnerFields C T N)
  attempted attempt wakeups none f = waits f
  attempted attempt wakeups (some (err e, f')) f =
      after_failure "connect failed and auto_reconnect is disabled: " e attempt f'
  attempted attempt wakeups (some (ok _, f')) f =
      looped wakeups (equip f'.transport f'.noise_socket f'.transport_events f') f'

  -- One turn of the outer loop.
  unfoldable pub go_round : Episode V T N → ℕ → RunnerFields C T N → Next (RunnerFields C T N)
  go_round e attempt f =
      if f.logged_out
      then returns (ok tt) f
      else attempted attempt e.wakeups (connect_once crypto net dec hs e f) f

  unfoldable pub run : List (Episode V T N) → ℕ → RunnerFields C T N → Run C T N
  run [] attempt f = record { outcome = none; fields = f; delays = [] }
  run (e ∷ rest) attempt f = elim (go_round e attempt f) [
    | returns r f' ↦ record { outcome = some r; fields = f'; delays = [] }
    | waits f' ↦ record { outcome = none; fields = f'; delays = [] }
    | retries attempt' delay f' ↦
        let later = run rest attempt' f' in record later { delays = delay ∷ later.delays }
  ]
