-- ===== src/Connection/Lifecycle/Dialling.antt =====
-- What an attempt to connect leaves.
use waepic.Prelude.{List, Option, none, some, String, ◌≡◌, refl, arith}
use waepic.Prelude.Outcome.{Result, ok, err}
use waepic.Connection.Error.{ConnectionError}
use waepic.Connection.Ports.{Bytes, Crypto, Transport, Decoder, Handshake}
use waepic.Connection.Noise.{NoiseSocket}
use waepic.Connection.State.{RunnerFields}
use waepic.Connection.Handshake.{
  TransportEvent, Polled, connected, disconnected, data_received, recv_handshake_frame,
  client_hello, finish_handshake, after_frame, after_hello, perform_xx_handshake,
}
use waepic.Connection.Lifecycle.{
  Episode, Dialled, opened, refused, dial_timed_out, with_device, dial, greeted, shaken,
  established, connect_once,
}

pub record IsFresh {C : Type 0} (k : NoiseSocket C) : Type 0 where
  pub reads : k.read_counter ≡ 0
  pub writes : k.write_counter ≡ 0

module _ {C T D H V : Type 0} (crypto : Crypto C) (net : Transport T) (dec : Decoder D)
    (hs : Handshake H V C) where
  abbrev Shakes : Option (Result ConnectionError (NoiseSocket C) × T) → Type 0
  Shakes none = Unit
  Shakes (some (err e, t)) = Unit
  Shakes (some (ok k, t)) = IsFresh k

  finish_handshake-Shakes :
      (h : H) (f : Bytes) (t : T) → Shakes (some (finish_handshake crypto net dec hs h f t))
  unfolding finish_handshake
  finish_handshake-Shakes h f t = ground arith

  perform_xx_handshake-Shakes :
      (v : V) (polls : List Polled) (t : T)
      → Shakes (perform_xx_handshake crypto net dec hs v polls t)
  unfolding perform_xx_handshake
  perform_xx_handshake-Shakes v polls t =
      after (client_hello crypto net dec hs v t).0 (client_hello crypto net dec hs v t).1
    where
      framed :
          (h : H) (o : Option (Result ConnectionError Bytes)) (t' : T)
          → Shakes (after_frame crypto net dec hs h o t')
      framed h none t' = tt
      framed h (some (ok f)) t' = finish_handshake-Shakes h f t'
      framed h (some (err e)) t' = tt

      after :
          (r : Result ConnectionError H) (t' : T)
          → Shakes (after_hello crypto net dec hs polls r t')
      after (ok h) t' = framed h (recv_handshake_frame dec dec.new polls) t'
      after (err e) t' = tt

module _ {C T N D H V : Type 0} (crypto : Crypto C) (net : Transport T) (dec : Decoder D)
    (hs : Handshake H V C) where
  -- An error changes no field; `Ok` stores a new connection, its counters at 0.
  abbrev pub Dials :
      RunnerFields C T N → Option (Result ConnectionError (Unit {0}) × RunnerFields C T N) → Type 0
  Dials f none = Unit
  Dials f (some (err e, f')) = f' ≡ f
  Dials f (some (ok u, f')) = (t : T) × (k : NoiseSocket C) × IsFresh k × (f' ≡ established t k f)

  shaken-Dials :
      (o : Option (Result ConnectionError (NoiseSocket C) × T)) (f : RunnerFields C T N)
      → Shakes crypto net dec hs o
      → Dials f (shaken crypto net dec hs o f)
  shaken-Dials none f h = tt
  shaken-Dials (some (err e, t)) f h = refl
  shaken-Dials (some (ok k, t)) f h = (t, k, h, refl)

  greeted-Dials :
      (v : V) (t : T) (e : Episode V T N) (o : Option TransportEvent) (f : RunnerFields C T N)
      → Dials f (greeted crypto net dec hs v t e o f)
  greeted-Dials v t e none f = refl
  greeted-Dials v t e (some disconnected) f = refl
  greeted-Dials v t e (some connected) f =
      shaken-Dials (perform_xx_handshake crypto net dec hs v e.polls t) f
        (perform_xx_handshake-Shakes crypto net dec hs v e.polls t)
  greeted-Dials v t e (some (data_received bytes)) f =
      shaken-Dials (perform_xx_handshake crypto net dec hs v e.polls t) f
        (perform_xx_handshake-Shakes crypto net dec hs v e.polls t)

  dial-Dials :
      (v : V) (e : Episode V T N) (d : Dialled T) (f : RunnerFields C T N)
      → Dials f (dial crypto net dec hs v e d f)
  dial-Dials v e (opened t) f = greeted-Dials v t e e.first f
  dial-Dials v e (refused m) f = refl
  dial-Dials v e dial_timed_out f = refl

  with_device-Dials :
      (r : Result String (Option V)) (e : Episode V T N) (f : RunnerFields C T N)
      → Dials f (with_device crypto net dec hs r e f)
  with_device-Dials (err m) e f = refl
  with_device-Dials (ok none) e f = refl
  with_device-Dials (ok (some v)) e f = dial-Dials v e e.dialled f

  pub connect_once-Dials :
      (e : Episode V T N) (f : RunnerFields C T N) → Dials f (connect_once crypto net dec hs e f)
  unfolding connect_once
  connect_once-Dials e f = with_device-Dials e.load e f
