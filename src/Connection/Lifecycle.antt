-- ===== src/Connection/Lifecycle.antt =====
-- `connect_once` and `cleanup_connection` of waepic-connection/src/frame.rs. What the store, the
-- network, the handles and the timer do during one attempt to connect and the read loop after it is
-- an `Episode`.
pub mod Dialling
use Prim.Native.String.{◌++◌ as text_append}
use waepic.Prelude.{
  ℕ, ◌^◌, ◌-◌, min, List, [], ◌∷◌, ◌++◌, Option, none, some, Bool, true, false, not, ◌||◌, String,
  map, if◌then◌else◌,
}
use waepic.Prelude.Outcome.{Result, ok, err}
use waepic.Connection.Error.{ConnectionError, socket, protocol, not_connected}
use waepic.Connection.Ports.{Crypto, Transport, Decoder, Handshake}
use waepic.Connection.Noise.{NoiseSocket}
use waepic.Prelude.Map.{Map}
use waepic.Connection.State.{RunnerFields, connected, broadcast}
use waepic.Connection.State
use waepic.Connection.Handshake.{TransportEvent, Polled, disconnected, perform_xx_handshake}
use waepic.Connection.ReadLoop.{Wakeup}

-- What `timeout(TRANSPORT_CONNECT_TIMEOUT, factory.create_transport())` gives.
pub data Dialled (T : Type 0) : Type 0 where
  opened : T → Dialled T
  refused : String → Dialled T
  dial_timed_out : Dialled T

-- `first` is the first `recv` on the transport's events; `none` is a closed channel.
pub record Episode (V T N : Type 0) : Type 0 where
  pub load : Result String (Option V)
  pub dialled : Dialled T
  pub first : Option TransportEvent
  pub polls : List Polled
  pub wakeups : List (Wakeup N)

abbrev pub retire : {T : Type 0} → Transport T → Option T → List T → List T
retire net none closed = closed
retire net (some t) closed = closed ++ net.disconnect t ∷ []

-- `for (_, tx) in waiters.drain()`
abbrev pub turn_away : {N : Type 0} → Map String ℕ → List (ℕ × Result ConnectionError N)
turn_away = map (λ entry. (entry.1, err not_connected))

module _ {C T N : Type 0} where
  unfoldable pub cleanup_connection : Transport T → RunnerFields C T N → RunnerFields C T N
  cleanup_connection net f = record f {
    transport = none;
    noise_socket = none;
    transport_events = false;
    retired = retire net f.transport f.retired;
    shared = record (f.shared) { iq_waiters = []; answers = f.answers ++ turn_away f.iq_waiters };
  }

  -- The end of an attempt to connect: `Ok` stores the three parts and announces the connection.
  abbrev pub established : T → NoiseSocket C → RunnerFields C T N → RunnerFields C T N
  established t k f = record f {
    transport = some t;
    noise_socket = some k;
    transport_events = true;
    shared = broadcast connected (record (f.shared) { is_connected = true });
  }

module _ {C T N D H V : Type 0} (crypto : Crypto C) (net : Transport T) (dec : Decoder D)
    (hs : Handshake H V C) where
  abbrev pub shaken :
      Option (Result ConnectionError (NoiseSocket C) × T)
      → RunnerFields C T N
      → Option (Result ConnectionError (Unit {0}) × RunnerFields C T N)
  shaken none f = none
  shaken (some (err e, t)) f = some (err e, f)
  shaken (some (ok k, t)) f = some (ok tt, established t k f)

  abbrev pub greeted :
      V
      → T
      → Episode V T N
      → Option TransportEvent
      → RunnerFields C T N
      → Option (Result ConnectionError (Unit {0}) × RunnerFields C T N)
  greeted device t e none f = some (err (socket "transport event channel closed during connect"), f)
  greeted device t e (some disconnected) f =
      some (err (socket "transport disconnected during connect"), f)
  greeted device t e (some _) f = shaken (perform_xx_handshake crypto net dec hs device e.polls t) f

  abbrev pub dial :
      V
      → Episode V T N
      → Dialled T
      → RunnerFields C T N
      → Option (Result ConnectionError (Unit {0}) × RunnerFields C T N)
  dial device e (opened t) f = greeted device t e e.first f
  dial device e (refused m) f = some (err (socket (text_append "transport connect failed: " m)), f)
  dial device e dial_timed_out f = some (err (socket "transport connect timed out"), f)

  abbrev pub with_device :
      Result String (Option V)
      → Episode V T N
      → RunnerFields C T N
      → Option (Result ConnectionError (Unit {0}) × RunnerFields C T N)
  with_device (err m) e f = some (err (protocol (text_append "failed to load device: " m)), f)
  with_device (ok none) e f = some (err (protocol "no device stored"), f)
  with_device (ok (some device)) e f = dial device e e.dialled f

  -- `none`: it still waits for the server.
  unfoldable pub connect_once :
      Episode V T N
      → RunnerFields C T N
      → Option (Result ConnectionError (Unit {0}) × RunnerFields C T N)
  connect_once e f = with_device e.load e f
