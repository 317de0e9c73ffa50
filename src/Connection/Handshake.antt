-- ===== src/Connection/Handshake.antt =====
-- `perform_xx_handshake` and `recv_handshake_frame` of waepic-connection/src/frame.rs. What the
-- event channel and the timer bring is a list, one entry for each turn of the receive loop; where it
-- ends, the task still waits.
use Prim.Native.String.{◌++◌ as text_append}
use waepic.Prelude.{List, [], ◌∷◌, Option, none, some, String}
use waepic.Prelude.Outcome.{Result, ok, err, Exec, map_err, ◌>>=◌, ◌>>◌}
use waepic.Connection.Error.{ConnectionError, protocol, socket}
use waepic.Connection.Ports.{Bytes, Crypto, Transport, Decoder, Handshake}
use waepic.Connection.Noise.{NoiseSocket, new}

-- `wacore::net::TransportEvent`.
pub data TransportEvent : Type 0 where
  connected disconnected : TransportEvent
  data_received : Bytes → TransportEvent

pub data Polled : Type 0 where
  event : TransportEvent → Polled
  closed timed_out : Polled

abbrev pub frame_of : {D : Type 0} → Option (Bytes × D) → Option Bytes
frame_of none = none
frame_of (some (frame, d)) = some frame

module _ {D : Type 0} (dec : Decoder D) where
  -- `none`: the list ended before a frame was complete.
  unfoldable pub recv_handshake_frame : D → List Polled → Option (Result ConnectionError Bytes)
  recv_handshake_frame d [] = none
  recv_handshake_frame d (event (data_received bytes) ∷ rest) =
      let fed = dec.feed d bytes in
      let more = recv_handshake_frame fed rest in
      elim (dec.decode_frame fed) [ none ↦ more | some (frame, d') ↦ some (ok frame) ]
  recv_handshake_frame d (event connected ∷ rest) = recv_handshake_frame d rest
  recv_handshake_frame d (event disconnected ∷ rest) =
      some (err (socket "disconnected during handshake"))
  recv_handshake_frame d (closed ∷ rest) =
      some (err (socket "transport event channel closed during handshake"))
  recv_handshake_frame d (timed_out ∷ rest) = some (err (socket "handshake response timed out"))

module _ {C T D H V : Type 0} (crypto : Crypto C) (net : Transport T) (dec : Decoder D)
    (hs : Handshake H V C) where
  -- A step of the handshake: its error becomes a `Protocol` error with this text before it.
  abbrev pub step : {A : Type 0} → String → Result String A → Exec T ConnectionError A
  step message r t = (map_err (λ e. protocol (text_append message e)) r, t)

  abbrev pub transmit : String → Bytes → Exec T ConnectionError (Unit {0})
  transmit message frame t =
      let (r, t') = net.send frame t in (map_err (λ e. socket (text_append message e)) r, t')

  abbrev pub finished : C × C → NoiseSocket C
  finished (write_cipher, read_cipher) = new write_cipher read_cipher

  -- After the ServerHello: the ClientFinish, and the ciphers.
  unfoldable pub finish_handshake : H → Bytes → Exec T ConnectionError (NoiseSocket C)
  finish_handshake h resp_frame = do
    (client_finish, h') ←
        step "handshake server hello failed: "
          (hs.read_server_hello_and_build_client_finish h resp_frame)
    framed ← step "frame encode failed: " (crypto.encode_frame client_finish none)
    transmit "send client finish failed: " framed
    outcome ← step "handshake finish failed: " (hs.finish h')
    λ t. (ok (finished outcome), t)

  -- Up to the ClientHello: the state that waits for the ServerHello.
  unfoldable pub client_hello : V → Exec T ConnectionError H
  client_hello device = do
    h ← step "handshake init failed: " (hs.start device)
    (hello, h') ← step "build client hello failed: " (hs.build_client_hello h)
    framed ←
        step "frame encode failed: "
          (crypto.encode_frame hello (some (hs.build_handshake_header device)))
    transmit "send client hello failed: " framed
    λ t. (ok h', t)

  abbrev pub after_frame :
      H
      → Option (Result ConnectionError Bytes)
      → T
      → Option (Result ConnectionError (NoiseSocket C) × T)
  after_frame h none t = none
  after_frame h (some (ok frame)) t = some (finish_handshake h frame t)
  after_frame h (some (err e)) t = some (err e, t)

  abbrev pub after_hello :
      List Polled
      → Result ConnectionError H
      → T
      → Option (Result ConnectionError (NoiseSocket C) × T)
  after_hello polls (ok h) t = after_frame h (recv_handshake_frame dec dec.new polls) t
  after_hello polls (err e) t = some (err e, t)

  unfoldable pub perform_xx_handshake :
      V → List Polled → T → Option (Result ConnectionError (NoiseSocket C) × T)
  unfolding client_hello finish_handshake
  perform_xx_handshake device polls t =
      let (r, t') = client_hello device t in after_hello polls r t'
