-- ===== src/Connection/ReadLoop.antt =====
-- `read_loop` of waepic-connection/src/frame.rs. Each turn of the three-way select is one wakeup;
-- where the list of wakeups ends, the loop still waits.
pub mod Keeps
pub mod Draining
use Prim.Native.String.{◌++◌ as text_append}
use waepic.Prelude.{
  ℕ, zero, suc, List, [], ◌∷◌, ◌++◌, Option, none, some, Bool, String, ◌≡◌, refl, ◌⊎◌, inl, inr,
}
use waepic.Prelude.Outcome.{Result, ok, err}
use waepic.Connection.Error.{ConnectionError, socket, to_string}
use waepic.Connection.Ports.{Bytes, Crypto, Transport, Wire, Decoder}
use waepic.Connection.State.{
  Shared, Live, error, ConnectionCommand, send_node, disconnect, broadcast,
}
use waepic.Connection.Handshake.{TransportEvent, connected, disconnected, data_received}
use waepic.Connection.Frame.{handle_send_node, process_incoming_frame, send_keepalive}

pub data Wakeup (N : Type 0) : Type 0 where
  transport_event : TransportEvent → Wakeup N
  transport_closed commands_closed : Wakeup N
  command : ConnectionCommand N → Wakeup N
  keepalive_due : Bool → Wakeup N

-- A turn goes on, or ends the loop with a result.
pub data Turn {ℓ} (S : Type ℓ) : Type ℓ where
  goes_on : S → Turn S
  ends : Result ConnectionError (Unit {0}) → S → Turn S

module _ {S : Type 0} where
  abbrev pub result_of : Turn S → Option (Result ConnectionError (Unit {0}))
  result_of (goes_on s) = none
  result_of (ends r s) = some r

  pub Turn-cases :
      (t : Turn S)
      → ((s : S) × (t ≡ goes_on s))
        ⊎ ((r : Result ConnectionError (Unit {0})) × (s : S) × (t ≡ ends r s))
  Turn-cases (goes_on s) = inl (s, refl)
  Turn-cases (ends r s) = inr (r, s, refl)

  abbrev pub state_of : Turn S → S
  state_of (goes_on s) = s
  state_of (ends r s) = s

module _ {N : Type 0} where
  abbrev pub reply_to : ℕ → Result ConnectionError (Unit {0}) → Shared N → Shared N
  reply_to waiter r s = record s { send_results = s.send_results ++ (waiter, r) ∷ [] }

module _ {C T N : Type 0} where
  -- An error that is logged and broadcast; the loop goes on.
  abbrev pub report :
      (String → String) → Result ConnectionError (Unit {0}) → Live C T N → Live C T N
  report message (ok _) s = s
  report message (err e) s = record s {
    shared = broadcast (error (message (to_string e))) s.shared;
  }

module _ {C T N K D : Type 0} (crypto : Crypto C) (net : Transport T) (w : Wire N K)
    (dec : Decoder D) where
  abbrev pub process_one : Bytes → Live C T N → Live C T N
  process_one frame s =
      let (r, s') = process_incoming_frame crypto net w frame s in report (λ m. m) r s'

  -- `while let Some(frame) = frame_decoder.decode_frame()`, on fuel.
  unfoldable pub drain : ℕ → D × Live C T N → D × Live C T N
  drain zero s = s
  drain (suc fuel) (d, s) = elim (dec.decode_frame d) [
    | none ↦ (d, s)
    | some (frame, d') ↦ drain fuel (d', process_one frame s)
  ]

  -- As much fuel as there are complete frames in the decoder.
  unfoldable pub receive : Bytes → D × Live C T N → D × Live C T N
  unfolding drain
  receive bytes (d, s) = let fed = dec.feed d bytes in drain (dec.buffered fed) (fed, s)

  abbrev pub send_for : N → ℕ → Live C T N → Live C T N
  send_for n waiter s =
      let (r, l) = handle_send_node crypto net w n s.link in
      record { link = l; shared = reply_to waiter r s.shared }

  abbrev pub keep_alive : Bool → Live C T N → Live C T N
  keep_alive late s =
      let (r, l) = send_keepalive crypto net w late s.link in
      report (text_append "keepalive failed: ") r (record s { link = l })

  unfoldable pub turn : Wakeup N → D × Live C T N → Turn (D × Live C T N)
  unfolding receive
  turn (transport_event (data_received bytes)) s = goes_on (receive bytes s)
  turn (transport_event connected) s = goes_on s
  turn (transport_event disconnected) s = ends (err (socket "disconnected")) s
  turn transport_closed s = ends (err (socket "transport event channel closed")) s
  turn (command (send_node n waiter)) (d, s) = goes_on (d, send_for n waiter s)
  turn (command disconnect) s = ends (ok tt) s
  turn commands_closed s = ends (ok tt) s
  turn (keepalive_due late) (d, s) = goes_on (d, keep_alive late s)

  unfoldable pub read_loop : List (Wakeup N) → D × Live C T N → Turn (D × Live C T N)
  read_loop [] s = goes_on s
  read_loop (e ∷ rest) s = elim (turn e s) [
    | goes_on s' ↦ read_loop rest s'
    | ends r s' ↦ ends r s'
  ]
