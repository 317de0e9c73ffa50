-- ===== src/Connection/Frame.antt =====
-- `process_incoming_frame`, `handle_send_node` and `send_keepalive` of
-- waepic-connection/src/frame.rs.
pub mod Routing
use Prim.Native.String.{◌++◌ as text_append}
use waepic.Prelude.{
  ℕ, [], ◌∷◌, ◌++◌, Option, none, some, Bool, true, false, not, ◌&&◌, String, ◌==◌, text_eq, any,
  if◌then◌else◌,
}
use waepic.Prelude.Outcome.{ok, err, Exec, map_err, ◌>>=◌, lift, ignore}
use waepic.Prelude.Map.{get, remove}
use waepic.Connection.Error.{ConnectionError, protocol, socket}
use waepic.Connection.Ports.{Bytes, Crypto, Transport, Wire}
use waepic.Connection.Noise.{NoiseSocket, Link, decrypt_frame, sealed, encrypt_and_send}
use waepic.Connection.State.{Shared, Live, node, connected, broadcast}

abbrev pub attr_is : {N K : Type 0} → Wire N K → N → String → String → Bool
attr_is w n key value = elim (w.attr n key) [ none ↦ false | some v ↦ v == value ]

-- `node.children().is_some_and(|children| children.iter().any(|c| c.tag == tag))`
abbrev pub has_child : {N K : Type 0} → Wire N K → N → String → Bool
has_child w n t = elim (w.children n) [ none ↦ false | some cs ↦ any (λ c. w.tag c == t) cs ]

module _ {N : Type 0} where
  abbrev pub hand_to : String → N → Option ℕ → Shared N → Shared N
  hand_to id n none s = s
  hand_to id n (some waiter) s = record s {
    iq_waiters = remove id s.iq_waiters;
    answers = s.answers ++ (waiter, ok n) ∷ [];
  }

  -- `waiters.remove(&id_str)` with the send that follows.
  abbrev pub answer_waiter : N → Option String → Shared N → Shared N
  answer_waiter n none s = s
  answer_waiter n (some id) s = hand_to id n (get id s.iq_waiters) s

module _ {N K : Type 0} (w : Wire N K) where
  abbrev pub mark_failure : N → Shared N → Shared N
  mark_failure n s = if w.tag n == "failure" then record s { logged_out = true } else s

  unfoldable pub other_node : N → Shared N → Shared N
  unfolding broadcast
  other_node n s =
      let answered = if w.tag n == "iq" then answer_waiter n (w.attr n "id") s else s in
      broadcast (node n) (mark_failure n answered)

  abbrev pub is_server_request : N → Bool
  is_server_request n = w.tag n == "iq" && attr_is w n "type" "set"

module _ {C T N K : Type 0} (crypto : Crypto C) (net : Transport T) (w : Wire N K) where
  unfoldable pub handle_send_node : N → Exec (Link C T) ConnectionError (Unit {0})
  handle_send_node n = do
    payload ← lift (map_err (λ e. protocol (text_append "marshal failed: " e)) (w.marshal n))
    encrypt_and_send crypto net payload

  -- The acknowledgment of a server-initiated IQ; a failure is only logged.
  abbrev pub result_node : String → N
  result_node id = w.node "iq" (("type", "result") ∷ ("id", id) ∷ ("to", w.server_jid) ∷ []) none

  abbrev pub acknowledge : Option String → Link C T → Link C T
  acknowledge none l = l
  acknowledge (some id) l = ignore (handle_send_node (result_node id)) l

  -- An `<iq type="set">`: the first branch of `process_incoming_frame`.
  unfoldable pub server_request : N → Live C T N → Live C T N
  unfolding broadcast
  server_request n s =
      let announced = if has_child w n "success" then broadcast connected s.shared else s.shared in
      record {
        link =
            if not (has_child w n "pair-success")
            then acknowledge (w.attr n "id") s.link
            else s.link;
        shared = broadcast (node n) (mark_failure w n announced);
      }

  unfoldable pub route : N → Live C T N → Live C T N
  unfolding server_request other_node
  route n s =
      if is_server_request w n
      then server_request n s
      else record s { shared = other_node w n s.shared }

  abbrev pub on_socket :
      {A : Type 0} → Exec (NoiseSocket C) ConnectionError A → Exec (Live C T N) ConnectionError A
  on_socket m s =
      let (r, k) = m s.link.noise_socket in
      (r, record s { link = record (s.link) { noise_socket = k } })

  unfoldable pub read_node : Bytes → Exec (Live C T N) ConnectionError N
  unfolding decrypt_frame
  read_node frame = do
    plain ← on_socket (decrypt_frame crypto frame)
    unpacked ←
        lift
          (map_err (λ e. protocol (text_append "frame unpack failed: " e)) (w.unpack_bytes plain))
    lift (map_err (λ e. protocol (text_append "node parse failed: " e)) (w.parse unpacked))

  unfoldable pub process_incoming_frame : Bytes → Exec (Live C T N) ConnectionError (Unit {0})
  process_incoming_frame frame = do n ← read_node frame; λ s. (ok tt, route n s)

  abbrev pub ping : N
  ping = w.node "iq" (("to", "s.whatsapp.net") ∷ ("xmlns", "w:p") ∷ ("type", "get") ∷ []) none

  -- What a send leaves that is dropped while the transport has it.
  abbrev pub dropped_send : N → Link C T → Link C T
  dropped_send n l = elim (w.marshal n) [
    | err e ↦ l
    | ok payload ↦ elim (sealed crypto net payload l) [
      | err e ↦ l
      | ok frame ↦ record l { transport = net.abandon frame l.transport }
    ]
  ]

  -- `late` says that the deadline passed before the send ended.
  unfoldable pub send_keepalive : Bool → Exec (Link C T) ConnectionError (Unit {0})
  send_keepalive true l = (err (socket "keepalive timed out"), dropped_send ping l)
  send_keepalive false l = handle_send_node ping l
