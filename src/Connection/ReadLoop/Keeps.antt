-- ===== src/Connection/ReadLoop/Keeps.antt =====
-- A rule for the read loop: what the shared state's elementary changes keep, every turn keeps.
use Prim.Native.String.{◌++◌ as text_append}
use waepic.Prelude.{
  ℕ, zero, suc, List, [], ◌∷◌, Option, none, some, true, String, ◌≡◌, ◌==◌, text_eq, arith,
  Bool-cases, Option-cases, inl, inr,
}
use waepic.Prelude.Outcome.{Result, ok, err, Result-cases}
use waepic.Prelude.Map.{get}
use waepic.Connection.Error.{ConnectionError}
use waepic.Connection.Ports.{Bytes, Crypto, Transport, Wire, Decoder}
use waepic.Connection.State.{
  Shared, Live, RawEvent, node, connected, send_node, disconnect, broadcast,
}
use waepic.Connection.Handshake
use waepic.Connection.Frame.{
  mark_failure, hand_to, answer_waiter, other_node, server_request, route, read_node,
  process_incoming_frame, has_child, is_server_request, send_keepalive,
}
use waepic.Connection.ReadLoop.{
  Wakeup, Turn-cases, transport_event, transport_closed, commands_closed, command, keepalive_due,
  report, reply_to, drain, receive, turn, state_of, read_loop,
}

read_node_shared :
    {C T N K : Type 0} (crypto : Crypto C) (net : Transport T) (w : Wire N K) (f : Bytes)
    (s : Live C T N)
    → (read_node crypto net w f s).1.shared ≡ s.shared
unfolding read_node
read_node_shared crypto net w f s = ground arith

module _ {ℓ} {N K : Type 0} (w : Wire N K) (P : Shared N → Type ℓ) where
  pub record Rules : Type ℓ where
    pub on_broadcast : (e : RawEvent N) (s : Shared N) → P s → P (broadcast e s)
    pub on_failure :
        (n : N) (s : Shared N)
        → (w.tag n == "failure") ≡ true
        → P s
        → P (record s { logged_out = true })
    pub on_answer :
        (n : N) (id : String) (waiter : ℕ) (s : Shared N)
        → get id s.iq_waiters ≡ some waiter
        → P s
        → P (hand_to id n (some waiter) s)
    pub on_reply :
        (waiter : ℕ) (r : Result ConnectionError (Unit {0})) (s : Shared N)
        → P s
        → P (reply_to waiter r s)

  module _ (rules : Rules) where
    mark_failure-keeps : (n : N) (s : Shared N) → P s → P (mark_failure w n s)
    mark_failure-keeps n s h = elim (Bool-cases (w.tag n == "failure")) [
      | inl e ↦ rw e (rules.on_failure n s e h)
      | inr e ↦ rw e h
    ]

    hand_to-keeps :
        (n : N) (id : String) (s : Shared N) → P s → P (hand_to id n (get id s.iq_waiters) s)
    hand_to-keeps n id s h = elim (Option-cases (get id s.iq_waiters)) [
      | inl e ↦ rw e h
      | inr (k, e) ↦ rw e (rules.on_answer n id k s e h)
    ]

    answer_waiter-keeps : (n : N) (o : Option String) (s : Shared N) → P s → P (answer_waiter n o s)
    answer_waiter-keeps n none s h = h
    answer_waiter-keeps n (some id) s h = hand_to-keeps n id s h

    pub other_node-keeps : (n : N) (s : Shared N) → P s → P (other_node w n s)
    unfolding other_node
    other_node-keeps n s h = rules.on_broadcast (node n) _ (
        mark_failure-keeps n _ (elim (Bool-cases (w.tag n == "iq")) [
          | inl e ↦ rw e (answer_waiter-keeps n (w.attr n "id") s h)
          | inr e ↦ rw e h
        ]))

    server_request-keeps :
        {C T : Type 0} (crypto : Crypto C) (net : Transport T) (n : N) (s : Live C T N)
        → P s.shared
        → P (server_request crypto net w n s).shared
    unfolding server_request
    server_request-keeps crypto net n s h = rules.on_broadcast (node n) _ (
        mark_failure-keeps n _ (elim (Bool-cases (has_child w n "success")) [
          | inl e ↦ rw e (rules.on_broadcast connected s.shared h)
          | inr e ↦ rw e h
        ]))

    route-keeps :
        {C T : Type 0} (crypto : Crypto C) (net : Transport T) (n : N) (s : Live C T N)
        → P s.shared
        → P (route crypto net w n s).shared
    unfolding route
    route-keeps crypto net n s h = elim (Bool-cases (is_server_request w n)) [
      | inl e ↦ rw e (server_request-keeps crypto net n s h)
      | inr e ↦ rw e (other_node-keeps n s.shared h)
    ]

    process_incoming_frame-keeps :
        {C T : Type 0} (crypto : Crypto C) (net : Transport T) (f : Bytes) (s : Live C T N)
        → P s.shared
        → P (process_incoming_frame crypto net w f s).1.shared
    unfolding process_incoming_frame
    process_incoming_frame-keeps crypto net f s h =
        elim (Result-cases (read_node crypto net w f s).0) [
          | inl (n, e) ↦
              rw e (route-keeps crypto net n _ (rw (read_node_shared crypto net w f s) h))
          | inr (m, e) ↦ rw e (rw (read_node_shared crypto net w f s) h)
        ]

    report-keeps :
        {C T : Type 0} (m : String → String) (r : Result ConnectionError (Unit {0}))
        (s : Live C T N)
        → P s.shared
        → P (report m r s).shared
    report-keeps m (ok _) s h = h
    report-keeps m (err e) s h = rules.on_broadcast _ s.shared h

    module _ {C T D : Type 0} (crypto : Crypto C) (net : Transport T) (dec : Decoder D) where
      drain-keeps :
          (fuel : ℕ) (s : D × Live C T N)
          → P s.1.shared
          → P (drain crypto net w dec fuel s).1.shared
      unfolding drain
      drain-keeps zero s h = h
      drain-keeps (suc fuel) (d, s) h = elim (Option-cases (dec.decode_frame d)) [
        | inl e ↦ rw (e, drain) h
        | inr ((f, d'), e) ↦
            rw (e, drain)
              (drain-keeps fuel _ (
                report-keeps (λ m. m) (process_incoming_frame crypto net w f s).0 _
                  (process_incoming_frame-keeps crypto net f s h)))
      ]

      pub turn-keeps :
          (e : Wakeup N) (s : D × Live C T N)
          → P s.1.shared
          → P (state_of (turn crypto net w dec e s)).1.shared
      unfolding turn receive
      turn-keeps (transport_event (Handshake.data_received bytes)) (d, s) h =
          drain-keeps (dec.buffered (dec.feed d bytes)) (dec.feed d bytes, s) h
      turn-keeps (transport_event Handshake.connected) s h = h
      turn-keeps (transport_event Handshake.disconnected) s h = h
      turn-keeps transport_closed s h = h
      turn-keeps (command (send_node n waiter)) (d, s) h = rules.on_reply waiter _ s.shared h
      turn-keeps (command disconnect) s h = h
      turn-keeps commands_closed s h = h
      turn-keeps (keepalive_due late) (d, s) h =
          report-keeps (text_append "keepalive failed: ")
            (send_keepalive crypto net w late s.link).0 _ h

      pub read_loop-keeps :
          (wakeups : List (Wakeup N)) (s : D × Live C T N)
          → P s.1.shared
          → P (state_of (read_loop crypto net w dec wakeups s)).1.shared
      unfolding read_loop
      read_loop-keeps [] s h = h
      read_loop-keeps (e ∷ rest) s h = elim (Turn-cases (turn crypto net w dec e s)) [
        | inl (s', t) ↦ rw (t, read_loop) (read_loop-keeps rest s' (rw t at (turn-keeps e s h)))
        | inr (r, s', t) ↦ rw (t, read_loop) (rw t at (turn-keeps e s h))
      ]
