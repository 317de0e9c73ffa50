-- ===== src/Client/Updates/Window.antt =====
-- What the application hears while the window flag of the pairing is up.
pub mod Reports
pub mod Steps
use mathlib.Core.Path.{subst}
use waepic.Prelude.{
  ℕ, List, [], ◌∷◌, ◌++◌, Option, none, some, Bool, true, false, ◌||◌, ◌&&◌, String, ◌==◌, text_eq,
  All, ◌≡◌, refl, ap, sym, ◌∙◌, if◌then◌else◌, if_intro, clash, arith, append_assoc, All-append,
  some_injective, inl, inr, if_true,
}
use waepic.Prelude.Outcome.{Result, ok, err, Exec, continue, ok_injective, err≢ok, Result-cases}
use waepic.Connection.Ports.{Wire}
use waepic.Connection.State
use waepic.Connection.State.{RawEvent}
use waepic.Session.Sql.{Sql}
use waepic.Session.Schema.{StoreError}
use waepic.Session.AppSync.{Json}
use waepic.Client.Error.{ClientError}
use waepic.Client.World.{Device, World, Peer}
use waepic.Client.Update
use waepic.Client.Update.{Update}
use waepic.Client.Pairing.Nodes.{then_some, or_else, child}
use waepic.Connection.Frame.{attr_is}
use waepic.Client.Handlers.Presence.{
  Stanzas, u64_attr, handle_receipt, handle_presence, handle_chatstate, state_in,
}
use waepic.Client.Handlers.Notifications.{by_type}
use waepic.Client.Handlers.Failures.{
  handle_failure, with_code, without_code, by_code, numeric_code, is_conflict, is_code,
  handle_pair_code, code_in,
}
use waepic.Client.Handlers.Information.{Spawned, handle_ib, ib_children}
use waepic.Client.Updates.{
  IncomingNodeResult, updates, background_history_sync, Seen, event, overflowed, written, Stream,
  Handlers, hand_over, spawn, spawn_each, for_ib, history, background, held_back,
  is_connect_failure, hand_over_each, counted, messages_done, is_history_sync, on_message, dispatch,
  handle_notification, unless_paired, is_logout, forget_device, concluded, on_node, on_event,
  on_seen, run_update_stream,
}
use waepic.Client.Updates.Window.Reports.{
  is_change, Plain, Heard, Given, Given-then_some, by_type-Given, by_code-Plain,
  handle_failure-Plain, code_in-Given, handle_pair_code-Given, ib_children-Given, given_plain,
}
use waepic.Client.Updates.Window.Steps.{
  Behaves, Windowed, silent, hears, Windowed-trans, held_back-up, hand_over_each-Windowed,
  spawn_each-sent, Dispatched, plainly, notified, dispatch-Dispatched,
}

-- No connection is made, and no other task lowers the flag.
abbrev pub Waiting : {q : Sql} {N : Type 0} → List (Seen q N) → Type 0
Waiting [] = Unit
Waiting (event (State.node n) ∷ es) = Waiting es
Waiting (event State.connected ∷ es) = ⊥
Waiting (event State.disconnected ∷ es) = Waiting es
Waiting (event (State.error m) ∷ es) = Waiting es
Waiting (overflowed n ∷ es) = Waiting es
Waiting (written t flag ∷ es) = (flag ≡ true) × Waiting es

module _ {q : Sql} {J D M R H N K B P : Type 0} (w : Wire N K) (st : Stanzas N J R)
    (json : Json (Device J D)) (shown : StoreError → String) (peer : Peer J N P)
    (unified_session : N) (h : Handlers q J D M R H N B) (b : Behaves h) where
  concluded-Windowed :
      (r : Result ClientError (Option (Update J M R H N))) (s t : Stream q J D M R H N B)
      → Dispatched s (r, t)
      → s.world.post_pair_reconnect ≡ true
      → Windowed s (concluded shown (r, t))
  concluded-Windowed (ok (some u)) s t d up =
      let flag = d.1 ∙ up in
      if_intro (Windowed s) (held_back u t) _ _ (λ held. silent s t d.0 flag)
        (λ free.
          hears s (counted (hand_over u (forget_device shown u t))) u
            (ap (λ l. u ∷ l)
              (if_intro (λ (x : Stream q J D M R H N B). x.sent ≡ s.sent) (is_logout u) _ _
                (λ a. d.0) (λ a. d.0)))
            (d.2 u refl, held_back-up u t flag free)
            (if_intro (λ (x : Stream q J D M R H N B). x.world.post_pair_reconnect ≡ true)
              (is_logout u) _ _ (λ a. flag) (λ a. flag)))
  concluded-Windowed (ok none) s t d up = silent s (counted t) d.0 (d.1 ∙ up)
  concluded-Windowed (err e) s t d up = silent s (counted t) d.0 (d.1 ∙ up)

  on_node-Windowed :
      (n : N) (s : Stream q J D M R H N B)
      → s.world.post_pair_reconnect ≡ true
      → Windowed s (on_node w st json shown peer unified_session h n s)
  on_node-Windowed n s up =
      let done = h.process_incoming_node n s.world in
      let flag = b.message_flag n s.world ∙ up in
      let t = record s { world = done.1 } in
      if_intro (Windowed s) (is_history_sync w n) _ _ (λ a. silent s (spawn (history n) s) refl up)
        λ a.
          if_intro (Windowed s) (w.tag n == "message") _ _
            (λ m. elim (Result-cases done.0) [
              | inl (updates us, fine) ↦
                  subst (λ r. Windowed s (messages_done r t)) (sym fine)
                    (Windowed-trans s t (hand_over_each us t) (silent s t refl flag)
                      (hand_over_each-Windowed us t (b.plain n s.world us fine) flag))
              | inl (background_history_sync p, fine) ↦
                  subst (λ r. Windowed s (messages_done r t)) (sym fine)
                    (silent s (spawn (background p) t) refl flag)
              | inr (e, failed) ↦
                  subst (λ r. Windowed s (messages_done r t)) (sym failed) (silent s t refl flag)
            ])
            (λ m.
              concluded-Windowed ((dispatch w st h n s).0) s ((dispatch w st h n s).1)
                (dispatch-Dispatched w st h b n s) up)

  -- While the window flag is up and until the next connection, where the handlers of messages and
  -- pair codes leave the flag and report no change of the connection: no `Connected`,
  -- `Disconnected` or `ConnectFailure` is handed over, and the flag stays up.
  pub run_update_stream-Windowed :
      (es : List (Seen q N)) (s : Stream q J D M R H N B)
      → Waiting es
      → s.world.post_pair_reconnect ≡ true
      → Windowed s (run_update_stream w st json shown peer unified_session h es s)
  run_update_stream-Windowed [] s calm up = silent s s refl up
  run_update_stream-Windowed (event (State.node n) ∷ es) s calm up =
      let t = on_node w st json shown peer unified_session h n s in
      let first = on_node-Windowed n s up in
      Windowed-trans s t (run_update_stream w st json shown peer unified_session h es t) first
        (run_update_stream-Windowed es t calm first.1)
  run_update_stream-Windowed (event State.connected ∷ es) s calm up = absurd calm
  run_update_stream-Windowed (event State.disconnected ∷ es) s calm up =
      subst
        (λ (t : Stream q J D M R H N B).
          Windowed s (run_update_stream w st json shown peer unified_session h es t))
        (sym (if_true s (counted (hand_over Update.disconnected s)) up))
        (run_update_stream-Windowed es s calm up)
  run_update_stream-Windowed (event (State.error m) ∷ es) s calm up =
      Windowed-trans s (counted s)
        (run_update_stream w st json shown peer unified_session h es (counted s))
        (silent s (counted s) refl up) (run_update_stream-Windowed es (counted s) calm up)
  run_update_stream-Windowed (overflowed n ∷ es) s calm up = run_update_stream-Windowed es s calm up
  run_update_stream-Windowed (written t flag ∷ es) s calm up =
      let r = on_seen w st json shown peer unified_session h (written t flag) s in
      Windowed-trans s r (run_update_stream w st json shown peer unified_session h es r)
        (silent s r refl calm.0) (run_update_stream-Windowed es r calm.1 calm.0)
