-- ===== src/Client/Updates.antt =====
-- `run_update_stream` of waepic-client/src/client/updates.rs. The events that it receives are a
-- list, which the loop consumes; other tasks may write the session or the window flag in between.
-- The work on messages and pair codes, in other files, is a parameter.
pub mod Init
pub mod Window
pub mod Flushes
pub mod Logout
use waepic.Prelude.{
  ℕ, suc, ◌+◌, ◌%◌, List, [], ◌∷◌, ◌++◌, Option, none, some, Bool, true, false, not, ◌&&◌, ◌||◌,
  String, ◌==◌, nat_eq, text_eq, if◌then◌else◌,
}
use waepic.Prelude.Outcome.{Result, ok, err, Exec, pure, continue, ignore, ◌>>=◌}
use waepic.Connection.Ports.{Wire}
use waepic.Connection.Frame.{attr_is, has_child}
use waepic.Connection.State
use waepic.Connection.State.{RawEvent}
use waepic.Session.Sql.{Sql}
use waepic.Session.Schema.{SqliteSession, StoreError}
use waepic.Session.AppSync.{Json}
use waepic.Client.Error.{ClientError}
use waepic.Client.World.{Device, World, Peer}
use waepic.Client.Front.{clear_device}
use waepic.Client.Update
use waepic.Client.Update.{Update}
use waepic.Client.Handlers.Presence.{Stanzas, handle_receipt, handle_presence, handle_chatstate}
use waepic.Client.Handlers.Notifications.{by_type}
use waepic.Client.Handlers.Failures.{handle_success, handle_failure, handle_pair_code}
use waepic.Client.Handlers.Information.{Spawned, handle_ib}
use waepic.Client.Pairing.Nodes.{or_else}
use waepic.Client.Updates.Init.{run_post_connect_init}

-- `IncomingNodeResult`; `B` is the payload of a history sync in the background.
pub data IncomingNodeResult (J M R H N B : Type 0) : Type 0 where
  updates : List (Update J M R H N) → IncomingNodeResult J M R H N B
  background_history_sync : B → IncomingNodeResult J M R H N B

-- A task that the stream spawns.
pub data Task (N B : Type 0) : Type 0 where
  history : N → Task N B
  background : B → Task N B
  for_ib : Spawned N → Task N B

pub data Seen (q : Sql) (N : Type 0) : Type 0 where
  event : RawEvent N → Seen q N
  overflowed : ℕ → Seen q N
  written : SqliteSession q → Bool → Seen q N

-- `sent` has the latest update first; `flushes` counts those of the signal cache.
pub record Stream (q : Sql) (J D M R H N B : Type 0) : Type 0 where
  pub world : World q J D N
  pub sent : List (Update J M R H N)
  pub tasks : List (Task N B)
  pub event_count : ℕ
  pub flushes : ℕ

-- `process_incoming_node` and `handle_pair_code_notification`.
pub record Handlers (q : Sql) (J D M R H N B : Type 0) : Type 0 where
  pub process_incoming_node : N → Exec (World q J D N) ClientError (IncomingNodeResult J M R H N B)
  pub handle_pair_code_notification : N → Exec (World q J D N) ClientError Bool

abbrev pub is_connect_failure : {J M R H N : Type 0} → Update J M R H N → Bool
is_connect_failure (Update.connect_failure f) = true
is_connect_failure _ = false

abbrev pub is_logout : {J M R H N : Type 0} → Update J M R H N → Bool
is_logout Update.logged_out = true
is_logout _ = false

module _ {q : Sql} {J D M R H N B : Type 0} where
  abbrev pub hand_over : Update J M R H N → Stream q J D M R H N B → Stream q J D M R H N B
  hand_over u s = record s { sent = u ∷ s.sent }

  abbrev pub spawn : Task N B → Stream q J D M R H N B → Stream q J D M R H N B
  spawn t s = record s { tasks = t ∷ s.tasks }

  abbrev pub spawn_each : List (Spawned N) → Stream q J D M R H N B → Stream q J D M R H N B
  spawn_each [] s = s
  spawn_each (t ∷ ts) s = spawn_each ts (spawn (for_ib t) s)

  -- A `ConnectFailure` is held back while the window flag is up.
  abbrev pub held_back : Update J M R H N → Stream q J D M R H N B → Bool
  held_back u s = is_connect_failure u && s.world.post_pair_reconnect

  abbrev pub hand_over_each :
      List (Update J M R H N) → Stream q J D M R H N B → Stream q J D M R H N B
  hand_over_each [] s = s
  hand_over_each (u ∷ us) s =
      let rest = hand_over_each us in if held_back u s then rest s else rest (hand_over u s)

  -- After an event that was not skipped.
  abbrev pub counted : Stream q J D M R H N B → Stream q J D M R H N B
  counted s =
      let n = s.event_count + 1 in
      record s { event_count = n; flushes = if n % 100 == 0 then s.flushes + 1 else s.flushes }

  abbrev pub messages_done :
      Result ClientError (IncomingNodeResult J M R H N B)
      → Stream q J D M R H N B
      → Stream q J D M R H N B
  messages_done (ok (updates us)) s = hand_over_each us s
  messages_done (ok (background_history_sync b)) s = spawn (background b) s
  messages_done (err e) s = s

module _ {N K : Type 0} (w : Wire N K) where
  abbrev pub is_history_sync : N → Bool
  is_history_sync n =
      (w.tag n == "notification" && attr_is w n "type" "history_sync_notification")
      || (w.tag n == "ib" && has_child w n "history_sync")

module _ {q : Sql} {J D M R H N B : Type 0} (shown : StoreError → String) where
  -- The stored device goes before the application hears of the logout.
  abbrev pub forget_device : Update J M R H N → Stream q J D M R H N B → Stream q J D M R H N B
  forget_device u s =
      if is_logout u then record s { world = ignore (clear_device shown) s.world } else s

  abbrev pub concluded :
      Result ClientError (Option (Update J M R H N)) × Stream q J D M R H N B
      → Stream q J D M R H N B
  concluded (ok (some u), s) =
      if held_back u s then s else counted (hand_over u (forget_device u s))
  concluded (ok none, s) = counted s
  concluded (err e, s) = counted s

module _ {q : Sql} {J D M R H N B : Type 0} where
  abbrev pub lower : Stream q J D M R H N B → Stream q J D M R H N B
  lower s = record s { world = record (s.world) { post_pair_reconnect = false } }

module _ {q : Sql} {J D M R H N B : Type 0} (h : Handlers q J D M R H N B) where
  abbrev pub on_message : N → Stream q J D M R H N B → Stream q J D M R H N B
  on_message n s =
      let (r, t) = h.process_incoming_node n s.world in messages_done r (record s { world = t })

module _ {q : Sql} {J D M R H N K B : Type 0} (w : Wire N K) (st : Stanzas N J R)
    (h : Handlers q J D M R H N B) where
  abbrev pub unless_paired : N → Bool → Exec (World q J D N) ClientError (Option (Update J M R H N))
  unless_paired n true = pure none
  unless_paired n false = pure (by_type w st (or_else (w.attr n "type") "") n)

  abbrev pub handle_notification : N → Exec (World q J D N) ClientError (Option (Update J M R H N))
  handle_notification n = h.handle_pair_code_notification n >>= unless_paired n

  abbrev pub dispatch :
      N
      → Stream q J D M R H N B
      → Result ClientError (Option (Update J M R H N)) × Stream q J D M R H N B
  dispatch n s =
      let noticed = handle_notification n s.world in
      let told : Option (Update J M R H N) × List (Spawned N) = handle_ib w n in
      if w.tag n == "receipt"
      then (ok (handle_receipt w st n), s)
      else if w.tag n == "presence"
      then (ok (handle_presence w st n), s)
      else if w.tag n == "chatstate"
      then (ok (handle_chatstate w st n), s)
      else if w.tag n == "notification"
      then (noticed.0, record s { world = noticed.1 })
      else if w.tag n == "success"
      then (ok (some (handle_success w st n)), s)
      else if w.tag n == "failure" || w.tag n == "stream:error"
      then (ok (some (handle_failure w st n)), s)
      else if w.tag n == "iq"
      then (ok (handle_pair_code w st n), s)
      else if w.tag n == "ib"
      then (ok told.0, spawn_each told.1 s)
      else (ok none, s)

module _ {q : Sql} {J D M R H N K B P : Type 0} (w : Wire N K) (json : Json (Device J D))
    (peer : Peer J N P) (unified_session : N) where
  abbrev pub initialised : Stream q J D M R H N B → Stream q J D M R H N B
  initialised s = record s { world = run_post_connect_init w json peer unified_session s.world }

module _ {q : Sql} {J D M R H N K B P : Type 0} (w : Wire N K) (st : Stanzas N J R)
    (json : Json (Device J D)) (shown : StoreError → String) (peer : Peer J N P)
    (unified_session : N) (h : Handlers q J D M R H N B) where
  abbrev pub on_node : N → Stream q J D M R H N B → Stream q J D M R H N B
  on_node n s =
      if is_history_sync w n
      then spawn (history n) s
      else if w.tag n == "message"
      then on_message h n s
      else concluded shown (dispatch w st h n s)

  abbrev pub on_event : RawEvent N → Stream q J D M R H N B → Stream q J D M R H N B
  on_event (State.node n) s = on_node n s
  on_event State.connected s =
      if s.world.post_pair_reconnect
      then lower (initialised w json peer unified_session s)
      else counted (initialised w json peer unified_session (hand_over Update.connected s))
  on_event State.disconnected s =
      if s.world.post_pair_reconnect then s else counted (hand_over Update.disconnected s)
  on_event (State.error m) s = counted s

  abbrev pub on_seen : Seen q N → Stream q J D M R H N B → Stream q J D M R H N B
  on_seen (event e) s = on_event e s
  on_seen (overflowed n) s = s
  on_seen (written t flag) s = record s {
    world = record (s.world) { session = t; post_pair_reconnect = flag };
  }

  abbrev pub run_update_stream : List (Seen q N) → Stream q J D M R H N B → Stream q J D M R H N B
  run_update_stream [] s = s
  run_update_stream (e ∷ es) s = run_update_stream es (on_seen e s)
