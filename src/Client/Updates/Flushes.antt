-- ===== src/Client/Updates/Flushes.antt =====
-- How often the update stream flushes the signal cache.
use waepic.Prelude.{
  ℕ, ◌+◌, ◌/◌, ◌%◌, ◌≤◌, List, [], ◌∷◌, Option, none, some, String, ◌≡◌, ap, ◌∙◌, ◌==◌, nat_eq,
  if◌then◌else◌, if_intro, if_both, arith, ◌||◌, text_eq,
}
use waepic.Prelude.Outcome.{Result, ok, err}
use waepic.Connection.Ports.{Wire}
use waepic.Connection.State
use waepic.Connection.State.{RawEvent}
use waepic.Session.Sql.{Sql}
use waepic.Session.Schema.{StoreError}
use waepic.Session.AppSync.{Json}
use waepic.Client.Error.{ClientError}
use waepic.Client.World.{Device, Peer}
use waepic.Client.Update.{Update}
use waepic.Client.Handlers.Presence.{Stanzas}
use waepic.Client.Handlers.Information.{Spawned, handle_ib}
use waepic.Client.Updates.{
  IncomingNodeResult, updates, background_history_sync, Seen, event, overflowed, written, Stream,
  Handlers, hand_over, spawn, spawn_each, for_ib, held_back, hand_over_each, counted, messages_done,
  is_history_sync, dispatch, is_logout, forget_device, concluded, initialised, lower, on_seen,
  run_update_stream,
}

next_hundred : (n : ℕ) → (if (n + 1) % 100 == 0 then n / 100 + 1 else n / 100) ≡ (n + 1) / 100
next_hundred n = ground arith

-- One flush for each hundred counted events, of which there are `limit` at most.
abbrev pub Paced : {q : Sql} {J D M R H N B : Type 0} → ℕ → Stream q J D M R H N B → Type 0
Paced limit s = (s.flushes ≡ s.event_count / 100) × (s.event_count ≤ limit)

module _ {q : Sql} {J D M R H N B : Type 0} where
  later : {m n : ℕ} (s : Stream q J D M R H N B) → Paced m s → m ≤ n → Paced n s
  later s p h = (p.0, omega (arith, p.1))

  counted-Paced : (m : ℕ) (s : Stream q J D M R H N B) → Paced m s → Paced (m + 1) (counted s)
  counted-Paced m s p =
      let n = s.event_count in
      (ap (λ f. if (n + 1) % 100 == 0 then f + 1 else f) p.0 ∙ next_hundred n, omega (arith, p.1))

  hand_over_each-Paced :
      (m : ℕ) (us : List (Update J M R H N)) (s : Stream q J D M R H N B)
      → Paced m s
      → Paced m (hand_over_each us s)
  hand_over_each-Paced m [] s p = p
  hand_over_each-Paced m (u ∷ us) s p =
      if_intro (Paced m) (held_back u s) _ _ (λ held. hand_over_each-Paced m us s p)
        (λ free. hand_over_each-Paced m us (hand_over u s) p)

  spawn_each-Paced :
      (m : ℕ) (ts : List (Spawned N)) (s : Stream q J D M R H N B)
      → Paced m s
      → Paced m (spawn_each ts s)
  spawn_each-Paced m [] s p = p
  spawn_each-Paced m (t ∷ ts) s p = spawn_each-Paced m ts (spawn (for_ib t) s) p

  messages_done-Paced :
      (m : ℕ) (r : Result ClientError (IncomingNodeResult J M R H N B)) (s : Stream q J D M R H N B)
      → Paced m s
      → Paced m (messages_done r s)
  messages_done-Paced m (ok (updates us)) s p = hand_over_each-Paced m us s p
  messages_done-Paced m (ok (background_history_sync b)) s p = p
  messages_done-Paced m (err e) s p = p

module _ {N K : Type 0} (w : Wire N K) where
  -- Nodes of messages and of history syncs are not counted, nor are overflows.
  abbrev pub cost : {q : Sql} → Seen q N → ℕ
  cost (event (State.node n)) =
      if is_history_sync w n then 0 else if w.tag n == "message" then 0 else 1
  cost (event State.connected) = 1
  cost (event State.disconnected) = 1
  cost (event (State.error m)) = 1
  cost (overflowed n) = 0
  cost (written t flag) = 0

  abbrev pub countable : {q : Sql} → List (Seen q N) → ℕ
  countable [] = 0
  countable (e ∷ es) = cost e + countable es

module _ {q : Sql} {J D M R H N B : Type 0} (shown : StoreError → String) where
  concluded-Paced :
      (m : ℕ) (r : Result ClientError (Option (Update J M R H N))) (s : Stream q J D M R H N B)
      → Paced m s
      → Paced (m + 1) (concluded shown (r, s))
  concluded-Paced m (ok (some u)) s p =
      if_intro (Paced (m + 1)) (held_back u s) _ _ (λ held. later s p (omega arith))
        (λ free. counted-Paced m (hand_over u (forget_device shown u s)) (
          if_intro (λ (x : Stream q J D M R H N B). Paced m (hand_over u x)) (is_logout u) _ _
            (λ out. p) (λ other. p)))
  concluded-Paced m (ok none) s p = counted-Paced m s p
  concluded-Paced m (err e) s p = counted-Paced m s p

module _ {q : Sql} {J D M R H N K B : Type 0} (w : Wire N K) (st : Stanzas N J R)
    (h : Handlers q J D M R H N B) where
  dispatch-Paced :
      (m : ℕ) (n : N) (s : Stream q J D M R H N B) → Paced m s → Paced m ((dispatch w st h n s).1)
  dispatch-Paced m n s p =
      let Q : Result ClientError (Option (Update J M R H N)) × Stream q J D M R H N B → Type 0 =
        λ x. Paced m x.1 in
      let told : Option (Update J M R H N) × List (Spawned N) = handle_ib w n in
      if_intro Q (w.tag n == "receipt") _ _ (λ a. p)
        λ a.
          if_intro Q (w.tag n == "presence") _ _ (λ b. p)
            λ b.
              if_intro Q (w.tag n == "chatstate") _ _ (λ c. p)
                λ c.
                  if_intro Q (w.tag n == "notification") _ _ (λ d. p)
                    λ d.
                      if_intro Q (w.tag n == "success") _ _ (λ e. p)
                        λ e.
                          if_intro Q (w.tag n == "failure" || w.tag n == "stream:error") _ _
                            (λ f. p)
                            λ f.
                              if_intro Q (w.tag n == "iq") _ _ (λ g. p)
                                λ g.
                                  if_intro Q (w.tag n == "ib") _ _
                                    (λ i. spawn_each-Paced m told.1 s p) (λ i. p)

module _ {q : Sql} {J D M R H N K B P : Type 0} (w : Wire N K) (st : Stanzas N J R)
    (json : Json (Device J D)) (shown : StoreError → String) (peer : Peer J N P)
    (unified_session : N) (h : Handlers q J D M R H N B) where
  on_seen-Paced :
      (m : ℕ) (e : Seen q N) (s : Stream q J D M R H N B)
      → Paced m s
      → Paced (m + cost w e) (on_seen w st json shown peer unified_session h e s)
  on_seen-Paced m (event (State.node n)) s p =
      let Q : ℕ → Stream q J D M R H N B → Type 0 = λ c t. Paced (m + c) t in
      let kept : Paced (m + 0) s = later s p (omega arith) in
      if_both Q (is_history_sync w n) kept (
        if_both Q (w.tag n == "message")
          (messages_done-Paced (m + 0) ((h.process_incoming_node n s.world).0)
            (record s { world = (h.process_incoming_node n s.world).1 }) kept)
          (concluded-Paced shown m ((dispatch w st h n s).0) ((dispatch w st h n s).1)
            (dispatch-Paced w st h m n s p)))
  on_seen-Paced m (event State.connected) s p =
      if_intro (Paced (m + 1)) (s.world.post_pair_reconnect) _ _
        (λ up. later (lower (initialised w json peer unified_session s)) p (omega arith))
        (λ down.
          counted-Paced m (initialised w json peer unified_session (hand_over Update.connected s))
            p)
  on_seen-Paced m (event State.disconnected) s p =
      if_intro (Paced (m + 1)) (s.world.post_pair_reconnect) _ _ (λ up. later s p (omega arith))
        (λ down. counted-Paced m (hand_over Update.disconnected s) p)
  on_seen-Paced m (event (State.error e)) s p = counted-Paced m s p
  on_seen-Paced m (overflowed n) s p = later s p (omega arith)
  on_seen-Paced m (written t flag) s p =
      later (on_seen w st json shown peer unified_session h (written t flag) s) p (omega arith)

  run-Paced :
      (m : ℕ) (es : List (Seen q N)) (s : Stream q J D M R H N B)
      → Paced m s
      → Paced (m + countable w es) (run_update_stream w st json shown peer unified_session h es s)
  run-Paced m [] s p = later s p (omega arith)
  run-Paced m (e ∷ es) s p =
      let t = on_seen w st json shown peer unified_session h e s in
      later (run_update_stream w st json shown peer unified_session h es t)
        (run-Paced (m + cost w e) es t (on_seen-Paced m e s p)) (omega arith)

  -- From a stream that has flushed once for each hundred counted events: so it has after any
  -- events, and it has counted no more than those that are countable.
  pub run_update_stream-Paced :
      (es : List (Seen q N)) (s : Stream q J D M R H N B)
      → s.flushes ≡ s.event_count / 100
      → Paced
          (s.event_count + countable w es)
          (run_update_stream w st json shown peer unified_session h es s)
  run_update_stream-Paced es s p = run-Paced s.event_count es s (p, omega arith)
