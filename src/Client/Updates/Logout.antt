-- ===== src/Client/Updates/Logout.antt =====
-- Which nodes log the client out, and what the update stream does then.
use waepic.Prelude.{
  ℕ, ℤ, ◌∷◌, Option, none, some, true, false, ◌||◌, ◌&&◌, String, ◌==◌, text_eq, nat_eq, ◌≡◌, ◌↔◌,
  refl, ap, ◌∙◌, if_intro, if_true, if_false, arith,
}
use waepic.Prelude.Outcome.{Result, ok, ignore, continue, pure}
use waepic.Connection.Ports.{Wire}
use waepic.Connection.Frame.{attr_is, has_child}
use waepic.Session.Sql.{Sql, spared_gone}
use waepic.Session.Schema.{StoreError, SqliteSession}
use waepic.Session.Schema.Quiet.{Quiet, delete_rows-Quiet}
use waepic.Session.Device.{device_table}
use waepic.Client.World.{Device, World, Peer}
use waepic.Client.Front.{clear_device}
use waepic.Client.Update.{Update}
use waepic.Client.Handlers.Presence.{Stanzas}
use waepic.Client.Handlers.Failures.{
  handle_failure, by_code, numeric_code, is_conflict, is_code, is_there,
}
use waepic.Session.AppSync.{Json}
use waepic.Client.Pairing.Nodes.{or_else, child}
use waepic.Client.Updates.{Handlers, dispatch, on_node, Stream, is_logout, concluded}

module _ (M H : Type 0) {N K J R : Type 0} (w : Wire N K) (st : Stanzas N J R) where
  by_code-logout :
      (n : N) (code : Option ℤ)
      → is_logout {M = M} {H = H} (by_code w st n code) ≡ true
      → (w.tag n == "stream:error" ≡ false) × (code ≡ none)
  by_code-logout n none =
      if_intro
        (λ (u : Update J M R H N).
          is_logout u ≡ true → (w.tag n == "stream:error" ≡ false) × (◌≡◌ {A = Option ℤ} none none))
        (w.tag n == "stream:error") _ _ (λ a e. ground arith) (λ a e. (a, refl))
  by_code-logout n (some code) =
      let Q : Update J M R H N → Type 0 =
        λ u. is_logout u ≡ true → (w.tag n == "stream:error" ≡ false) × (some code ≡ none) in
      if_intro Q (is_code 402 code) _ _ (λ a e. ground arith)
        λ a. if_intro Q (is_code 405 code) _ _ (λ b e. ground arith) (λ b e. ground arith)

  logs_out :
      (n : N)
      → w.tag n == "stream:error" ≡ false
      → numeric_code w n ≡ none
      → handle_failure {M = M} {H = H} w st n ≡ Update.logged_out
  logs_out n tag code =
      if_false Update.stream_replaced (by_code w st n (numeric_code w n))
        (ap (λ b. b && is_there (child w "conflict" n)) tag)
      ∙ ap (by_code w st n) code
      ∙ if_false (Update.stream_error (record { code = or_else (w.attr n "code") "" }))
          Update.logged_out tag

  -- `handle_failure` gives a logout exactly for a node that is no `stream:error` and has no code
  -- that is a number of 32 bits.
  pub handle_failure-logout :
      (n : N)
      → (is_logout {M = M} {H = H} (handle_failure w st n) ≡ true)
        ↔ ((w.tag n == "stream:error" ≡ false) × (numeric_code w n ≡ none))
  handle_failure-logout n = (
    if_intro
        (λ (u : Update J M R H N).
          is_logout u ≡ true → (w.tag n == "stream:error" ≡ false) × (numeric_code w n ≡ none))
        (is_conflict w n) _ _ (λ a e. ground arith) (λ a e. by_code-logout n (numeric_code w n) e),
    λ p. ap is_logout (logs_out n p.0 p.1),
  )

module _ {q : Sql} {J D N : Type 0} (shown : StoreError → String) where
  clear_device-Quiet :
      (t : World q J D N)
      → Quiet t.session
      → q.select 0 ((ignore (clear_device shown) t).session.device) ≡ none
  clear_device-Quiet t quiet =
      let run = delete_rows-Quiet device_table t.session quiet (λ k r. true) in
      ap
        (λ (x : Result StoreError ℕ × SqliteSession q).
          q.select 0 ((continue x.0 (λ n. pure tt) x.1).1.device))
        run
      ∙ q.select-delete (λ k r. true) 0 (t.session.device)
      ∙ spared_gone (λ r. true) (q.select 0 (t.session.device)) (λ r. refl)

module _ {q : Sql} {J D M R H N K B P : Type 0} (w : Wire N K) (st : Stanzas N J R)
    (json : Json (Device J D)) (shown : StoreError → String) (peer : Peer J N P)
    (unified_session : N) (h : Handlers q J D M R H N B) where
  dispatch-failure :
      (n : N) (s : Stream q J D M R H N B)
      → w.tag n ≡ "failure"
      → dispatch w st h n s ≡ (ok (some (handle_failure w st n)), s)
  dispatch-failure n s tag =
      if_false _ _ (ap (λ t. t == "receipt") tag)
      ∙ if_false _ _ (ap (λ t. t == "presence") tag)
      ∙ if_false _ _ (ap (λ t. t == "chatstate") tag)
      ∙ if_false _ _ (ap (λ t. t == "notification") tag)
      ∙ if_false _ _ (ap (λ t. t == "success") tag)
      ∙ if_true _ _ (ap (λ t. t == "failure" || t == "stream:error") tag)

  -- Where the statement succeeds, a `failure` without a code that is a number leaves no stored
  -- device, and the application hears of the logout.
  pub on_node-logout :
      (n : N) (s : Stream q J D M R H N B)
      → w.tag n ≡ "failure"
      → numeric_code w n ≡ none
      → Quiet s.world.session
      → ((on_node w st json shown peer unified_session h n s).sent ≡ Update.logged_out ∷ s.sent)
        × (q.select 0 ((on_node w st json shown peer unified_session h n s).world.session.device)
            ≡ none)
  on_node-logout n s tag code quiet =
      let step : on_node w st json shown peer unified_session h n s
          ≡ concluded shown (ok (some Update.logged_out), s) =
        if_false _ _ (
          ap
            (λ t.
              (t == "notification" && attr_is w n "type" "history_sync_notification")
              || (t == "ib" && has_child w n "history_sync"))
            tag)
        ∙ if_false _ _ (ap (λ t. t == "message") tag)
        ∙ ap (λ x. concluded shown x) (dispatch-failure n s tag)
        ∙ ap (λ u. concluded shown (ok (some u), s))
            (logs_out M H w st n (ap (λ t. t == "stream:error") tag) code) in
      (
        ap (λ x. x.sent) step,
        ap (λ x. q.select 0 (x.world.session.device)) step ∙ clear_device-Quiet shown s.world quiet,
      )
