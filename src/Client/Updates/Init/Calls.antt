-- ===== src/Client/Updates/Init/Calls.antt =====
-- The calls that follow a connection, in order.
use waepic.Prelude.{
  ℕ, List, [], ◌∷◌, ◌++◌, some, String, ◌==◌, text_eq, length, ◌≡◌, refl, ap, ◌∙◌, if◌then◌else◌,
  if_intro, if_both,
}
use waepic.Prelude.Outcome.{ok}
use waepic.Connection.Ports.{Bytes, Wire}
use waepic.Session.Sql.{Sql}
use waepic.Session.AppSync.{Json}
use waepic.Session.Device.{load}
use waepic.Client.Prekeys.{upload_prekeys_if_needed}
use waepic.Client.Handlers.Dirty.{sync_all, app_state_collections}
use waepic.Client.World.{
  Device, device_list, passive_active, app_state_sync, Call, sent, asked, World, Peer, requests,
}
use waepic.Client.Updates.Init.{
  greet, greet_loaded, available, send_presence, run_post_connect_init,
}

module _ {J N : Type 0} where
  -- One request for each collection, the latest first.
  abbrev pub synced : List (Call J N) → List (Call J N)
  synced before =
      asked (app_state_sync "regular")
      ∷ asked (app_state_sync "regular_high")
      ∷ asked (app_state_sync "regular_low")
      ∷ asked (app_state_sync "critical_unblock_low")
      ∷ asked (app_state_sync "critical_block")
      ∷ before

  abbrev pub announced : {K : Type 0} → Wire N K → String → List (Call J N) → List (Call J N)
  announced w push_name before =
      if push_name == "" then before else sent (available w push_name) ∷ before

module _ {q : Sql} {J D N K P : Type 0} (w : Wire N K) (json : Json (Device J D))
    (peer : Peer J N P) (unified_session : N) where
  -- Where `load` gives a paired device, it becomes the device in memory, and whatever is answered
  -- the calls are the unified session, those of the prekey upload, the active IQ, the device list,
  -- the presence unless the push name is empty, and the five collections.
  pub run_post_connect_init-Calls :
      (d : Device J D) (pn : J) (s : World q J D N)
      → (load json s.session).0 ≡ ok (some d)
      → d.pn ≡ some pn
      → ((run_post_connect_init w json peer unified_session s).device ≡ d)
        × ((uploads : List (List (ℕ × Bytes))) × ((run_post_connect_init w json peer unified_session
                s).calls
              ≡ synced (
                  announced w d.push_name (
                    asked (device_list pn)
                    ∷ asked passive_active
                    ∷ (requests uploads ++ sent unified_session ∷ s.calls)))))
  run_post_connect_init-Calls d pn s loaded known =
      let t = record s { session = (load json s.session).1 } in
      let t1 = record t { device = d } in
      let n = length (sent unified_session ∷ s.calls) in
      let u =
        upload_prekeys_if_needed (peer.keys n) d.next_pre_key_id (peer.prekeys n)
          (record { session = t.session; uploads = [] }) in
      let step : run_post_connect_init w json peer unified_session s
          ≡ greet w json peer unified_session d (some pn) t1 =
        ap (λ r. greet_loaded w json peer unified_session r t) loaded
        ∙ ap (λ p. greet w json peer unified_session d p t1) known in
      let last : World q J D N = record t1 {
        session = u.1.session;
        calls =
            asked (device_list pn)
            ∷ asked passive_active
            ∷ (requests u.1.uploads ++ sent unified_session ∷ s.calls);
      } in
      let present : (send_presence w json peer unified_session d.push_name last).calls
          ≡ announced w d.push_name last.calls =
        if_both (λ (x : World q J D N) (cs : List (Call J N)). x.calls ≡ cs) (d.push_name == "")
          refl refl in
      (
        ap (λ x. x.device) step
            ∙ if_intro (λ (x : World q J D N). (sync_all peer app_state_collections x).device ≡ d)
                (d.push_name == "") _ _ (λ a. refl) (λ a. refl),
        (u.1.uploads, ap (λ x. x.calls) step ∙ ap synced present),
      )
