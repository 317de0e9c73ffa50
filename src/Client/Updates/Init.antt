-- ===== src/Client/Updates/Init.antt =====
-- `run_post_connect_init` of waepic-client/src/client/updates.rs.
pub mod Calls
use waepic.Prelude.{
  ℕ, List, [], ◌∷◌, Option, none, some, Bool, true, false, String, ◌==◌, text_eq, if◌then◌else◌,
}
use waepic.Prelude.Outcome.{Result, ok, err, ignore}
use waepic.Connection.Ports.{Wire}
use waepic.Session.Sql.{Sql}
use waepic.Session.Schema.{StoreError}
use waepic.Session.AppSync.{Json}
use waepic.Session.Device.{load}
use waepic.Client.Handlers.Dirty.{sync_all, app_state_collections}
use waepic.Client.World.{
  Device, Iq, device_list, app_state_sync, Call, sent, asked, World, Peer, call, send_active_iq,
  upload_prekeys,
}

module _ {N K : Type 0} (w : Wire N K) where
  abbrev pub available : String → N
  available name = w.node "presence" (("type", "available") ∷ ("name", name) ∷ []) none

module _ {q : Sql} {J D N K P : Type 0} (w : Wire N K) (json : Json (Device J D))
    (peer : Peer J N P) (unified_session : N) where
  abbrev pub send_presence : String → World q J D N → World q J D N
  send_presence push_name s =
      if push_name == "" then s else ignore (call peer (sent (available w push_name))) s

  -- Errors are only logged.
  abbrev pub greet : Device J D → Option J → World q J D N → World q J D N
  greet d none s = s
  greet d (some pn) s =
      let s1 = ignore (call peer (sent unified_session)) s in
      let s2 = ignore (upload_prekeys peer d) s1 in
      let s3 = ignore (send_active_iq peer) s2 in
      let s4 = ignore (call peer (asked (device_list pn))) s3 in
      sync_all peer app_state_collections (send_presence d.push_name s4)

  abbrev pub greet_loaded : Result StoreError (Option (Device J D)) → World q J D N → World q J D N
  greet_loaded (ok (some d)) s = greet d d.pn (record s { device = d })
  greet_loaded (ok none) s = s
  greet_loaded (err e) s = s

  abbrev pub run_post_connect_init : World q J D N → World q J D N
  run_post_connect_init s =
      let (r, t) = load json s.session in greet_loaded r (record s { session = t })
