-- ===== src/Client/Pairing/Success.antt =====
-- `handle_pair_success` of waepic-client/src/client/pair.rs.
pub mod Saved
use Prim.Native.String.{◌++◌ as text_append}
use waepic.Prelude.{
  ℕ, List, [], ◌∷◌, Option, none, some, Bool, true, false, String, ◌==◌, text_eq, if◌then◌else◌,
}
use waepic.Prelude.Outcome.{Result, ok, err, Exec, map_err, lift, pure, ignore, ◌>>=◌, ◌>>◌}
use waepic.Prelude.Decimal.{decimal}
use waepic.Connection.Ports.{Bytes, Wire}
use waepic.Session.Sql.{Sql}
use waepic.Session.Schema.{SqliteSession, StoreError}
use waepic.Session.AppSync.{Json}
use waepic.Session.Signal.{store_signed_prekey}
use waepic.Session.Device.{save}
use waepic.Client.Error.{ClientError, internal, auth, pair_failed}
use waepic.Client.World.{
  Jids, Device, Iq, passive_active, Call, sent, asked, World, Peer, call, on_session,
  upload_prekeys, send_active_iq,
}
use waepic.Client.Pairing.Nodes.{PairSuccess, read_pair_success}

-- `wacore::pair::PairUtils` and `record_helpers`; the texts of the store's errors are in `shown`.
pub record PairUtils (D N : Type 0) : Type 0 where
  pub do_pair_crypto : D → Bytes → Result (ℕ × String) (Bytes × ℕ)
  pub build_pair_success_response : String → Bytes → ℕ → N
  pub signed_pre_key_record : ℕ → D → Bytes
  pub shown : StoreError → String

module _ {J D : Type 0} (jids : Jids J) where
  abbrev pub updated_device : PairSuccess J → Device J D → Device J D
  updated_device p d = record d {
    pn = some p.jid;
    lid = if jids.user p.lid == "" then d.lid else some p.lid;
    push_name = if p.business_name == "" then d.push_name else p.business_name;
    server_has_prekeys = false;
  }

module _ {J D N : Type 0} (utils : PairUtils D N) where
  abbrev pub pair_crypto : Device J D → PairSuccess J → Result ClientError (Bytes × ℕ)
  pair_crypto d p =
      map_err
        (λ e. auth (
          pair_failed (
            text_append "crypto validation failed ("
              (text_append (decimal e.0) (text_append "): " e.1)))))
        (utils.do_pair_crypto d.material p.device_identity_bytes)

module _ {q : Sql} {J D N : Type 0} (json : Json (Device J D)) (utils : PairUtils D N) where
  -- `save` and `store_signed_prekey`, each with its own message.
  abbrev pub persist : Device J D → Exec (World q J D N) ClientError (Unit {0})
  persist d =
      on_session (λ e. internal (text_append "failed to save device: " (utils.shown e)))
        (save json d)
      >> on_session (λ e. internal (text_append "failed to store signed prekey: " (utils.shown e)))
          (store_signed_prekey d.signed_pre_key_id
            (utils.signed_pre_key_record d.signed_pre_key_id d.material))

module _ {q : Sql} {J D N P : Type 0} (peer : Peer J N P) where
  abbrev pub respond : N → Exec (World q J D N) ClientError (Unit {0})
  respond n s =
      let (r, t) = call peer (sent n) s in
      (map_err (λ e. auth (pair_failed (text_append "failed to send pair-device-sign: " e))) r, t)

  -- The prekey upload and the active IQ, whose errors are only logged.
  abbrev pub announce_paired : Device J D → World q J D N → World q J D N
  announce_paired d s = ignore (send_active_iq peer) (ignore (upload_prekeys peer d) s)

module _ {q : Sql} {J D N K P : Type 0} (w : Wire N K) (jids : Jids J) (json : Json (Device J D))
    (utils : PairUtils D N) (peer : Peer J N P) where
  -- After the crypto: the response is sent first, and the device is stored once it is.
  abbrev pub accept :
      Device J D → PairSuccess J → Bytes × ℕ → Exec (World q J D N) ClientError (Unit {0})
  accept d p signed =
      respond peer (utils.build_pair_success_response p.req_id signed.0 signed.1)
      >> persist json utils (updated_device jids p d)
      >> λ s. (ok tt, announce_paired peer (updated_device jids p d) s)

  abbrev pub handle_pair_success : Device J D → N → Exec (World q J D N) ClientError (Unit {0})
  handle_pair_success d n =
      lift (read_pair_success w jids n) >>= λ p. lift (pair_crypto utils d p) >>= accept d p
