-- ===== src/Client/Front.antt =====
-- waepic-client/src/client/mod.rs: the methods of the client on its device and its connection.
pub mod Prepared
use Prim.Native.String.{◌++◌ as text_append}
use waepic.Prelude.{ℕ, List, ◌∷◌, Option, none, some, String}
use waepic.Prelude.Outcome.{Result, ok, err, Exec, map_err, pure, ignore, ◌>>=◌}
use waepic.Connection.Ports.{Bytes}
use waepic.Connection.Error
use waepic.Session.Sql.{Sql}
use waepic.Session.Schema.{StoreError}
use waepic.Session.AppSync.{Json}
use waepic.Session.Signal.{load_signed_prekey, store_signed_prekey}
use waepic.Session.Device
use waepic.Client.Error.{ClientError, internal, connection}
use waepic.Client.World.{
  Device, asked, closing, remove_companion_device, World, Peer, call, on_session,
}
use waepic.Client.Pairing.Nodes.{or_else}
use waepic.Client.Pairing.Success.{PairUtils}
use waepic.Client.Login.{load_device}

module _ {q : Sql} {J D N : Type 0} (shown : StoreError → String) where
  abbrev pub clear_device : Exec (World q J D N) ClientError (Unit {0})
  clear_device =
      on_session (λ e. internal (text_append "failed to clear device: " (shown e)))
        Device.clear_device

module _ {q : Sql} {J D N : Type 0} (json : Json (Device J D)) (utils : PairUtils D N) where
  -- A stored signed prekey is kept.
  abbrev pub store_missing : Device J D → Option Bytes → Exec (World q J D N) ClientError (Unit {0})
  store_missing d (some b) = pure tt
  store_missing d none =
      on_session (λ e. internal (text_append "failed to store signed prekey: " (utils.shown e)))
        (store_signed_prekey d.signed_pre_key_id
          (utils.signed_pre_key_record d.signed_pre_key_id d.material))

  abbrev pub ensure_signed_prekey : Exec (World q J D N) ClientError (Unit {0})
  ensure_signed_prekey s =
      (on_session (λ e. internal (text_append "failed to check signed prekey: " (utils.shown e)))
            (load_signed_prekey s.device.signed_pre_key_id)
          >>= store_missing s.device)
        s

  abbrev pub adopt : Option (Device J D) → Exec (World q J D N) ClientError (Unit {0})
  adopt loaded s = ensure_signed_prekey (record s { device = or_else loaded s.device })

  abbrev pub load_or_create_device : Exec (World q J D N) ClientError (Unit {0})
  load_or_create_device = load_device json utils.shown >>= adopt

module _ {q : Sql} {J D N P : Type 0} (peer : Peer J N P) where
  -- The one error of `ConnectionHandle::disconnect` is that the runner is gone.
  abbrev pub disconnect : Exec (World q J D N) ClientError (Unit {0})
  disconnect s =
      let (r, t) = call peer closing s in
      (map_err (λ e. connection (Error.protocol "connection runner dropped")) r, t)

  -- The IQ is sent where the device is paired; its error is only logged.
  abbrev pub announce_logout : Option J → World q J D N → World q J D N
  announce_logout none s = s
  announce_logout (some pn) s = ignore (call peer (asked (remove_companion_device pn))) s

  abbrev pub logout : Exec (World q J D N) ClientError (Unit {0})
  logout s = disconnect (announce_logout s.device.pn s)
