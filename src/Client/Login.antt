-- ===== src/Client/Login.antt =====
-- waepic-client/src/client/auth.rs: the login checks.
pub mod Paired
use Prim.Native.Char.{Char, code}
use Prim.Native.String.{◌++◌ as text_append}
use Prim.Native.String
use waepic.Prelude.{
  ℕ, zero, suc, List, [], ◌∷◌, Option, none, some, Bool, true, false, ◌&&◌, String, ◌==◌, nat_eq,
  leb, ltb, if◌then◌else◌,
}
use waepic.Prelude.Outcome.{Result, ok, err, Exec, map_err, lift, pure, ◌>>=◌}
use waepic.Session.Sql.{Sql}
use waepic.Session.Schema.{StoreError}
use waepic.Session.AppSync.{Json}
use waepic.Session.Device.{load}
use waepic.Client.Error.{ClientError, internal, not_logged_in}
use waepic.Client.World.{Device, World, on_session}
use waepic.Client.Chat.{Chat, user, set_push_name, chat}
use waepic.Client.Server.{Server}

pub data LoginStatus (J : Type 0) : Type 0 where
  authorized : J → String → LoginStatus J
  not_authorized : LoginStatus J

module _ {q : Sql} {J D N : Type 0} (json : Json (Device J D)) (shown : StoreError → String) where
  abbrev pub load_device : Exec (World q J D N) ClientError (Option (Device J D))
  load_device =
      on_session (λ e. internal (text_append "failed to load device: " (shown e))) (load json)

module _ {J : Type 0} where
  abbrev pub is_known : Option J → Bool
  is_known none = false
  is_known (some pn) = true

  abbrev pub status_for : Option J → String → LoginStatus J
  status_for none push_name = not_authorized
  status_for (some pn) push_name = authorized pn push_name

  abbrev pub named : String → Chat J → Chat J
  named push_name (user u) = user (set_push_name push_name u)
  named push_name c = c

  abbrev pub me_for : (J → Server) → Option J → String → Result ClientError (Chat J)
  me_for server none push_name = err not_logged_in
  me_for server (some pn) push_name = ok (named push_name (chat server pn))

module _ {J D : Type 0} where
  abbrev pub is_paired_device : Option (Device J D) → Bool
  is_paired_device none = false
  is_paired_device (some d) = is_known d.pn

  abbrev pub status_of : Option (Device J D) → LoginStatus J
  status_of none = not_authorized
  status_of (some d) = status_for d.pn d.push_name

  abbrev pub me_of : (J → Server) → Option (Device J D) → Result ClientError (Chat J)
  me_of server none = err not_logged_in
  me_of server (some d) = me_for server d.pn d.push_name

module _ {q : Sql} {J D N : Type 0} (json : Json (Device J D)) (shown : StoreError → String) where
  abbrev pub is_authorized : Exec (World q J D N) ClientError Bool
  is_authorized = load_device json shown >>= λ d. pure (is_paired_device d)

  abbrev pub check_login_status : Exec (World q J D N) ClientError (LoginStatus J)
  check_login_status = load_device json shown >>= λ d. pure (status_of d)

  abbrev pub get_me : (J → Server) → Exec (World q J D N) ClientError (Chat J)
  get_me server = load_device json shown >>= λ d. lift (me_of server d)
