-- ===== src/Client/World.antt =====
-- What the tasks of waepic-client share: the session, the calls of the connection handle, the device
-- in memory, and the flag of the post-pair window. Code of other crates is a parameter.
use Prim.Native.String.{◌++◌ as text_append}
use waepic.Prelude.{ℕ, List, [], ◌∷◌, length, Option, Bool, String, ◌++◌}
use waepic.Prelude.Outcome.{Result, Exec, map_err}
use waepic.Connection.Ports.{Bytes}
use waepic.Session.Sql.{Sql}
use waepic.Session.Schema.{SqliteSession, StoreError}
use waepic.Client.Error.{ClientError, internal}
use waepic.Client.Prekeys.{Keys, Answers, upload_prekeys_if_needed}

-- `wacore_binary::Jid`
pub record Jids (J : Type 0) : Type 0 where
  pub parse : String → Option J
  pub default : J
  pub user : J → String
  pub to_string : J → String

-- `wacore::store::Device`: what the client reads and writes of it, and the keys in it.
pub record Device (J D : Type 0) : Type 0 where
  pub pn : Option J
  pub lid : Option J
  pub push_name : String
  pub server_has_prekeys : Bool
  pub signed_pre_key_id : ℕ
  pub next_pre_key_id : ℕ
  pub material : D

-- `CompanionHelloSpec` of client/auth.rs.
pub record CompanionHelloSpec : Type 0 where
  pub phone : String
  pub noise_static_pub : Bytes
  pub wrapped_ephemeral : Bytes
  pub platform_id : String
  pub platform_display : String
  pub show_push_notification : Bool
  pub req_id : String

-- The requests that the client hands to `send_iq`. The type of a dirty bit is the text it is made of.
pub data Iq (J : Type 0) : Type 0 where
  prekey_count passive_active : Iq J
  prekey_upload : List (ℕ × Bytes) → Iq J
  device_list : J → Iq J
  app_state_sync : String → Iq J
  clean_dirty_bits : String → Option ℕ → Iq J
  remove_companion_device : J → Iq J
  companion_hello : CompanionHelloSpec → Iq J

-- `send_node`, `send_iq` and `disconnect` of the handle.
pub data Call (J N : Type 0) : Type 0 where
  sent : N → Call J N
  asked : Iq J → Call J N
  closing : Call J N

-- `calls` has the latest call first.
pub record World (q : Sql) (J D N : Type 0) : Type 0 where
  pub session : SqliteSession q
  pub calls : List (Call J N)
  pub post_pair_reconnect : Bool
  pub device : Device J D

-- How the handle answers the call after the first `n`, and how the server answers the prekey
-- upload that starts there.
pub record Peer (J N P : Type 0) : Type 0 where
  pub answer : ℕ → Call J N → Result String (Unit {0})
  pub prekeys : ℕ → Answers
  pub keys : ℕ → Keys P

-- The calls of an upload, whose entries were handed to `send_iq` if the count was low.
abbrev pub requests : {J N : Type 0} → List (List (ℕ × Bytes)) → List (Call J N)
requests [] = asked prekey_count ∷ []
requests (entries ∷ rest) = asked (prekey_upload entries) ∷ requests rest

module _ {q : Sql} {J D N P : Type 0} (peer : Peer J N P) where
  abbrev pub call : Call J N → Exec (World q J D N) String (Unit {0})
  call c w = (peer.answer (length w.calls) c, record w { calls = c ∷ w.calls })

  -- `upload_prekeys_if_needed` on the session and the calls that it makes.
  abbrev pub upload_prekeys : Device J D → Exec (World q J D N) ClientError (Unit {0})
  upload_prekeys d w =
      let n = length w.calls in
      let (r, u) =
        upload_prekeys_if_needed (peer.keys n) d.next_pre_key_id (peer.prekeys n)
          (record { session = w.session; uploads = [] }) in
      (r, record w { session = u.session; calls = requests u.uploads ++ w.calls })

  abbrev pub send_active_iq : Exec (World q J D N) ClientError (Unit {0})
  send_active_iq w =
      let (r, s) = call (asked passive_active) w in
      (map_err (λ e. internal (text_append "failed to send active iq: " e)) r, s)

module _ {q : Sql} {J D N : Type 0} where
  -- A method of the session, its error in `ClientError::Internal`.
  abbrev pub on_session :
      {A : Type 0}
      → (StoreError → ClientError)
      → Exec (SqliteSession q) StoreError A
      → Exec (World q J D N) ClientError A
  on_session wrap m w = let (r, s) = m w.session in (map_err wrap r, record w { session = s })
