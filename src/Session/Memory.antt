-- ===== src/Session/Memory.antt =====
-- waepic-session/src/memory.rs: the caches of MemorySession. Its other methods are those of
-- `InMemoryBackend`, of another crate, whose state is `B`.
use waepic.Prelude.{List, [], map, Option, none, some, Bool, true, false, String, text_eq}
use waepic.Prelude.Map.{Map, get, insert, remove}
use waepic.Prelude.Outcome.{Exec, ok}
use waepic.Session.Schema.{StoreError}
use waepic.Session.Chats.{JidText, ChatEntry}

pub record MemorySession (B J : Type 0) : Type 0 where
  pub backend : B
  pub chats : Map String (ChatEntry J)
  pub contacts : Map String (Unit {0})

abbrev pub is_some : {A : Type 0} → Option A → Bool
is_some none = false
is_some (some a) = true

module _ {B J : Type 0} where
  -- `InMemoryBackend::new()` is the argument.
  abbrev pub new : B → MemorySession B J
  new b = record { backend = b; chats = []; contacts = [] }

  module _ (jids : JidText J) where
    abbrev pub add_contact : J → MemorySession B J → MemorySession B J
    add_contact jid s = record s { contacts = insert (jids.to_string jid) tt s.contacts }

    abbrev pub get_chat : J → Exec (MemorySession B J) StoreError (Option (ChatEntry J))
    get_chat jid s = (ok (get (jids.to_string jid) s.chats), s)

    abbrev pub cache_chat : ChatEntry J → Exec (MemorySession B J) StoreError (Unit {0})
    cache_chat chat s =
        (ok tt, record s { chats = insert (jids.to_string (chat.jid)) chat s.chats })

    abbrev pub get_chats : Exec (MemorySession B J) StoreError (List (ChatEntry J))
    get_chats s = (ok (map (λ entry. entry.1) s.chats), s)

    abbrev pub remove_chat : J → Exec (MemorySession B J) StoreError (Unit {0})
    remove_chat jid s = (ok tt, record s { chats = remove (jids.to_string jid) s.chats })

    abbrev pub is_contact : J → Exec (MemorySession B J) StoreError Bool
    is_contact jid s = (ok (is_some (get (jids.to_string jid) s.contacts)), s)

  -- The default of the trait `Session`, in session.rs.
  abbrev pub clear_device : Exec (MemorySession B J) StoreError (Unit {0})
  clear_device s = (ok tt, s)
