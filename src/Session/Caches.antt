-- ===== src/Session/Caches.antt =====
-- The cache of chats that waepic-session/src/session.rs asks of a session, and what its calls
-- answer. `SqliteSession` and `MemorySession` both implement it.
pub mod Refined
use waepic.Prelude.{List, [], ◌∷◌, Option, none, some, Bool, String, ◌==◌, text_eq, if◌then◌else◌}
use waepic.Prelude.Outcome.{Exec, pure, ◌>>=◌, ◌>>◌}
use waepic.Session.Sql.{Sql}
use waepic.Session.Schema.{SqliteSession, StoreError}
use waepic.Session.Chats.{JidText, ChatEntry}
use waepic.Session.Chats
use waepic.Session.Memory
use waepic.Session.Memory.{MemorySession}

pub record ChatCache (S J : Type 0) : Type 0 where
  pub get_chat : J → Exec S StoreError (Option (ChatEntry J))
  pub cache_chat : ChatEntry J → Exec S StoreError (Unit {0})
  pub remove_chat : J → Exec S StoreError (Unit {0})

module _ {J : Type 0} (jids : JidText J) where
  abbrev pub sqlite_cache : {q : Sql} → ChatCache (SqliteSession q) J
  sqlite_cache = record {
    get_chat = Chats.get_chat jids;
    cache_chat = Chats.cache_chat jids;
    remove_chat = Chats.remove_chat jids;
  }

  abbrev pub memory_cache : {B : Type 0} → ChatCache (MemorySession B J) J
  memory_cache = record {
    get_chat = Memory.get_chat jids;
    cache_chat = Memory.cache_chat jids;
    remove_chat = Memory.remove_chat jids;
  }

pub data CacheCall (J : Type 0) : Type 0 where
  look : J → CacheCall J
  keep_chat : ChatEntry J → CacheCall J
  forget : J → CacheCall J

-- What the lookups of a sequence of calls answer.
abbrev pub run_calls :
    {S J : Type 0}
    → ChatCache S J
    → List (CacheCall J)
    → Exec S StoreError (List (Option (ChatEntry J)))
run_calls c [] = pure []
run_calls c (look jid ∷ calls) =
    c.get_chat jid >>= λ found. run_calls c calls >>= λ rest. pure (found ∷ rest)
run_calls c (keep_chat chat ∷ calls) = c.cache_chat chat >> run_calls c calls
run_calls c (forget jid ∷ calls) = c.remove_chat jid >> run_calls c calls

-- The abstract cache is a function from the text of an address.
abbrev pub View : Type 0 → Type 0
View J = String → Option (ChatEntry J)

abbrev pub update : {J : Type 0} → String → Option (ChatEntry J) → View J → View J
update key entry f other = if key == other then entry else f other

-- The same calls on the abstract cache.
abbrev pub answers :
    {J : Type 0} → JidText J → List (CacheCall J) → View J → List (Option (ChatEntry J))
answers jids [] f = []
answers jids (look jid ∷ calls) f = f (jids.to_string jid) ∷ answers jids calls f
answers jids (keep_chat chat ∷ calls) f =
    answers jids calls (update (jids.to_string (chat.jid)) (some chat) f)
answers jids (forget jid ∷ calls) f = answers jids calls (update (jids.to_string jid) none f)
