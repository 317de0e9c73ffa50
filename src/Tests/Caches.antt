-- ===== src/Tests/Caches.antt =====
-- The same calls on both sessions.
use waepic.Prelude.{List, [], ◌∷◌, none, some, String, text_eq, ◌≡◌, refl}
use waepic.Prelude.Outcome.{ok}
use waepic.Prelude.Map.{get}
use waepic.Session.Chats.{JidText, ChatEntry}
use waepic.Session.Memory.{MemorySession, new}
use waepic.Session.Caches.{
  CacheCall, look, keep_chat, forget, run_calls, answers, sqlite_cache, memory_cache,
}
use waepic.Session.Caches.Refined.{run_calls_refines}
use waepic.Tests.Stores.{empty_session}

abbrev texts : JidText String
texts = record { to_string = λ j. j; parse_or_default = λ t. t }

abbrev named : String → ChatEntry String
named name = record { jid = "1@s"; name = some name; kind = "user" }

abbrev calls : List (CacheCall String)
calls =
    keep_chat (named "a")
    ∷ look "1@s"
    ∷ keep_chat (named "b")
    ∷ look "1@s"
    ∷ forget "1@s"
    ∷ look "1@s"
    ∷ []

abbrev fresh : MemorySession (Unit {0}) String
fresh = new tt

answered :
    (run_calls (sqlite_cache texts) calls empty_session).0
    ≡ ok (some (named "a") ∷ some (named "b") ∷ none ∷ [])
answered = refl

run_calls_refines_example :
    ((run_calls (sqlite_cache texts) calls empty_session).0
      ≡ ok (answers texts calls (λ key. none)))
    × ((run_calls (memory_cache texts) calls fresh).0 ≡ ok (answers texts calls (λ key. none)))
unfolding get
run_calls_refines_example =
    run_calls_refines texts (λ jid. refl) calls (λ key. none) empty_session fresh (tt, λ key. refl)
      (λ key. refl)
