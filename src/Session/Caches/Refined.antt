-- ===== src/Session/Caches/Refined.antt =====
-- Both sessions answer as the abstract cache does.
use mathlib.Core.Path.{subst}
use waepic.Prelude.{
  ℕ, List, [], ◌∷◌, Option, none, some, String, ◌==◌, text_eq, ◌≡◌, refl, ap, sym, ◌∙◌,
  if◌then◌else◌, if_true, if_false, Bool-cases, inl, inr, ==_sym,
}
use waepic.Prelude.Map.{get, get-insert, get-remove}
use waepic.Prelude.Outcome.{Result, ok, Exec, continue, pure}
use waepic.Session.Sql.{Sql, spared_gone, spared_kept}
use waepic.Session.Schema.{SqliteSession, StoreError, ChatRow}
use waepic.Session.Schema.Quiet.{
  Quiet, rest_succeed, select_row-Quiet, insert_or_replace-Quiet, delete_rows-Quiet,
}
use waepic.Session.Chats.{JidText, ChatEntry, chats_table, found_chat}
use waepic.Session.Memory.{MemorySession}
use waepic.Session.Caches.{
  ChatCache, CacheCall, look, keep_chat, forget, run_calls, View, update, answers, sqlite_cache,
  memory_cache,
}

module _ {S J : Type 0} (jids : JidText J) (c : ChatCache S J) where
  -- How a session that shows `f` may end: with the answer, showing `g`.
  abbrev Ends : {A : Type 0} → (S → View J → Type 0) → Result StoreError A × S → A → View J → Type 0
  Ends Shows o a g = (o.0 ≡ ok a) × Shows o.1 g

  -- Each call answers as the abstract cache, whenever the session shows it.
  record Refines (Shows : S → View J → Type 0) : Type 0 where
    looks :
        (jid : J) (s : S) (f : View J)
        → Shows s f
        → Ends Shows (c.get_chat jid s) (f (jids.to_string jid)) f
    keeps :
        (chat : ChatEntry J) (s : S) (f : View J)
        → Shows s f
        → Ends Shows (c.cache_chat chat s) tt (update (jids.to_string (chat.jid)) (some chat) f)
    forgets :
        (jid : J) (s : S) (f : View J)
        → Shows s f
        → Ends Shows (c.remove_chat jid s) tt (update (jids.to_string jid) none f)

  module _ {Shows : S → View J → Type 0} (r : Refines Shows) where
    run_calls-answers :
        (calls : List (CacheCall J)) (s : S) (f : View J)
        → Shows s f
        → (run_calls c calls s).0 ≡ ok (answers jids calls f)
    run_calls-answers [] s f h = refl
    run_calls-answers (look jid ∷ calls) s f h =
        let (found, shows) = r.looks jid s f h in
        let s1 = (c.get_chat jid s).1 in
        let finish : Option (ChatEntry J) → Exec S StoreError (List (Option (ChatEntry J))) = λ x t.
          continue (run_calls c calls t).0 (λ rest. pure (x ∷ rest)) (run_calls c calls t).1 in
        ap (λ o. (continue o finish s1).0) found
        ∙ ap
            (λ o.
              (continue o (λ rest. pure (f (jids.to_string jid) ∷ rest))
                (run_calls c calls s1).1).0)
            (run_calls-answers calls s1 f shows)
    run_calls-answers (keep_chat chat ∷ calls) s f h =
        let (kept, shows) = r.keeps chat s f h in
        let s1 = (c.cache_chat chat s).1 in
        ap (λ o. (continue o (λ u. run_calls c calls) s1).0) kept
        ∙ run_calls-answers calls s1 _ shows
    run_calls-answers (forget jid ∷ calls) s f h =
        let (gone, shows) = r.forgets jid s f h in
        let s1 = (c.remove_chat jid s).1 in
        ap (λ o. (continue o (λ u. run_calls c calls) s1).0) gone
        ∙ run_calls-answers calls s1 _ shows

module _ {B J : Type 0} (jids : JidText J) where
  abbrev pub MemoryShows : MemorySession B J → View J → Type 0
  MemoryShows s f = (key : String) → get key s.chats ≡ f key

  memory-Refines : Refines jids (memory_cache jids) MemoryShows
  memory-Refines = record {
    looks = λ jid s f h. (ap ok (h (jids.to_string jid)), h);
    keeps = λ chat s f h. (
      refl,
      λ key.
          get-insert (jids.to_string (chat.jid)) key chat s.chats
          ∙ ap (λ x. if jids.to_string (chat.jid) == key then some chat else x) (h key),
    );
    forgets = λ jid s f h. (
      refl,
      λ key.
          get-remove (jids.to_string jid) key s.chats
          ∙ ap (λ x. if jids.to_string jid == key then none else x) (h key),
    );
  }

module _ {J : Type 0} (jids : JidText J) where
  -- The text of an address reads back.
  abbrev pub ReadsBack : Type 0
  ReadsBack = (jid : J) → jids.parse_or_default (jids.to_string jid) ≡ jid

  entry_path :
      (chat : ChatEntry J) (jid : J)
      → jid ≡ chat.jid
      → ◌≡◌ {A = ChatEntry J} (record { jid = jid; name = chat.name; kind = chat.kind }) chat
  entry_path chat jid h = ap (λ (j : J). record { jid = j; name = chat.name; kind = chat.kind }) h

  shown_after :
      (q : Sql) (back : ReadsBack) (chat : ChatEntry J) (f : View J) (key : String)
      (t : q.Table String ChatRow)
      → found_chat jids key (q.select key t) ≡ f key
      → found_chat jids key (
          q.select key (
            q.replace
              (jids.to_string (chat.jid))
              (record { name = chat.name; kind = chat.kind })
              t))
        ≡ update (jids.to_string (chat.jid)) (some chat) f key
  shown_after q back chat f key t h =
      let k = jids.to_string (chat.jid) in
      ap (found_chat jids key) (q.select-replace k key _ t) ∙ elim (Bool-cases (k == key)) [
        | inl same ↦
            ap (found_chat jids key) (if_true _ _ same)
            ∙ ap some (
                entry_path chat _ (
                  ap jids.parse_or_default (sym ((text_eq.beq_iff k key).0 same))
                  ∙ back (chat.jid)))
            ∙ sym (if_true _ _ same)
        | inr other ↦ ap (found_chat jids key) (if_false _ _ other) ∙ h ∙ sym (if_false _ _ other)
      ]

  hidden_after :
      (q : Sql) (jid : J) (f : View J) (key : String) (t : q.Table String ChatRow)
      → found_chat jids key (q.select key t) ≡ f key
      → found_chat jids key (q.select key (q.delete (λ k r. k == jids.to_string jid) t))
        ≡ update (jids.to_string jid) none f key
  hidden_after q jid f key t h =
      let k = jids.to_string jid in
      ap (found_chat jids key) (q.select-delete _ key t) ∙ elim (Bool-cases (k == key)) [
        | inl same ↦
            ap (found_chat jids key) (spared_gone (λ r. key == k) _ (λ r. ==_sym key k ∙ same))
            ∙ sym (if_true none (f key) same)
        | inr other ↦
            ap (found_chat jids key) (spared_kept (λ r. key == k) _ (λ r. ==_sym key k ∙ other))
            ∙ h
            ∙ sym (if_false none (f key) other)
      ]

module _ {q : Sql} {J : Type 0} (jids : JidText J) where
  abbrev pub SqliteShows : SqliteSession q → View J → Type 0
  SqliteShows s f =
      Quiet s × ((key : String) → found_chat jids key (q.select key (s.chats)) ≡ f key)

  sqlite-Refines : ReadsBack jids → Refines jids (sqlite_cache jids) SqliteShows
  sqlite-Refines back = record {
    looks = λ jid s f h.
        let run = select_row-Quiet chats_table s h.0 (jids.to_string jid) in
        let answer : Result StoreError (Option ChatRow) × SqliteSession q
            → Result StoreError (Option (ChatEntry J)) × SqliteSession q =
          λ (x : Result StoreError (Option ChatRow) × SqliteSession q).
            continue x.0 (λ row. pure (found_chat jids (jids.to_string jid) row)) x.1 in
        (
          ap (λ x. (answer x).0) run ∙ ap ok (h.1 (jids.to_string jid)),
          subst (λ x. SqliteShows ((answer x).1) f) (sym run) (rest_succeed s.outcomes h.0, h.1),
        );
    keeps = λ chat s f h.
        let run =
          insert_or_replace-Quiet chats_table s h.0 (jids.to_string (chat.jid))
            (record { name = chat.name; kind = chat.kind }) in
        (
          ap (λ x. x.0) run,
          subst (λ x. SqliteShows (x.1) (update (jids.to_string (chat.jid)) (some chat) f))
              (sym run)
              (
                rest_succeed s.outcomes h.0,
                λ key. shown_after jids q back chat f key s.chats (h.1 key),
              ),
        );
    forgets = λ jid s f h.
        let run = delete_rows-Quiet chats_table s h.0 (λ k r. k == jids.to_string jid) in
        let done : Result StoreError ℕ × SqliteSession q
            → Result StoreError (Unit {0}) × SqliteSession q =
          λ x. continue x.0 (λ n. pure tt) x.1 in
        (
          ap (λ x. (done x).0) run,
          subst (λ x. SqliteShows ((done x).1) (update (jids.to_string jid) none f)) (sym run)
              (rest_succeed s.outcomes h.0, λ key. hidden_after jids q jid f key s.chats (h.1 key)),
        );
  }

module _ {q : Sql} {B J : Type 0} (jids : JidText J) (back : ReadsBack jids) where
  pub run_calls_refines :
      (calls : List (CacheCall J)) (f : View J) (s : SqliteSession q) (m : MemorySession B J)
      → SqliteShows jids s f
      → MemoryShows jids m f
      → ((run_calls (sqlite_cache jids) calls s).0 ≡ ok (answers jids calls f))
        × ((run_calls (memory_cache jids) calls m).0 ≡ ok (answers jids calls f))
  run_calls_refines calls f s m h k = (
    run_calls-answers jids (sqlite_cache jids) (sqlite-Refines jids back) calls s f h,
    run_calls-answers jids (memory_cache jids) (memory-Refines jids) calls m f k,
  )
