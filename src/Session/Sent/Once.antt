-- ===== src/Session/Sent/Once.antt =====
-- A stored message is taken once; the old ones are deleted and no others.
use waepic.Prelude.{
  ℕ, Option, none, some, false, String, ◌==◌, ==_refl, ==_sym, text_eq, pair_eq, ◌≡◌, ap, ◌∙◌, sym,
  if_true, if_false,
}
use waepic.Prelude.Outcome.{ok}
use waepic.Connection.Ports.{Bytes}
use waepic.Session.Sql.{Sql, spared_gone, spared_kept}
use waepic.Session.Schema.{SqliteSession, SentRow}
use waepic.Session.Schema.Quiet.{
  Quiet, after, rest_succeed, statement-Quiet, insert_or_replace-Quiet,
}
use waepic.Session.Sent.{
  store_sent_message, take_sent_message, sent_messages_table, payload_of, timestamp_of,
}

module _ {q : Sql} where
  abbrev without : String → String → SqliteSession q → SqliteSession q
  without chat id s = record (after s) {
    sent_messages = q.delete (λ k r. k == (chat, id)) (s.sent_messages);
  }

  take-Quiet :
      (s : SqliteSession q) (chat id : String)
      → Quiet s
      → take_sent_message chat id s
        ≡ (ok (payload_of (q.select (chat, id) (s.sent_messages))), without chat id s)
  take-Quiet s chat id h = statement-Quiet _ s h

  take_absent :
      (s : SqliteSession q) (chat id : String)
      → Quiet s
      → q.select (chat, id) (s.sent_messages) ≡ none
      → (take_sent_message chat id s).0 ≡ ok none
  take_absent s chat id h absent =
      ap (λ x. x.0) (take-Quiet s chat id h) ∙ ap (λ o. ok (payload_of o)) absent

-- While the statements succeed, a message that was stored is taken once: the first
-- `take_sent_message` gives its payload, a second one gives nothing, and any other message is
-- taken as it would have been before.
pub take_sent_message-once :
    {q : Sql} (s : SqliteSession q) (now : Option ℕ) (chat id : String) (message : Bytes)
    (chat' id' : String)
    → Quiet s
    → ◌==◌ {A = String × String} (chat', id') (chat, id) ≡ false
    → ((take_sent_message chat id (store_sent_message now chat id message s).1).0
        ≡ ok (some message))
      × ((take_sent_message chat id
            (take_sent_message chat id (store_sent_message now chat id message s).1).1).0
          ≡ ok none)
      × ((take_sent_message chat' id'
            (take_sent_message chat id (store_sent_message now chat id message s).1).1).0
          ≡ (take_sent_message chat' id' s).0)
take_sent_message-once {q} s now chat id message chat' id' h differ =
    let row : SentRow = record { payload = message; created_at = timestamp_of now } in
    let stored = insert_or_replace-Quiet sent_messages_table s h (chat, id) row in
    let h1 = rest_succeed s.outcomes h in
    let t = q.replace (chat, id) row (s.sent_messages) in
    let s1 = record (after s) { sent_messages = t } in
    let first = ap (λ x. take_sent_message chat id x.1) stored ∙ take-Quiet s1 chat id h1 in
    (
      ap (λ x. x.0) first
          ∙ ap (λ o. ok (payload_of o))
              (q.select-replace (chat, id) (chat, id) row (s.sent_messages)
                ∙ if_true _ _ (==_refl {A = String × String} (chat, id))),
      ap (λ x. (take_sent_message chat id x.1).0) first
          ∙ take_absent _ chat id (rest_succeed _ h1) (
              q.select-delete _ (chat, id) t
              ∙ spared_gone _ _ (λ r. ==_refl {A = String × String} (chat, id))),
      ap (λ x. (take_sent_message chat' id' x.1).0) first
          ∙ ap (λ x. x.0) (take-Quiet _ chat' id' (rest_succeed _ h1))
          ∙ ap (λ o. ok (payload_of o))
              (q.select-delete _ (chat', id') t
                ∙ spared_kept _ _ (λ r. differ)
                ∙ q.select-replace (chat, id) (chat', id') row (s.sent_messages)
                ∙ if_false _ _ (==_sym {A = String × String} (chat, id) (chat', id') ∙ differ))
          ∙ sym (ap (λ x. x.0) (take-Quiet s chat' id' h)),
    )
