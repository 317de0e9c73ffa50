-- ===== src/Session/Protocol/Expiry.antt =====
-- What the deletions of old rows remove and spare.
use mathlib.Core.Bool.{true≢false}
use waepic.Prelude.{
  none≢some, some_injective, ◌^◌, ◌-◌, min, Option, none, some, Bool, false, String, text_eq, ◌≡◌,
  refl, ap, ◌∙◌, sym, ◌↔◌, inl, inr, ℤ, below, ◌||◌, keep, length, if_true, if_false, Bool-cases,
  arith,
}
use waepic.Prelude.Outcome.{ok, continue, pure}
use waepic.Session.Sql.{Sql, spared}
use waepic.Session.Schema.{SqliteSession, TcToken, row_count}
use waepic.Session.Schema.Quiet.{Quiet, delete_rows-Quiet}
use waepic.Session.Protocol.{delete_expired_tc_tokens, expired_token, sent_before, tc_tokens_table}

-- A token is kept if it was not issued before the first cutoff, nor sent to, if it ever was,
-- before the second.
abbrev pub Current : ℤ → ℤ → TcToken → Type 0
Current token_cutoff sender_cutoff r =
    (below (r.token_timestamp) token_cutoff ≡ false)
    × ((t : ℤ) → r.sender_timestamp ≡ some t → below t sender_cutoff ≡ false)

or_false : (x y : Bool) → (x || y) ≡ false → (x ≡ false) × (y ≡ false)
or_false x y h = ground arith

both_false : (x y : Bool) → x ≡ false → y ≡ false → (x || y) ≡ false
both_false x y h k = ground arith

spared-some :
    {R : Type 0} (p : R → Bool) (o : Option R) (r : R)
    → (spared p o ≡ some r) ↔ ((o ≡ some r) × (p r ≡ false))
spared-some p none r = (λ h. absurd (none≢some h), λ h. absurd (none≢some (h.0)))
spared-some p (some v) r = elim (Bool-cases (p v)) [
  | inl gone ↦ (
    λ h. absurd (none≢some (sym (if_true none (some v) gone) ∙ h)),
    λ h. absurd (true≢false (sym gone ∙ ap p (some_injective (h.0)) ∙ h.1)),
  )
  | inr stays ↦ (
    λ h.
        let same = sym (if_false none (some v) stays) ∙ h in
        (same, ap p (sym (some_injective same)) ∙ stays),
    λ h. if_false none (some v) stays ∙ h.0,
  )
]

sent_before-false :
    (cutoff : ℤ) (o : Option ℤ)
    → (sent_before cutoff o ≡ false) ↔ ((t : ℤ) → o ≡ some t → below t cutoff ≡ false)
sent_before-false cutoff none = (λ h t e. absurd (none≢some e), λ h. refl)
sent_before-false cutoff (some u) =
    (λ h t e. ap (λ v. below v cutoff) (sym (some_injective e)) ∙ h, λ h. h u refl)

expired_token-false : (a b : ℤ) (r : TcToken) → (expired_token a b r ≡ false) ↔ Current a b r
expired_token-false a b r =
    let sender = sent_before-false b r.sender_timestamp in
    (
      λ h. ((or_false _ _ h).0, sender.0 ((or_false _ _ h).1)),
      λ c. both_false _ _ (c.0) (sender.1 (c.1)),
    )

-- While the statement succeeds, a stored token is there afterwards if and only if it was there
-- and is current, with its row unchanged, and the result is the number of the tokens removed, or
-- 2^32 - 1 if it is larger.
pub delete_expired_tc_tokens-Current :
    {q : Sql} (s : SqliteSession q) (token_cutoff sender_cutoff : ℤ)
    → Quiet s
    → ((jid : String) (r : TcToken)
        → (q.select jid ((delete_expired_tc_tokens token_cutoff sender_cutoff s).1.tc_tokens)
            ≡ some r)
          ↔ ((q.select jid (s.tc_tokens) ≡ some r) × Current token_cutoff sender_cutoff r))
      × ((delete_expired_tc_tokens token_cutoff sender_cutoff s).0
          ≡ ok (
              min
                (length (
                  keep
                    (λ row. expired_token token_cutoff sender_cutoff row.1)
                    (q.rows (s.tc_tokens))))
                (2 ^ 32 - 1)))
delete_expired_tc_tokens-Current {q} s a b h =
    let ran =
      ap (λ x. continue x.0 (λ rows. pure (row_count rows)) x.1)
        (delete_rows-Quiet tc_tokens_table s h (λ k r. expired_token a b r)) in
    (
      λ jid r.
          let there =
            ap (λ x. q.select jid (x.1.tc_tokens)) ran
            ∙ q.select-delete (λ k r. expired_token a b r) jid (s.tc_tokens) in
          let left = spared-some (expired_token a b) (q.select jid (s.tc_tokens)) r in
          (
            λ found.
                let old = left.0 (sym there ∙ found) in
                (old.0, (expired_token-false a b r).0 (old.1)),
            λ old. there ∙ left.1 (old.0, (expired_token-false a b r).1 (old.1)),
          ),
      ap (λ x. x.0) ran,
    )
