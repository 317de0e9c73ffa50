-- ===== src/Session/Signal/Identities.antt =====
-- Identity keys, read back.
use waepic.Prelude.{
  some, String, ◌==◌, text_eq, ◌≡◌, refl, ap, ◌∙◌, sym, if◌then◌else◌, inl, inr, Bool-cases,
}
use waepic.Prelude.Outcome.{lift, continue}
use waepic.Connection.Ports.{Bytes}
use waepic.Session.Sql.{Sql}
use waepic.Session.Schema.{SqliteSession}
use waepic.Session.Schema.Quiet.{Quiet, rest_succeed, insert_or_replace-Quiet, select_row-Quiet}
use waepic.Session.Signal.{put_identity, load_identity, identity_key, identities_table}

load_identity-Quiet :
    {q : Sql} (s : SqliteSession q) (address : String)
    → Quiet s
    → (load_identity address s).0 ≡ identity_key (q.select address (s.identities))
load_identity-Quiet s address h =
    ap (λ x. (continue x.0 (λ row. lift (identity_key row)) x.1).0)
      (select_row-Quiet identities_table s h address)

-- While the statements succeed, an identity that was put is the one loaded for its address if it
-- has 32 bytes, one of another length is refused there, and the other addresses load what they
-- loaded before.
pub load_identity-put_identity :
    {q : Sql} (s : SqliteSession q) (address other : String) (key : Bytes)
    → Quiet s
    → (load_identity other (put_identity address key s).1).0
      ≡ (if address == other then identity_key (some key) else (load_identity other s).0)
load_identity-put_identity {q} s address other key h =
    ap (λ x. (load_identity other x.1).0) (insert_or_replace-Quiet identities_table s h address key)
    ∙ load_identity-Quiet _ other (rest_succeed s.outcomes h)
    ∙ ap identity_key (q.select-replace address other key (s.identities))
    ∙ elim (Bool-cases (address == other)) [
      | inl same ↦ rw same refl
      | inr differ ↦ rw differ (sym (load_identity-Quiet s other h))
    ]
