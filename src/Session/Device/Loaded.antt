-- ===== src/Session/Device/Loaded.antt =====
-- `load` gives what the text of the device parses to, or fails as its statement does.
use waepic.Prelude.{Option, String, ◌≡◌, ap, ◌∙◌, sym, ◌⊎◌, inl, inr, nat_eq}
use waepic.Prelude.Outcome.{Result, ok, err, err≢ok, continue, lift}
use waepic.Session.Sql.{Sql}
use waepic.Session.Schema.{SqliteSession, StoreError, database}
use waepic.Session.Schema.Quiet.{after}
use waepic.Session.Schema.Failing.{statement-either}
use waepic.Session.AppSync.{Json}
use waepic.Session.Protocol.{parsed}
use waepic.Session.Device.{load}

module _ {q : Sql} {V : Type 0} (json : Json V) (s : SqliteSession q) where
  pub load-either :
      (load json s ≡ (parsed json (q.select 0 (s.device)), after s))
      ⊎ ((m : String) × (load json s ≡ (err (database m), after s)))
  load-either =
      let decide : Result StoreError (Option String) × SqliteSession q
          → Result StoreError (Option V) × SqliteSession q =
        λ x. continue x.0 (λ row. lift (parsed json row)) x.1 in
      elim (statement-either (λ u t. (ok (q.select 0 (t.device)), t)) s) [
        | inl runs ↦ inl (ap decide runs)
        | inr (m, stops) ↦ inr (m, ap decide stops)
      ]

  pub load-ok :
      (r : Option V)
      → (load json s).0 ≡ ok r
      → (parsed json (q.select 0 (s.device)) ≡ ok r) × ((load json s).1 ≡ after s)
  load-ok r h = elim load-either [
    | inl runs ↦ (sym (ap (λ x. x.0) runs) ∙ h, ap (λ x. x.1) runs)
    | inr (m, stops) ↦ absurd (err≢ok (sym (ap (λ x. x.0) stops) ∙ h))
  ]
