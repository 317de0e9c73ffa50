-- ===== src/Session/Device/Kept.antt =====
-- `create` makes a device once, and never over one that is stored.
use waepic.Prelude.{
  ℕ, List, some, Bool, String, ◌==◌, nat_eq, ◌≡◌, refl, ap, ◌∙◌, if_intro, keep, length, ltb, inl,
  inr,
}
use waepic.Prelude.Outcome.{Result, ok, err, continue, pure, Result-cases, ◌>>◌}
use waepic.Session.Sql.{Sql}
use waepic.Session.Schema.{SqliteSession, StoreError}
use waepic.Session.Schema.Quiet.{after}
use waepic.Session.Schema.Failing.{statement-either}
use waepic.Session.AppSync.{Json}
use waepic.Session.Device.{create, exists, insert_device, insert_new, is_ok_and}

module _ {q : Sql} where
  abbrev count_rows : List (ℕ × String) → SqliteSession q → Result StoreError Bool × SqliteSession q
  count_rows rows = pure (ltb 0 (length (keep (λ row. row.0 == 0) rows)))

  exists-device : (s : SqliteSession q) → (exists s).1.device ≡ s.device
  exists-device s = elim (statement-either (λ u t. (ok (q.rows (t.device)), t)) s) [
    | inl runs ↦ ap (λ x. (continue x.0 count_rows x.1).1.device) runs
    | inr (e, stops) ↦ ap (λ x. (continue x.0 count_rows x.1).1.device) stops
  ]

  insert_device-device :
      (text old : String) (s : SqliteSession q)
      → q.select 0 (s.device) ≡ some old
      → (insert_device text s).1.device ≡ s.device
  insert_device-device text old s h =
      elim (statement-either (λ u t. insert_new 0 text (q.select 0 (t.device)) t) s) [
        | inl runs ↦
            ap (λ x. x.1.device) runs ∙ ap (λ o. (insert_new 0 text o (after s)).1.device) h
        | inr (e, stops) ↦ ap (λ x. x.1.device) stops
      ]

  then_pure :
      (out : Result StoreError (Unit {0}) × SqliteSession q) (n : ℕ)
      → (continue out.0 (λ u. pure n) out.1).1 ≡ out.1
  then_pure out n = elim (Result-cases out.0) [
    | inl (a, fine) ↦ ap (λ r. (continue r (λ u. pure n) out.1).1) fine
    | inr (e, failed) ↦ ap (λ r. (continue r (λ u. pure n) out.1).1) failed
  ]

  insert_text :
      (text : Result StoreError String) (old : String) (s : SqliteSession q)
      → q.select 0 (s.device) ≡ some old
      → (continue {B = ℕ} text (λ t. insert_device t >> pure 0) s).1.device ≡ s.device
  insert_text (ok t) old s h =
      ap (λ x. x.device) (then_pure (insert_device t s) 0) ∙ insert_device-device t old s h
  insert_text (err e) old s h = refl

-- Whatever fails, `create` leaves a stored device as it is.
pub create-keeps :
    {q : Sql} {V : Type 0} (json : Json V) (fresh : V) (s : SqliteSession q) (old : String)
    → q.select 0 (s.device) ≡ some old
    → (create json fresh s).1.device ≡ s.device
create-keeps {q} json fresh s old h =
    if_intro (λ (x : Result StoreError ℕ × SqliteSession q). x.1.device ≡ s.device)
      (is_ok_and (exists s).0) _ _ (λ there. exists-device s)
      (λ absent.
        insert_text _ old (exists s).1 (ap (q.select 0) (exists-device s) ∙ h) ∙ exists-device s)
