-- ===== src/Session/Device/Created.antt =====
-- A device that was created is there, and is the one loaded.
use waepic.Prelude.{
  none≢some, ℕ, List, Option, none, some, Bool, true, false, String, ◌==◌, ==_refl, nat_eq, ◌≡◌,
  refl, ap, if◌then◌else◌, ◌∙◌, sym, if_true, keep, length, ltb, Listed, Listed-keep,
  Listed-nonempty, keep-none, Bool-cases, inl, inr,
}
use waepic.Prelude.Outcome.{Result, ok, continue, pure, lift, map_err, ◌>>◌}
use waepic.Session.Sql.{Sql}
use waepic.Session.Schema.{SqliteSession, StoreError, serialization}
use waepic.Session.Schema.Quiet.{
  Quiet, after, rest_succeed, statement-Quiet, select_all-Quiet, select_row-Quiet,
}
use waepic.Session.AppSync.{Json}
use waepic.Session.Protocol.{parsed}
use waepic.Session.Device.{create, exists, load, insert_device, insert_new, is_ok_and, device_table}

abbrev is_some : Option String → Bool
is_some none = false
is_some (some d) = true

abbrev at_zero : ℕ × String → Bool
at_zero row = row.0 == 0

other_ids :
    (q : Sql) (t : q.Table ℕ String) (x : ℕ × String)
    → q.select 0 t ≡ none
    → Listed x (q.rows t)
    → at_zero x ≡ false
other_ids q t x h m = elim (Bool-cases (at_zero x)) [
  | inl zero ↦ absurd (
      none≢some (
        sym h
        ∙ ap (λ i. q.select i t) (sym ((nat_eq.beq_iff x.0 0).0 zero))
        ∙ q.rows-selected x.0 x.1 t m))
  | inr other ↦ other
]

counted :
    (q : Sql) (t : q.Table ℕ String) (o : Option String)
    → q.select 0 t ≡ o
    → ltb 0 (length (keep at_zero (q.rows t))) ≡ is_some o
counted q t none h =
    ap (λ (xs : List (ℕ × String)). ltb 0 (length xs))
      (keep-none at_zero (q.rows t) (λ x m. other_ids q t x h m))
counted q t (some d) h =
    Listed-nonempty (0, d) _ (Listed-keep at_zero (0, d) (q.rows t) refl (q.rows-listed 0 d t h))

exists-Quiet :
    {q : Sql} (s : SqliteSession q)
    → Quiet s
    → exists s ≡ (ok (is_some (q.select 0 (s.device))), after s)
exists-Quiet {q} s h =
    ap (λ x. continue x.0 (λ rows. pure (ltb 0 (length (keep (λ row. row.0 == 0) rows)))) x.1)
      (select_all-Quiet device_table s h)
    ∙ ap (λ b. (ok b, after s)) (counted q (s.device) _ refl)

created :
    {q : Sql} {V : Type 0} (json : Json V) (fresh : V) (s : SqliteSession q) (text : String)
    → Quiet s
    → q.select 0 (s.device) ≡ none
    → json.to_string fresh ≡ ok text
    → create json fresh s
      ≡ (ok 0, record (after (after s)) { device = q.replace 0 text (s.device) })
created {q} json fresh s text h absent out =
    ap
      (λ (x : Result StoreError Bool × SqliteSession q).
        if is_ok_and x.0
        then (ok 0, x.1)
        else (continue {B = ℕ} (map_err serialization (json.to_string fresh))
            (λ t. insert_device t >> pure 0) x.1))
      (exists-Quiet s h ∙ ap (λ o. (ok (is_some o), after s)) absent)
    ∙ ap
        (λ r. continue {B = ℕ} (map_err serialization r) (λ t. insert_device t >> pure 0) (after s))
        out
    ∙ ap (λ x. continue {B = ℕ} x.0 (λ u. pure 0) x.1)
        (statement-Quiet (λ u t. insert_new 0 text (q.select 0 (t.device)) t) (after s)
            (rest_succeed _ h)
          ∙ ap (λ o. insert_new 0 text o (after (after s))) absent)

load-Quiet :
    {q : Sql} {V : Type 0} (json : Json V) (s : SqliteSession q)
    → Quiet s
    → (load json s).0 ≡ parsed json (q.select 0 (s.device))
load-Quiet json s h =
    ap (λ x. (continue x.0 (λ row. lift (parsed json row)) x.1).0)
      (select_row-Quiet device_table s h 0)

pub parsed_back :
    {V : Type 0} (json : Json V) (fresh : V) (text : String)
    → json.from_str text ≡ ok fresh
    → parsed json (some text) ≡ ok (some fresh)
parsed_back json fresh text back = rw (back, parsed) refl

-- While the statements succeed, no device is stored, and the JSON of the new device reads back as
-- the device: it exists after `create`, and `load` gives it.
pub create-loads :
    {q : Sql} {V : Type 0} (json : Json V) (fresh : V) (s : SqliteSession q) (text : String)
    → Quiet s
    → q.select 0 (s.device) ≡ none
    → json.to_string fresh ≡ ok text
    → json.from_str text ≡ ok fresh
    → ((exists (create json fresh s).1).0 ≡ ok true)
      × ((load json (create json fresh s).1).0 ≡ ok (some fresh))
create-loads {q} json fresh s text h absent out back =
    let made = created json fresh s text h absent out in
    let h2 = rest_succeed _ (rest_succeed _ h) in
    let here =
      q.select-replace 0 0 text (s.device)
      ∙ if_true (some text) (q.select 0 (s.device)) (==_refl {A = ℕ} 0) in
    (
      ap (λ x. (exists x.1).0) made
          ∙ ap (λ x. x.0) (exists-Quiet _ h2)
          ∙ ap (λ o. ok (is_some o)) here,
      ap (λ x. (load json x.1).0) made
          ∙ load-Quiet json _ h2
          ∙ ap (parsed json) here
          ∙ parsed_back json fresh text back,
    )
