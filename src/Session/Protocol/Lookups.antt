-- ===== src/Session/Protocol/Lookups.antt =====
-- The mapping of a phone number, which is not the key of its table.
use waepic.Prelude.{
  none, some, Bool, String, ◌==◌, text_eq, ◌≡◌, ◌≢◌, ap, ◌∙◌, sym, ◌⊎◌, inl, inr, find, find-either,
}
use mathlib.Core.Bool.{true≢false}
use waepic.Prelude.Outcome.{ok, continue, pure}
use waepic.Session.Sql.{Sql}
use waepic.Session.Schema.{SqliteSession, LidMapping}
use waepic.Session.Schema.Quiet.{Quiet, select_all-Quiet}
use waepic.Session.Protocol.{get_pn_mapping, lid_mappings_table, mapping_of}

-- While the statement succeeds, the result is a stored mapping with the phone number, or nothing
-- if no stored mapping has it.
pub get_pn_mapping-Finds :
    {q : Sql} (s : SqliteSession q) (phone : String)
    → Quiet s
    → ((m : LidMapping) × ((get_pn_mapping phone s).0 ≡ ok (some m))
        × (m.phone_number ≡ phone)
        × ((lid : String) × (q.select lid (s.lid_mappings) ≡ some m)))
      ⊎ (((get_pn_mapping phone s).0 ≡ ok none)
          × ((lid : String) (m : LidMapping)
              → q.select lid (s.lid_mappings) ≡ some m
              → m.phone_number ≢ phone))
get_pn_mapping-Finds {q} s phone h =
    let rows = q.rows (s.lid_mappings) in
    let test : String × LidMapping → Bool = λ row. row.1.phone_number == phone in
    let ran : (get_pn_mapping phone s).0 ≡ ok (mapping_of (find test rows)) =
      ap (λ x. (continue x.0 (λ found. pure (mapping_of (find test found))) x.1).0)
        (select_all-Quiet lid_mappings_table s h) in
    elim (find-either test rows) [
      | inl (row, found, held, there) ↦ inl (
        row.1,
        ran ∙ ap (λ o. ok (mapping_of o)) found,
        (text_eq.beq_iff (row.1.phone_number) phone).0 held,
        (row.0, q.rows-selected row.0 row.1 (s.lid_mappings) there),
      )
      | inr (absent, others) ↦ inr (
        ran ∙ ap (λ o. ok (mapping_of o)) absent,
        λ lid m stored same. true≢false (
            sym ((text_eq.beq_iff (m.phone_number) phone).1 same)
            ∙ others (lid, m) (q.rows-listed lid m (s.lid_mappings) stored)),
      )
    ]
