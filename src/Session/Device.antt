-- ===== src/Session/Device.antt =====
-- waepic-session/src/sqlite/device_store.rs, and `clear_device` of session.rs.
pub mod Kept
pub mod Created
pub mod Loaded
use waepic.Prelude.{
  ℕ, List, [], ◌∷◌, keep, length, ltb, Option, none, some, Bool, true, false, String, ◌==◌, nat_eq,
  if◌then◌else◌,
}
use waepic.Prelude.Outcome.{Result, ok, err, Exec, pure, raise, lift, map_err, ◌>>=◌, ◌>>◌}
use waepic.Session.Sql.{Sql}
use waepic.Session.Schema.{
  StoreError, database, serialization, SqliteSession, Column, statement, insert_or_replace,
  select_row, select_all, delete_rows,
}
use waepic.Session.AppSync.{Json}
use waepic.Session.Protocol.{parsed}

-- `query.is_ok_and(|c| c > 0)`: a query that fails counts as no device.
abbrev pub is_ok_and : Result StoreError Bool → Bool
is_ok_and (ok b) = b
is_ok_and (err e) = false

module _ {q : Sql} where
  abbrev pub device_table : Column q ℕ String
  device_table = record { view = λ s. s.device; put = λ t s. record s { device = t } }

  -- `INSERT` into a table with a primary key refuses a key that it holds.
  abbrev pub insert_new : ℕ → String → Option String → Exec (SqliteSession q) StoreError (Unit {0})
  insert_new id text none s = (ok tt, record s { device = q.replace id text (s.device) })
  insert_new id text (some old) s = (err (database "UNIQUE constraint failed: device.id"), s)

  abbrev pub insert_device : String → Exec (SqliteSession q) StoreError (Unit {0})
  insert_device text = statement >> λ s. insert_new 0 text (q.select 0 (s.device)) s

  -- `SELECT COUNT(*) FROM device WHERE id = 0`
  abbrev pub exists : Exec (SqliteSession q) StoreError Bool
  exists = select_all device_table >>= λ rows. pure (ltb 0 (length (keep (λ row. row.0 == 0) rows)))

  abbrev pub clear_device : Exec (SqliteSession q) StoreError (Unit {0})
  clear_device = delete_rows device_table (λ k r. true) >> pure tt

  -- `V` is `wacore::store::Device`.
  module _ {V : Type 0} (json : Json V) where
    abbrev pub save : V → Exec (SqliteSession q) StoreError (Unit {0})
    save device_ = lift (map_err serialization (json.to_string device_)) >>= λ text.
        insert_or_replace device_table 0 text

    abbrev pub load : Exec (SqliteSession q) StoreError (Option V)
    load = select_row device_table 0 >>= λ row. lift (parsed json row)

    -- `new_device` is `Device::new()`, with fresh keys.
    abbrev pub create : V → Exec (SqliteSession q) StoreError ℕ
    create new_device s =
        let counted = exists s in
        if is_ok_and counted.0
        then (ok 0, counted.1)
        else (lift (map_err serialization (json.to_string new_device)) >>= λ text.
              insert_device text >> pure 0)
            counted.1
