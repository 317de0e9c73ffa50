-- ===== src/Session/Signal.antt =====
-- waepic-session/src/sqlite/signal_store.rs.
pub mod Prekeys
pub mod Identities
use waepic.Prelude.{
  ℕ, List, [], ◌∷◌, ◌++◌, Option, none, some, Bool, true, String, ◌==◌, nat_eq, text_eq, length,
  if◌then◌else◌, max,
}
use waepic.Prelude.Outcome.{Result, ok, err, Exec, pure, lift, for_each, ◌>>=◌, ◌>>◌}
use waepic.Connection.Ports.{Bytes}
use waepic.Session.Sql.{Sql}
use waepic.Session.Schema.{
  StoreError, validation, PrekeyRow, SqliteSession, Column, statement, insert_or_replace,
  select_row, select_all, delete_rows,
}

-- `key.try_into::<[u8; 32]>()`
abbrev pub identity_key : Option Bytes → Result StoreError (Option Bytes)
identity_key none = ok none
identity_key (some key) =
    if length key == 32 then ok (some key) else err (validation "identity key must be 32 bytes")

-- `MAX(id)`, which is NULL of no row.
abbrev pub larger : ℕ → Option ℕ → Option ℕ
larger id none = some id
larger id (some m) = some (max id m)

abbrev pub max_id : List (ℕ × PrekeyRow) → Option ℕ
max_id [] = none
max_id ((id, r) ∷ rows) = larger id (max_id rows)

abbrev pub or_zero : Option ℕ → ℕ
or_zero none = 0
or_zero (some n) = n

abbrev pub record_of : Option PrekeyRow → Option Bytes
record_of none = none
record_of (some r) = some (r.prekey_record)

-- `UPDATE prekeys SET uploaded = 1 WHERE id = ?1`: no row, no change.
module _ (q : Sql) where
  abbrev pub marked : ℕ → Option PrekeyRow → q.Table ℕ PrekeyRow → q.Table ℕ PrekeyRow
  marked id none t = t
  marked id (some r) t = q.replace id (record r { uploaded = true }) t

module _ {q : Sql} where
  abbrev pub identities_table : Column q String Bytes
  identities_table = record { view = λ s. s.identities; put = λ t s. record s { identities = t } }

  abbrev pub signal_sessions_table : Column q String Bytes
  signal_sessions_table = record {
    view = λ s. s.signal_sessions;
    put = λ t s. record s { signal_sessions = t };
  }

  abbrev pub prekeys_table : Column q ℕ PrekeyRow
  prekeys_table = record { view = λ s. s.prekeys; put = λ t s. record s { prekeys = t } }

  abbrev pub signed_prekeys_table : Column q ℕ Bytes
  signed_prekeys_table = record {
    view = λ s. s.signed_prekeys;
    put = λ t s. record s { signed_prekeys = t };
  }

  abbrev pub sender_keys_table : Column q String Bytes
  sender_keys_table = record {
    view = λ s. s.sender_keys;
    put = λ t s. record s { sender_keys = t };
  }

  abbrev pub put_identity : String → Bytes → Exec (SqliteSession q) StoreError (Unit {0})
  put_identity address key = insert_or_replace identities_table address key

  abbrev pub load_identity : String → Exec (SqliteSession q) StoreError (Option Bytes)
  load_identity address = select_row identities_table address >>= λ row. lift (identity_key row)

  abbrev pub delete_identity : String → Exec (SqliteSession q) StoreError (Unit {0})
  delete_identity address = delete_rows identities_table (λ k r. k == address) >> pure tt

  abbrev pub get_session : String → Exec (SqliteSession q) StoreError (Option Bytes)
  get_session address = select_row signal_sessions_table address

  abbrev pub put_session : String → Bytes → Exec (SqliteSession q) StoreError (Unit {0})
  put_session address session = insert_or_replace signal_sessions_table address session

  abbrev pub delete_session : String → Exec (SqliteSession q) StoreError (Unit {0})
  delete_session address = delete_rows signal_sessions_table (λ k r. k == address) >> pure tt

  abbrev pub store_prekey : ℕ → Bytes → Bool → Exec (SqliteSession q) StoreError (Unit {0})
  store_prekey id data_ uploaded_ =
      insert_or_replace prekeys_table id (record { prekey_record = data_; uploaded = uploaded_ })

  abbrev pub load_prekey : ℕ → Exec (SqliteSession q) StoreError (Option Bytes)
  load_prekey id = select_row prekeys_table id >>= λ row. pure (record_of row)

  abbrev pub remove_prekey : ℕ → Exec (SqliteSession q) StoreError (Unit {0})
  remove_prekey id = delete_rows prekeys_table (λ k r. k == id) >> pure tt

  -- `SELECT MAX(id) FROM prekeys`
  abbrev pub get_max_prekey_id : Exec (SqliteSession q) StoreError ℕ
  get_max_prekey_id = select_all prekeys_table >>= λ rows. pure (or_zero (max_id rows))

  abbrev pub store_signed_prekey : ℕ → Bytes → Exec (SqliteSession q) StoreError (Unit {0})
  store_signed_prekey id data_ = insert_or_replace signed_prekeys_table id data_

  abbrev pub load_signed_prekey : ℕ → Exec (SqliteSession q) StoreError (Option Bytes)
  load_signed_prekey id = select_row signed_prekeys_table id

  abbrev pub load_all_signed_prekeys : Exec (SqliteSession q) StoreError (List (ℕ × Bytes))
  load_all_signed_prekeys = select_all signed_prekeys_table

  abbrev pub remove_signed_prekey : ℕ → Exec (SqliteSession q) StoreError (Unit {0})
  remove_signed_prekey id = delete_rows signed_prekeys_table (λ k r. k == id) >> pure tt

  abbrev pub put_sender_key : String → Bytes → Exec (SqliteSession q) StoreError (Unit {0})
  put_sender_key address data_ = insert_or_replace sender_keys_table address data_

  abbrev pub get_sender_key : String → Exec (SqliteSession q) StoreError (Option Bytes)
  get_sender_key address = select_row sender_keys_table address

  abbrev pub delete_sender_key : String → Exec (SqliteSession q) StoreError (Unit {0})
  delete_sender_key address = delete_rows sender_keys_table (λ k r. k == address) >> pure tt

  -- `UPDATE prekeys SET uploaded = 1 WHERE id = ?1`
  abbrev pub mark_uploaded : ℕ → Exec (SqliteSession q) StoreError (Unit {0})
  mark_uploaded id = statement >> λ s.
      (ok tt, record s { prekeys = marked q id (q.select id (s.prekeys)) (s.prekeys) })

  -- The statement is prepared once, and runs for each id outside a transaction.
  abbrev pub mark_prekeys_uploaded : List ℕ → Exec (SqliteSession q) StoreError (Unit {0})
  mark_prekeys_uploaded ids = statement >> for_each mark_uploaded ids
