-- ===== src/Session/Schema.antt =====
-- waepic-session/src/sqlite/mod.rs: the tables of `SqliteSession`, and the statements on them. A
-- statement may fail; what each one gives, in the order they run, stands in `outcomes`, and a
-- failed one changes no table.
pub mod Quiet
pub mod Failing
use waepic.Prelude.{
  ℕ, List, [], ◌∷◌, map, Option, none, some, Bool, String, HasEq, ◌==◌, keep, length, ℤ, min, ◌^◌,
  ◌-◌,
}
use waepic.Prelude.Outcome.{Result, ok, err, Exec, pure, raise, ◌>>=◌, ◌>>◌}
use waepic.Connection.Ports.{Bytes}
use waepic.Session.Sql.{Sql}

-- `wacore::store::error::StoreError`, as far as the stores raise it.
pub data StoreError : Type 0 where
  database : String → StoreError
  validation : String → StoreError
  serialization : String → StoreError

pub record PrekeyRow : Type 0 where
  pub prekey_record : Bytes
  pub uploaded : Bool

pub record SyncKey : Type 0 where
  pub key_data : Bytes
  pub fingerprint : Bytes
  pub timestamp : ℤ

pub record VersionRow : Type 0 where
  pub version : ℕ
  pub hash : Option Bytes
  pub index_value_map : Option String

pub record LidMapping : Type 0 where
  pub lid : String
  pub phone_number : String
  pub created_at : ℤ
  pub updated_at : ℤ
  pub learning_source : String

pub record TcToken : Type 0 where
  pub token : Bytes
  pub token_timestamp : ℤ
  pub sender_timestamp : Option ℤ

pub record SentRow : Type 0 where
  pub payload : Bytes
  pub created_at : ℤ

pub record SecretRow : Type 0 where
  pub secret : Bytes
  pub expires_at : ℤ
  pub message_ts : ℤ

pub record ChatRow : Type 0 where
  pub name : Option String
  pub kind : String

pub record SqliteSession (q : Sql) : Type 0 where
  pub identities : q.Table String Bytes
  pub signal_sessions : q.Table String Bytes
  pub prekeys : q.Table ℕ PrekeyRow
  pub signed_prekeys : q.Table ℕ Bytes
  pub sender_keys : q.Table String Bytes
  pub sync_keys : q.Table Bytes SyncKey
  pub app_versions : q.Table String VersionRow
  pub mutation_macs : q.Table (String × Bytes) Bytes
  pub sender_key_devices : q.Table (String × String) Bool
  pub lid_mappings : q.Table String LidMapping
  pub base_keys : q.Table (String × String) Bytes
  pub device_lists : q.Table String String
  pub tc_tokens : q.Table String TcToken
  pub sent_messages : q.Table (String × String) SentRow
  pub msg_secrets : q.Table (String × (String × String)) SecretRow
  pub device : q.Table ℕ String
  pub chats : q.Table String ChatRow
  pub contacts : q.Table String (Unit {0})
  pub outcomes : List (Option String)

-- One table of a session: how it is read and written.
pub record Column (q : Sql) (K R : Type 0) : Type 0 where
  pub view : SqliteSession q → q.Table K R
  pub put : q.Table K R → SqliteSession q → SqliteSession q

-- What the next statement gives: `some` is the error of rusqlite.
abbrev pub reached : List (Option String) → Option String
reached [] = none
reached (o ∷ os) = o

abbrev pub further : List (Option String) → List (Option String)
further [] = []
further (o ∷ os) = os

-- `.map_err(rusqlite_err)?`
abbrev pub rusqlite_err : Option String → Result StoreError (Unit {0})
rusqlite_err none = ok tt
rusqlite_err (some e) = err (database e)

-- `u32::try_from(rows).unwrap_or(u32::MAX)`
abbrev pub row_count : ℕ → ℕ
row_count n = min n (2 ^ 32 - 1)

module _ {q : Sql} where
  abbrev pub statement : Exec (SqliteSession q) StoreError (Unit {0})
  statement s = (rusqlite_err (reached s.outcomes), record s { outcomes = further s.outcomes })

  module _ {K R : Type 0} ⦃e : HasEq K⦄ (c : Column q K R) where
    -- `INSERT OR REPLACE`
    abbrev pub insert_or_replace : K → R → Exec (SqliteSession q) StoreError (Unit {0})
    insert_or_replace k r = statement >> λ s. (ok tt, c.put (q.replace k r (c.view s)) s)

    -- `SELECT … WHERE key = ?`
    abbrev pub select_row : K → Exec (SqliteSession q) StoreError (Option R)
    select_row k = statement >> λ s. (ok (q.select k (c.view s)), s)

    -- `SELECT …`
    abbrev pub select_all : Exec (SqliteSession q) StoreError (List (K × R))
    select_all = statement >> λ s. (ok (q.rows (c.view s)), s)

    -- `DELETE … WHERE …`, which gives the number of the rows that it removed.
    abbrev pub delete_rows : (K → R → Bool) → Exec (SqliteSession q) StoreError ℕ
    delete_rows p = statement >> λ s. (
      ok (length (keep (λ row. p row.0 row.1) (q.rows (c.view s)))),
      c.put (q.delete p (c.view s)) s,
    )
