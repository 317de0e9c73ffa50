-- ===== src/Session/AppSync.antt =====
-- waepic-session/src/sqlite/app_sync_store.rs.
pub mod Batches
pub mod Versions
use waepic.Prelude.{
  ℕ, zero, suc, List, [], ◌∷◌, ◌++◌, Option, none, some, Bool, String, ◌&&◌, ◌==◌, nat_eq, text_eq,
  list_eq, pair_eq, length, if◌then◌else◌,
}
use waepic.Prelude.Outcome.{Result, ok, err, Exec, pure, lift, map_err, for_each, ◌>>=◌, ◌>>◌}
use waepic.Connection.Ports.{Bytes}
use waepic.Session.Sql.{Sql}
use waepic.Session.Schema.{
  StoreError, serialization, SyncKey, VersionRow, SqliteSession, Column, statement,
  insert_or_replace, select_row, select_all, delete_rows,
}

-- `serde_json` on one type; the texts of its errors are its own.
pub record Json (A : Type 0) : Type 0 where
  pub to_string : A → Result String String
  pub from_str : String → Result String A

-- `wacore::appstate::hash::HashState` over the type of its map, and the defaults of both.
pub record HashState (M : Type 0) : Type 0 where
  pub version : ℕ
  pub hash : Bytes
  pub index_value_map : M

pub record Defaults (M : Type 0) : Type 0 where
  pub state : HashState M
  pub index_map : M

pub record MutationMac : Type 0 where
  pub index_mac : Bytes
  pub value_mac : Bytes

abbrev pub zeros : ℕ → Bytes
zeros zero = []
zeros (suc n) = 0 ∷ zeros n

-- `hash.and_then(|h| h.try_into().ok()).unwrap_or([0u8; 128])`
abbrev pub hash_array : Option Bytes → Bytes
hash_array none = zeros 128
hash_array (some h) = if length h == 128 then h else zeros 128

module _ {M : Type 0} (json : Json M) (defaults : Defaults M) where
  abbrev pub map_of : Result String M → M
  map_of (ok m) = m
  map_of (err e) = defaults.index_map

  -- `ivm.and_then(|s| serde_json::from_str(&s).ok()).unwrap_or_default()`
  abbrev pub index_map_of : Option String → M
  index_map_of none = defaults.index_map
  index_map_of (some text) = map_of (json.from_str text)

  abbrev pub state_of : Option VersionRow → HashState M
  state_of none = defaults.state
  state_of (some row) = record {
    version = row.version;
    hash = hash_array row.hash;
    index_value_map = index_map_of row.index_value_map;
  }

abbrev pub version_row : {M : Type 0} → HashState M → String → VersionRow
version_row state ivm = record {
  version = state.version;
  hash = some (state.hash);
  index_value_map = some ivm;
}

abbrev pub key_of : {K R : Type 0} → List (K × R) → List K
key_of [] = []
key_of ((k, r) ∷ rows) = k ∷ key_of rows

module _ {q : Sql} where
  abbrev pub sync_keys_table : Column q Bytes SyncKey
  sync_keys_table = record { view = λ s. s.sync_keys; put = λ t s. record s { sync_keys = t } }

  abbrev pub app_versions_table : Column q String VersionRow
  app_versions_table = record {
    view = λ s. s.app_versions;
    put = λ t s. record s { app_versions = t };
  }

  abbrev pub mutation_macs_table : Column q (String × Bytes) Bytes
  mutation_macs_table = record {
    view = λ s. s.mutation_macs;
    put = λ t s. record s { mutation_macs = t };
  }

  abbrev pub get_sync_key : Bytes → Exec (SqliteSession q) StoreError (Option SyncKey)
  get_sync_key key_id = select_row sync_keys_table key_id

  abbrev pub set_sync_key : Bytes → SyncKey → Exec (SqliteSession q) StoreError (Unit {0})
  set_sync_key key_id key = insert_or_replace sync_keys_table key_id key

  module _ {M : Type 0} (json : Json M) (defaults : Defaults M) where
    abbrev pub get_version : String → Exec (SqliteSession q) StoreError (HashState M)
    get_version name =
        select_row app_versions_table name >>= λ row. pure (state_of json defaults row)

  -- The map is turned into text before the first statement.
  abbrev pub set_version :
      {M : Type 0} → Json M → String → HashState M → Exec (SqliteSession q) StoreError (Unit {0})
  set_version json name state =
      lift (map_err serialization (json.to_string (state.index_value_map))) >>= λ ivm.
      insert_or_replace app_versions_table name (version_row state ivm)

  abbrev pub put_mutation_mac : String → MutationMac → Exec (SqliteSession q) StoreError (Unit {0})
  put_mutation_mac name m = insert_or_replace mutation_macs_table (name, m.index_mac) (m.value_mac)

  abbrev pub put_mutation_macs :
      String → ℕ → List MutationMac → Exec (SqliteSession q) StoreError (Unit {0})
  put_mutation_macs name version mutations = statement >> for_each (put_mutation_mac name) mutations

  abbrev pub get_mutation_mac : String → Bytes → Exec (SqliteSession q) StoreError (Option Bytes)
  get_mutation_mac name index_mac = select_row mutation_macs_table (name, index_mac)

  abbrev pub delete_mutation_mac : String → Bytes → Exec (SqliteSession q) StoreError (Unit {0})
  delete_mutation_mac name mac =
      delete_rows mutation_macs_table (λ k r. k == (name, mac)) >> pure tt

  abbrev pub delete_mutation_macs :
      String → List Bytes → Exec (SqliteSession q) StoreError (Unit {0})
  delete_mutation_macs name index_macs = statement >> for_each (delete_mutation_mac name) index_macs

  abbrev pub clear_mutation_macs : String → Exec (SqliteSession q) StoreError (Unit {0})
  clear_mutation_macs name = delete_rows mutation_macs_table (λ k r. k.0 == name) >> pure tt

  -- `SELECT key_id FROM sync_keys ORDER BY rowid DESC LIMIT 1`
  abbrev pub get_latest_sync_key_id : Exec (SqliteSession q) StoreError (Option Bytes)
  get_latest_sync_key_id = statement >> λ s. (ok (q.newest (s.sync_keys)), s)
