-- ===== src/Session/Protocol.antt =====
-- waepic-session/src/sqlite/protocol_store.rs: sender keys of groups, the LID mappings, base keys,
-- device lists and the trusted contact tokens. Its sent messages are in Session/Sent.
pub mod Lookups
pub mod Expiry
use waepic.Prelude.{
  ℕ, List, [], ◌∷◌, ◌++◌, map, Option, none, some, Bool, false, String, ◌&&◌, ◌||◌, true, ◌==◌,
  nat_eq, text_eq, list_eq, pair_eq, find, keep, ℤ, below, if◌then◌else◌,
}
use waepic.Prelude.Outcome.{Result, ok, err, Exec, pure, lift, map_err, for_each, ◌>>=◌, ◌>>◌}
use waepic.Connection.Ports.{Bytes}
use waepic.Session.Sql.{Sql}
use waepic.Session.Schema.{
  StoreError, serialization, LidMapping, TcToken, SqliteSession, Column, statement, row_count,
  insert_or_replace, select_row, select_all, delete_rows,
}
use waepic.Session.AppSync.{Json, key_of}

abbrev pub of_group : String → (String × String) × Bool → Bool
of_group group_jid row = row.0.0 == group_jid

abbrev pub device_status : (String × String) × Bool → String × Bool
device_status row = (row.0.1, row.1)

abbrev pub mapping_of : Option (String × LidMapping) → Option LidMapping
mapping_of none = none
mapping_of (some row) = some (row.1)

abbrev pub same_key : Bytes → Option Bytes → Bool
same_key current none = false
same_key current (some key) = key == current

-- `sender_timestamp < ?2`, which is not true of NULL.
abbrev pub sent_before : ℤ → Option ℤ → Bool
sent_before cutoff none = false
sent_before cutoff (some t) = below t cutoff

abbrev pub expired_token : ℤ → ℤ → TcToken → Bool
expired_token token_cutoff sender_cutoff r =
    below (r.token_timestamp) token_cutoff || sent_before sender_cutoff r.sender_timestamp

-- A stored text is parsed, or the error that serde gives is the result.
module _ {D : Type 0} (json : Json D) where
  abbrev pub parsed : Option String → Result StoreError (Option D)
  parsed none = ok none
  parsed (some text) = elim (json.from_str text) [
    | ok entry ↦ ok (some entry)
    | err e ↦ err (serialization e)
  ]

module _ {q : Sql} where
  abbrev pub sender_key_devices_table : Column q (String × String) Bool
  sender_key_devices_table = record {
    view = λ s. s.sender_key_devices;
    put = λ t s. record s { sender_key_devices = t };
  }

  abbrev pub lid_mappings_table : Column q String LidMapping
  lid_mappings_table = record {
    view = λ s. s.lid_mappings;
    put = λ t s. record s { lid_mappings = t };
  }

  abbrev pub base_keys_table : Column q (String × String) Bytes
  base_keys_table = record { view = λ s. s.base_keys; put = λ t s. record s { base_keys = t } }

  abbrev pub device_lists_table : Column q String String
  device_lists_table = record {
    view = λ s. s.device_lists;
    put = λ t s. record s { device_lists = t };
  }

  abbrev pub tc_tokens_table : Column q String TcToken
  tc_tokens_table = record { view = λ s. s.tc_tokens; put = λ t s. record s { tc_tokens = t } }

  abbrev pub get_sender_key_devices :
      String → Exec (SqliteSession q) StoreError (List (String × Bool))
  get_sender_key_devices group_jid = select_all sender_key_devices_table >>= λ rows.
      pure (map device_status (keep (of_group group_jid) rows))

  abbrev pub set_status : String → String × Bool → Exec (SqliteSession q) StoreError (Unit {0})
  set_status group_jid entry =
      insert_or_replace sender_key_devices_table (group_jid, entry.0) (entry.1)

  abbrev pub set_sender_key_status :
      String → List (String × Bool) → Exec (SqliteSession q) StoreError (Unit {0})
  set_sender_key_status group_jid entries = statement >> for_each (set_status group_jid) entries

  abbrev pub clear_sender_key_devices : String → Exec (SqliteSession q) StoreError (Unit {0})
  clear_sender_key_devices group_jid =
      delete_rows sender_key_devices_table (λ k r. k.0 == group_jid) >> pure tt

  abbrev pub clear_all_sender_key_devices : Exec (SqliteSession q) StoreError (Unit {0})
  clear_all_sender_key_devices = delete_rows sender_key_devices_table (λ k r. true) >> pure tt

  abbrev pub delete_device_rows : String → Exec (SqliteSession q) StoreError (Unit {0})
  delete_device_rows jid = delete_rows sender_key_devices_table (λ k r. k.1 == jid) >> pure tt

  abbrev pub delete_sender_key_device_rows :
      List String → Exec (SqliteSession q) StoreError (Unit {0})
  delete_sender_key_device_rows device_jids = statement >> for_each delete_device_rows device_jids

  abbrev pub get_lid_mapping : String → Exec (SqliteSession q) StoreError (Option LidMapping)
  get_lid_mapping lid = select_row lid_mappings_table lid

  abbrev pub get_pn_mapping : String → Exec (SqliteSession q) StoreError (Option LidMapping)
  get_pn_mapping phone = select_all lid_mappings_table >>= λ rows.
      pure (mapping_of (find (λ row. row.1.phone_number == phone) rows))

  abbrev pub put_lid_mapping : LidMapping → Exec (SqliteSession q) StoreError (Unit {0})
  put_lid_mapping entry = insert_or_replace lid_mappings_table (entry.lid) entry

  abbrev pub get_all_lid_mappings : Exec (SqliteSession q) StoreError (List LidMapping)
  get_all_lid_mappings = select_all lid_mappings_table >>= λ rows. pure (map (λ row. row.1) rows)

  abbrev pub save_base_key : String → String → Bytes → Exec (SqliteSession q) StoreError (Unit {0})
  save_base_key address message_id base_key =
      insert_or_replace base_keys_table (address, message_id) base_key

  abbrev pub has_same_base_key : String → String → Bytes → Exec (SqliteSession q) StoreError Bool
  has_same_base_key address message_id current =
      select_row base_keys_table (address, message_id) >>= λ row. pure (same_key current row)

  abbrev pub delete_base_key : String → String → Exec (SqliteSession q) StoreError (Unit {0})
  delete_base_key address message_id =
      delete_rows base_keys_table (λ k r. k.0 == address && k.1 == message_id) >> pure tt

  -- `DeviceListRecord`, of which the store reads the user alone.
  module _ {D : Type 0} (json : Json D) (user_of : D → String) where
    abbrev pub update_device_list : D → Exec (SqliteSession q) StoreError (Unit {0})
    update_device_list entry = lift (map_err serialization (json.to_string entry)) >>= λ text.
        insert_or_replace device_lists_table (user_of entry) text

  module _ {D : Type 0} (json : Json D) where
    abbrev pub get_devices : String → Exec (SqliteSession q) StoreError (Option D)
    get_devices user = select_row device_lists_table user >>= λ row. lift (parsed json row)

  abbrev pub delete_devices : String → Exec (SqliteSession q) StoreError (Unit {0})
  delete_devices user = delete_rows device_lists_table (λ k r. k == user) >> pure tt

  abbrev pub get_tc_token : String → Exec (SqliteSession q) StoreError (Option TcToken)
  get_tc_token jid = select_row tc_tokens_table jid

  abbrev pub put_tc_token : String → TcToken → Exec (SqliteSession q) StoreError (Unit {0})
  put_tc_token jid entry = insert_or_replace tc_tokens_table jid entry

  abbrev pub delete_tc_token : String → Exec (SqliteSession q) StoreError (Unit {0})
  delete_tc_token jid = delete_rows tc_tokens_table (λ k r. k == jid) >> pure tt

  abbrev pub get_all_tc_token_jids : Exec (SqliteSession q) StoreError (List String)
  get_all_tc_token_jids = select_all tc_tokens_table >>= λ rows. pure (key_of rows)

  abbrev pub delete_expired_tc_tokens : ℤ → ℤ → Exec (SqliteSession q) StoreError ℕ
  delete_expired_tc_tokens token_cutoff sender_cutoff =
      delete_rows tc_tokens_table (λ k r. expired_token token_cutoff sender_cutoff r) >>= λ rows.
      pure (row_count rows)
