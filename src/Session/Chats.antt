-- ===== src/Session/Chats.antt =====
-- waepic-session/src/sqlite/session.rs: the cache of chats and contacts.
use waepic.Prelude.{List, map, keep, length, ltb, Option, none, some, Bool, String, ◌==◌, text_eq}
use waepic.Prelude.Outcome.{Exec, pure, ◌>>=◌, ◌>>◌}
use waepic.Session.Sql.{Sql}
use waepic.Session.Schema.{
  StoreError, ChatRow, SqliteSession, Column, insert_or_replace, select_row, select_all,
  delete_rows,
}

-- `Jid` of another crate: its text, and `parse().unwrap_or_default()`.
pub record JidText (J : Type 0) : Type 0 where
  pub to_string : J → String
  pub parse_or_default : String → J

pub record ChatEntry (J : Type 0) : Type 0 where
  pub jid : J
  pub name : Option String
  pub kind : String

module _ {J : Type 0} (jids : JidText J) where
  abbrev pub entry_of : String → ChatRow → ChatEntry J
  entry_of text row = record { jid = jids.parse_or_default text; name = row.name; kind = row.kind }

  abbrev pub found_chat : String → Option ChatRow → Option (ChatEntry J)
  found_chat text none = none
  found_chat text (some row) = some (entry_of text row)

module _ {q : Sql} where
  abbrev pub chats_table : Column q String ChatRow
  chats_table = record { view = λ s. s.chats; put = λ t s. record s { chats = t } }

  abbrev pub contacts_table : Column q String (Unit {0})
  contacts_table = record { view = λ s. s.contacts; put = λ t s. record s { contacts = t } }

  module _ {J : Type 0} (jids : JidText J) where
    abbrev pub get_chat : J → Exec (SqliteSession q) StoreError (Option (ChatEntry J))
    get_chat jid = select_row chats_table (jids.to_string jid) >>= λ row.
        pure (found_chat jids (jids.to_string jid) row)

    abbrev pub cache_chat : ChatEntry J → Exec (SqliteSession q) StoreError (Unit {0})
    cache_chat chat =
        insert_or_replace chats_table (jids.to_string (chat.jid))
          (record { name = chat.name; kind = chat.kind })

    abbrev pub get_chats : Exec (SqliteSession q) StoreError (List (ChatEntry J))
    get_chats =
        select_all chats_table >>= λ rows. pure (map (λ row. entry_of jids row.0 row.1) rows)

    abbrev pub remove_chat : J → Exec (SqliteSession q) StoreError (Unit {0})
    remove_chat jid = delete_rows chats_table (λ k r. k == jids.to_string jid) >> pure tt

    abbrev pub is_contact : J → Exec (SqliteSession q) StoreError Bool
    is_contact jid = select_all contacts_table >>= λ rows.
        pure (ltb 0 (length (keep (λ row. row.0 == jids.to_string jid) rows)))
