-- ===== src/Session/Sent.antt =====
-- The sent messages of waepic-session/src/sqlite/protocol_store.rs, and
-- waepic-session/src/sqlite/msg_secret_store.rs.
pub mod Once
use waepic.Prelude.{
  ℕ, suc, List, [], ◌∷◌, ◌^◌, ◌-◌, min, Option, none, some, Bool, String, ◌&&◌, HasEq, ◌==◌,
  text_eq, pair_eq, length, ℤ, pos, below,
}
use waepic.Prelude.Outcome.{Result, ok, err, Exec, pure, ◌>>=◌, ◌>>◌}
use waepic.Connection.Ports.{Bytes}
use waepic.Session.Sql.{Sql}
use waepic.Session.Schema.{
  StoreError, SentRow, SecretRow, SqliteSession, Column, statement, row_count, insert_or_replace,
  select_row, delete_rows,
}

-- The seconds since the epoch; `none` is a clock that stands before it.
abbrev pub timestamp_of : Option ℕ → ℤ
timestamp_of none = pos 0
timestamp_of (some seconds) = pos (min seconds (2 ^ 63 - 1))

abbrev pub payload_of : Option SentRow → Option Bytes
payload_of none = none
payload_of (some r) = some (r.payload)

abbrev pub secret_of : Option SecretRow → Option Bytes
secret_of none = none
secret_of (some r) = some (r.secret)

abbrev pub secret_with_ts : Option SecretRow → Option (Bytes × ℤ)
secret_with_ts none = none
secret_with_ts (some r) = some (r.secret, r.message_ts)

pub record MsgSecretEntry : Type 0 where
  pub chat : String
  pub sender : String
  pub msg_id : String
  pub entry : SecretRow

instance abbrev pub message_key : HasEq (String × (String × String))
message_key = pair_eq {A = String} {B = String × String}

module _ {q : Sql} where
  abbrev pub sent_messages_table : Column q (String × String) SentRow
  sent_messages_table = record {
    view = λ s. s.sent_messages;
    put = λ t s. record s { sent_messages = t };
  }

  abbrev pub msg_secrets_table : Column q (String × (String × String)) SecretRow
  msg_secrets_table = record {
    view = λ s. s.msg_secrets;
    put = λ t s. record s { msg_secrets = t };
  }

  -- `now` is what the clock shows.
  abbrev pub store_sent_message :
      Option ℕ → String → String → Bytes → Exec (SqliteSession q) StoreError (Unit {0})
  store_sent_message now chat_jid message_id message =
      insert_or_replace sent_messages_table (chat_jid, message_id)
        (record { payload = message; created_at = timestamp_of now })

  -- `DELETE … RETURNING payload`, one statement.
  abbrev pub take_sent_message : String → String → Exec (SqliteSession q) StoreError (Option Bytes)
  take_sent_message chat_jid message_id = statement >> λ s. (
    ok (payload_of (q.select (chat_jid, message_id) (s.sent_messages))),
    record s { sent_messages = q.delete (λ k r. k == (chat_jid, message_id)) (s.sent_messages) },
  )

  abbrev pub delete_expired_sent_messages : ℤ → Exec (SqliteSession q) StoreError ℕ
  delete_expired_sent_messages cutoff_timestamp =
      delete_rows sent_messages_table (λ k r. below (r.created_at) cutoff_timestamp) >>= λ rows.
      pure (row_count rows)

  abbrev pub put_secrets : ℕ → List MsgSecretEntry → Exec (SqliteSession q) StoreError ℕ
  put_secrets count [] = pure count
  put_secrets count (e ∷ es) =
      insert_or_replace msg_secrets_table (e.chat, (e.sender, e.msg_id)) (e.entry)
      >> put_secrets (suc count) es

  abbrev pub put_msg_secrets : List MsgSecretEntry → Exec (SqliteSession q) StoreError ℕ
  put_msg_secrets entries = statement >> put_secrets 0 entries

  abbrev pub get_msg_secret :
      String → String → String → Exec (SqliteSession q) StoreError (Option Bytes)
  get_msg_secret chat sender msg_id =
      select_row msg_secrets_table (chat, (sender, msg_id)) >>= λ row. pure (secret_of row)

  abbrev pub get_msg_secret_with_ts :
      String → String → String → Exec (SqliteSession q) StoreError (Option (Bytes × ℤ))
  get_msg_secret_with_ts chat sender msg_id =
      select_row msg_secrets_table (chat, (sender, msg_id)) >>= λ row. pure (secret_with_ts row)

  abbrev pub delete_expired_msg_secrets : ℤ → Exec (SqliteSession q) StoreError ℕ
  delete_expired_msg_secrets cutoff_timestamp =
      delete_rows msg_secrets_table (λ k r. below (r.expires_at) cutoff_timestamp) >>= λ rows.
      pure (row_count rows)
