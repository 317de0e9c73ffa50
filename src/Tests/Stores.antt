-- ===== src/Tests/Stores.antt =====
-- The stores on a session whose tables are logs.
use waepic.Prelude.{
  ℕ, ◌≤◌, ◌^◌, ◌-◌, min, List, [], ◌∷◌, ◌++◌, Option, none, some, true, false, String, ◌==◌, nat_eq,
  text_eq, list_eq, pair_eq, ◌≡◌, ◌↔◌, refl, ◌⊎◌, any, ℤ, pos, negsuc, keep, length, if◌then◌else◌,
}
use waepic.Prelude.Outcome.{ok, err}
use waepic.Connection.Ports.{Bytes}
use waepic.Session.Sql.Log.{log}
use waepic.Session.Schema.{SqliteSession, PrekeyRow, TcToken, database}
use waepic.Session.Signal.{store_prekey, get_max_prekey_id, mark_prekeys_uploaded}
use waepic.Session.Signal.Prekeys.{get_max_prekey_id-bound, mark_prekeys_uploaded-Marks, set_if}
use waepic.Session.AppSync.{
  Json, Defaults, HashState, MutationMac, zeros, put_mutation_macs, get_version, set_version,
}
use waepic.Session.AppSync.Batches.{put_mutation_macs-Writes, mac_after}
use waepic.Session.AppSync.Versions.{get_version-set_version}
use waepic.Session.Protocol.{put_tc_token, delete_expired_tc_tokens, expired_token, put_lid_mapping}
use waepic.Session.Protocol.Expiry.{delete_expired_tc_tokens-Current, Current}
use waepic.Session.Sent.{store_sent_message, take_sent_message}
use waepic.Session.Sent.Once.{take_sent_message-once}
use waepic.Session.Device.{create, exists, load}
use waepic.Session.Device.Kept.{create-keeps}
use waepic.Session.Device.Created.{create-loads}

abbrev pub empty_session : SqliteSession log
empty_session = record {
  identities = [];
  signal_sessions = [];
  prekeys = [];
  signed_prekeys = [];
  sender_keys = [];
  sync_keys = [];
  app_versions = [];
  mutation_macs = [];
  sender_key_devices = [];
  lid_mappings = [];
  base_keys = [];
  device_lists = [];
  tc_tokens = [];
  sent_messages = [];
  msg_secrets = [];
  device = [];
  chats = [];
  contacts = [];
  outcomes = [];
}

abbrev two_prekeys : SqliteSession log
two_prekeys = (store_prekey 4 (1 ∷ []) false (store_prekey 9 (2 ∷ []) false empty_session).1).1

-- The third statement fails.
abbrev failing : SqliteSession log
failing = record two_prekeys { outcomes = none ∷ none ∷ some "disk full" ∷ [] }

max_of_two : (get_max_prekey_id two_prekeys).0 ≡ ok 9
max_of_two = refl

second_mark_fails : (mark_prekeys_uploaded (4 ∷ 9 ∷ []) failing).0 ≡ err (database "disk full")
second_mark_fails = refl

get_max_prekey_id-bound_example :
    (n : ℕ) × ((get_max_prekey_id two_prekeys).0 ≡ ok n)
    × ((k : ℕ) (r : PrekeyRow) → log.select k (two_prekeys.prekeys) ≡ some r → k ≤ n)
    × ((n ≡ 0) ⊎ ((r : PrekeyRow) × (log.select n (two_prekeys.prekeys) ≡ some r)))
get_max_prekey_id-bound_example = get_max_prekey_id-bound two_prekeys tt

mark_prekeys_uploaded-Marks_example :
    (done : List ℕ) × (rest : List ℕ) × (4 ∷ 9 ∷ [] ≡ done ++ rest)
    × ((k : ℕ)
        → log.select k ((mark_prekeys_uploaded (4 ∷ 9 ∷ []) failing).1.prekeys)
          ≡ set_if (any (λ id. id == k) done) (log.select k (failing.prekeys)))
    × ((mark_prekeys_uploaded (4 ∷ 9 ∷ []) failing).0 ≡ ok tt → rest ≡ [])
mark_prekeys_uploaded-Marks_example = mark_prekeys_uploaded-Marks failing (4 ∷ 9 ∷ [])

abbrev macs : List MutationMac
macs =
    record { index_mac = 1 ∷ []; value_mac = 5 ∷ [] }
    ∷ record { index_mac = 1 ∷ []; value_mac = 6 ∷ [] }
    ∷ []

put_mutation_macs-Writes_example :
    (done : List MutationMac) × (rest : List MutationMac) × (macs ≡ done ++ rest)
    × ((key : String × Bytes)
        → log.select key ((put_mutation_macs "regular" 3 macs failing).1.mutation_macs)
          ≡ mac_after "regular" key done (log.select key (failing.mutation_macs)))
    × ((put_mutation_macs "regular" 3 macs failing).0 ≡ ok tt → rest ≡ [])
put_mutation_macs-Writes_example = put_mutation_macs-Writes failing "regular" 3 macs

-- Texts as their own JSON.
abbrev quoted : Json String
quoted = record { to_string = λ t. ok t; from_str = λ t. ok t }

abbrev blank : Defaults String
blank = record {
  state = record { version = 0; hash = zeros 128; index_value_map = "{}" };
  index_map = "{}";
}

abbrev third : HashState String
third = record { version = 3; hash = zeros 128; index_value_map = "{1}" }

get_version-set_version_example :
    (get_version quoted blank "regular" (set_version quoted "regular" third empty_session).1).0 ≡ (
      if ◌==◌ {A = String} "regular" "regular"
      then ok third
      else (get_version quoted blank "regular" empty_session).0)
get_version-set_version_example =
    get_version-set_version quoted blank empty_session "regular" "regular" third "{1}" tt refl refl
      refl

abbrev token_of : ℕ → Option ℤ → TcToken
token_of t sent = record { token = 1 ∷ []; token_timestamp = pos t; sender_timestamp = sent }

abbrev two_tokens : SqliteSession log
two_tokens =
    (put_tc_token "a" (token_of 5 none)
      (put_tc_token "b" (token_of 20 (some (pos 1))) empty_session).1).1

one_expires : (delete_expired_tc_tokens (pos 10) (pos 0) two_tokens).0 ≡ ok 1
one_expires = refl

delete_expired_tc_tokens-Current_example :
    ((jid : String) (r : TcToken)
      → (log.select jid ((delete_expired_tc_tokens (pos 10) (negsuc 0) two_tokens).1.tc_tokens)
          ≡ some r)
        ↔ ((log.select jid (two_tokens.tc_tokens) ≡ some r) × Current (pos 10) (negsuc 0) r))
    × ((delete_expired_tc_tokens (pos 10) (negsuc 0) two_tokens).0
        ≡ ok (
            min
              (length (
                keep
                  (λ row. expired_token (pos 10) (negsuc 0) row.1)
                  (log.rows (two_tokens.tc_tokens))))
              (2 ^ 32 - 1)))
delete_expired_tc_tokens-Current_example =
    delete_expired_tc_tokens-Current two_tokens (pos 10) (negsuc 0) tt

abbrev mapped : SqliteSession log
mapped =
    (put_lid_mapping
      (record {
        lid = "1@lid";
        phone_number = "551";
        created_at = pos 1;
        updated_at = pos 1;
        learning_source = "usync";
      })
      empty_session).1

abbrev sent_one : SqliteSession log
sent_one = (store_sent_message (some 1) "g" "m1" (7 ∷ []) empty_session).1

take_sent_message-once_example :
    ((take_sent_message "g" "m2" (store_sent_message (some 2) "g" "m2" (8 ∷ []) sent_one).1).0
      ≡ ok (some (8 ∷ [])))
    × ((take_sent_message "g" "m2"
          (take_sent_message "g" "m2"
            (store_sent_message (some 2) "g" "m2" (8 ∷ []) sent_one).1).1).0
        ≡ ok none)
    × ((take_sent_message "g" "m1"
          (take_sent_message "g" "m2"
            (store_sent_message (some 2) "g" "m2" (8 ∷ []) sent_one).1).1).0
        ≡ (take_sent_message "g" "m1" sent_one).0)
take_sent_message-once_example =
    take_sent_message-once sent_one (some 2) "g" "m2" (8 ∷ []) "g" "m1" tt refl

-- The count fails, so `create` goes on to insert, and the table refuses.
abbrev paired : SqliteSession log
paired = record (create quoted "first" empty_session).1 { outcomes = some "busy" ∷ [] }

create_refused :
    (create quoted "second" paired).0 ≡ err (database "UNIQUE constraint failed: device.id")
create_refused = refl

create-keeps_example : (create quoted "second" paired).1.device ≡ paired.device
create-keeps_example = create-keeps quoted "second" paired "first" refl

create-loads_example :
    ((exists (create quoted "first" empty_session).1).0 ≡ ok true)
    × ((load quoted (create quoted "first" empty_session).1).0 ≡ ok (some "first"))
create-loads_example = create-loads quoted "first" empty_session "first" tt refl refl refl
