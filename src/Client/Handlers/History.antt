-- ===== src/Client/Handlers/History.antt =====
-- The history sync of waepic-client/src/client/handlers.rs. Decompression, the protobuf of waproto
-- and the message that is built of an entry are parameters.
pub mod Synced
use waepic.Prelude.{
  ℕ, List, [], ◌∷◌, Option, none, some, Bool, true, false, ◌&&◌, String, ◌==◌, text_eq, ltb,
  if◌then◌else◌,
}
use waepic.Prelude.Outcome.{Result, ok, err, Exec, ignore}
use waepic.Connection.Ports.{Bytes, Wire}
use waepic.Connection.Frame.{attr_is}
use waepic.Session.Sql.{Sql}
use waepic.Client.Server.{Server}
use waepic.Client.Chat.{Chat, chat}
use waepic.Client.World.{Call, sent, World, Peer, call}
use waepic.Client.Pairing.Nodes.{then_some, or_else, filter_map, child, bytes_of}
use waepic.Client.Update.{Update, history_sync, history_sync_completed}
use waepic.Client.Update.Messages.{SyncedConversation}

-- The parts of `wa::HistorySync` that are read; `W` is `wa::Message`.
pub record HistoryMessage (W : Type 0) : Type 0 where
  pub id : Option String
  pub from_me : Option Bool
  pub participant : Option String
  pub message_timestamp : Option ℕ
  pub message : W

pub record Conversation (W : Type 0) : Type 0 where
  pub id : String
  pub new_jid : Option String
  pub name : Option String
  pub pinned : Option ℕ
  pub archived : Option Bool
  pub mute_end_time : Option ℕ
  pub unread_count : Option ℕ
  pub messages : List (HistoryMessage W)

-- What is set of `MessageInfo`, the time as the number that it is made of.
pub record MessageInfo (J : Type 0) : Type 0 where
  pub id : String
  pub chat : J
  pub sender : J
  pub is_from_me : Bool
  pub timestamp : ℕ

pub record HistoryFormat (J M W : Type 0) : Type 0 where
  pub decompress : Bytes → Result String Bytes
  pub decode : Bytes → Result String (List (Conversation W))
  pub inline_payload : Bytes → Result String (Option Bytes)
  pub parse_jid : String → Option J
  pub server : J → Server
  pub new_message : W → MessageInfo J → Chat J → M
  pub to_non_ad_string : J → String

abbrev pub non_empty_name : Option String → Option String
non_empty_name name = then_some name (λ n. if n == "" then none else some n)

abbrev pub is_positive : Option ℕ → Bool
is_positive none = false
is_positive (some n) = ltb 0 n

module _ {J M W : Type 0} (f : HistoryFormat J M W) where
  -- A message whose sender is no address is skipped.
  abbrev pub message_of : J → String → HistoryMessage W → Option M
  message_of jid text h = then_some (f.parse_jid (or_else h.participant text)) λ sender. some (
      f.new_message h.message
        (record {
          id = or_else h.id "";
          chat = jid;
          sender = sender;
          is_from_me = or_else h.from_me false;
          timestamp = or_else h.message_timestamp 0;
        })
        (chat f.server jid))

  abbrev pub address_text : Conversation W → String
  address_text c = or_else c.new_jid c.id

  abbrev pub synced_as : Conversation W → J → SyncedConversation J M
  synced_as c jid = record {
    jid = jid;
    name = non_empty_name c.name;
    messages = filter_map (message_of jid (address_text c)) c.messages;
    pinned = is_positive c.pinned;
    archived = or_else c.archived false;
    muted = is_positive c.mute_end_time;
    unread_count = or_else c.unread_count 0;
  }

  -- A conversation whose address does not parse is skipped.
  abbrev pub conversation_of : Conversation W → Option (SyncedConversation J M)
  conversation_of c = then_some (f.parse_jid (address_text c)) (λ jid. some (synced_as c jid))

  module _ {R H N : Type 0} where
    abbrev pub chunk_of :
        Option H → Option ℕ → List (SyncedConversation J M) → List (Update J M R H N)
    chunk_of sync_type progress [] = history_sync_completed ∷ []
    chunk_of sync_type progress (c ∷ cs) =
        history_sync (record { conversations = c ∷ cs; progress = progress; sync_type = sync_type })
        ∷ history_sync_completed
        ∷ []

    abbrev pub of_decoded :
        Option H → Option ℕ → Result String (List (Conversation W)) → List (Update J M R H N)
    of_decoded sync_type progress (err e) = []
    of_decoded sync_type progress (ok cs) =
        chunk_of sync_type progress (filter_map conversation_of cs)

    abbrev pub of_decompressed : Option H → Option ℕ → Result String Bytes → List (Update J M R H N)
    of_decompressed sync_type progress (err e) = []
    of_decompressed sync_type progress (ok data_) = of_decoded sync_type progress (f.decode data_)

    abbrev pub process_history_sync_payload : Bytes → Option H → Option ℕ → List (Update J M R H N)
    process_history_sync_payload compressed sync_type progress =
        of_decompressed sync_type progress (f.decompress compressed)

module _ {N K J M W : Type 0} (w : Wire N K) (f : HistoryFormat J M W) where
  abbrev pub payload_in : Result String (Option Bytes) → Option Bytes
  payload_in (ok p) = p
  payload_in (err e) = none

  abbrev pub extract_history_sync_payload : N → Option Bytes
  extract_history_sync_payload n =
      if w.tag n == "notification" && attr_is w n "type" "history_sync_notification"
      then then_some (bytes_of w n) (λ b. payload_in (f.inline_payload b))
      else if w.tag n == "ib"
      then then_some (child w "history_sync" n) (bytes_of w)
      else none

  abbrev pub build_history_sync_receipt_node : String → J → N
  build_history_sync_receipt_node msg_id own_pn =
      w.node "receipt"
        (("id", msg_id) ∷ ("type", "hist_sync") ∷ ("to", f.to_non_ad_string own_pn) ∷ []) none

module _ {q : Sql} {J D N K P M W : Type 0} (w : Wire N K) (f : HistoryFormat J M W)
    (peer : Peer J N P) (auto_history_sync : Bool) where
  abbrev pub acknowledge_history : Option String → Option J → World q J D N → World q J D N
  acknowledge_history (some id) (some own_pn) s =
      if auto_history_sync
      then ignore (call peer (sent (build_history_sync_receipt_node w f id own_pn))) s
      else s
  acknowledge_history id own_pn s = s

  abbrev pub with_payload :
      {R H : Type 0} → N → Option Bytes → World q J D N → List (Update J M R H N) × World q J D N
  with_payload n none s = ([], s)
  with_payload n (some compressed) s = (
    process_history_sync_payload f compressed none none,
    acknowledge_history (w.attr n "id") s.device.pn s,
  )

  abbrev pub handle_history_sync :
      {R H : Type 0} → N → World q J D N → List (Update J M R H N) × World q J D N
  handle_history_sync n s = with_payload n (extract_history_sync_payload w f n) s
