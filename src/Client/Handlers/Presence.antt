-- ===== src/Client/Handlers/Presence.antt =====
-- `handle_receipt`, `handle_presence` and `handle_chatstate` of waepic-client/src/client/handlers.rs.
use waepic.Prelude.{
  ℕ, List, [], ◌∷◌, Option, none, some, Bool, true, not, String, ◌==◌, text_eq, keep,
}
use waepic.Connection.Ports.{Wire}
use waepic.Client.Chat.{chat}
use waepic.Client.Server.{Server}
use waepic.Client.Pairing.Nodes.{then_some, or_else, filter_map, child}
use waepic.Client.Update.{Update, receipt, presence, chat_presence}
use waepic.Client.Update.Messages.{ChatPresenceState, composing, paused}
use waepic.Client.Handlers.Numbers.{parse_u64}

-- `NodeValue::to_jid` of an attribute, `Node::content_as_string`, and `ReceiptType`, which are of
-- other crates.
pub record Stanzas (N J R : Type 0) : Type 0 where
  pub jid_attr : N → String → Option J
  pub content_as_string : N → Option String
  pub parse_receipt_type : String → R
  pub delivered : R
  pub server : J → Server

module _ {N K J R : Type 0} (w : Wire N K) (st : Stanzas N J R) where
  abbrev pub u64_attr : String → ℕ → N → ℕ
  u64_attr key d n = or_else (then_some (w.attr n key) parse_u64) d

  abbrev pub receipt_type_of : Option String → R
  receipt_type_of none = st.delivered
  receipt_type_of (some s) = st.parse_receipt_type s

  abbrev pub item_ids : Option (List N) → List String
  item_ids none = []
  item_ids (some cs) = filter_map (λ c. w.attr c "id") (keep (λ c. w.tag c == "item") cs)

  abbrev pub single : Option String → List String
  single none = []
  single (some id) = id ∷ []

  abbrev pub ids_in : Option N → N → List String
  ids_in none n = single (w.attr n "id")
  ids_in (some list) n = item_ids (w.children list)

  abbrev pub message_ids_of : N → List String
  message_ids_of n = ids_in (child w "list" n) n

  abbrev pub handle_receipt : {M H : Type 0} → N → Option (Update J M R H N)
  handle_receipt n = then_some (st.jid_attr n "from") λ from. some (
      receipt (record {
        chat = chat st.server from;
        message_ids = message_ids_of n;
        receipt_type = receipt_type_of (w.attr n "type");
        timestamp = u64_attr "t" 0 n;
      }))

  abbrev pub is_available : Option String → Bool
  is_available none = true
  is_available (some kind) = not (kind == "unavailable")

  abbrev pub handle_presence : {M H : Type 0} → N → Option (Update J M R H N)
  handle_presence n = then_some (st.jid_attr n "from") λ from. some (
      presence (record {
        chat = chat st.server from;
        available = is_available (w.attr n "type");
        last_seen = then_some (w.attr n "last") parse_u64;
      }))

  abbrev pub state_in : Option N → Option N → Option ChatPresenceState
  state_in (some c) p = some composing
  state_in none (some p) = some paused
  state_in none none = none

  abbrev pub handle_chatstate : {M H : Type 0} → N → Option (Update J M R H N)
  handle_chatstate n = then_some (st.jid_attr n "from") λ from.
      then_some (state_in (child w "composing" n) (child w "paused" n)) λ state. some (
        chat_presence (record {
          chat = chat st.server from;
          sender = chat st.server (or_else (st.jid_attr n "participant") from);
          state = state;
        }))
