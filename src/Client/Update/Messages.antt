-- ===== src/Client/Update/Messages.antt =====
-- waepic-client/src/update.rs: what the updates on messages, receipts, presence and history sync carry.
use waepic.Prelude.{ℕ, List, Option, Bool, String, nat_eq}
use waepic.Client.Chat.{Chat}

pub record MessageDeletion (J : Type 0) : Type 0 where
  pub chat : Chat J
  pub message_ids : List String

pub record Receipt (J R : Type 0) : Type 0 where
  pub chat : Chat J
  pub message_ids : List String
  pub receipt_type : R
  pub timestamp : ℕ

pub record Presence (J : Type 0) : Type 0 where
  pub chat : Chat J
  pub available : Bool
  pub last_seen : Option ℕ

pub data ChatPresenceState : Type 0 where
  composing paused : ChatPresenceState

pub record ChatPresence (J : Type 0) : Type 0 where
  pub chat : Chat J
  pub sender : Chat J
  pub state : ChatPresenceState

pub record SyncedConversation (J M : Type 0) : Type 0 where
  pub jid : J
  pub name : Option String
  pub messages : List M
  pub pinned : Bool
  pub archived : Bool
  pub muted : Bool
  pub unread_count : ℕ

pub record HistorySyncChunk (J M H : Type 0) : Type 0 where
  pub conversations : List (SyncedConversation J M)
  pub progress : Option ℕ
  pub sync_type : Option H

pub data UnavailableType : Type 0 where
  unknown view_once hosted bot : UnavailableType

pub data DecryptFailMode : Type 0 where
  show hide : DecryptFailMode

pub record UndecryptableMessage (J : Type 0) : Type 0 where
  pub sender : Option J
  pub chat : Option J
  pub is_unavailable : Bool
  pub unavailable_type : UnavailableType
  pub decrypt_fail_mode : DecryptFailMode
