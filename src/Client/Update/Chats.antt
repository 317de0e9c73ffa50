-- ===== src/Client/Update/Chats.antt =====
-- waepic-client/src/update.rs: what the updates on chats, labels and newsletters carry.
use waepic.Prelude.{ℕ, List, Option, Bool, String, nat_eq}

pub record ChatFlagUpdate (J : Type 0) : Type 0 where
  pub jid : J
  pub timestamp : ℕ
  pub on : Bool
  pub from_full_sync : Bool

pub record StarUpdate (J : Type 0) : Type 0 where
  pub chat_jid : J
  pub participant_jid : Option J
  pub message_id : String
  pub from_me : Bool
  pub timestamp : ℕ
  pub starred : Bool
  pub from_full_sync : Bool

pub record DeleteChatUpdate (J : Type 0) : Type 0 where
  pub jid : J
  pub timestamp : ℕ
  pub delete_media : Bool
  pub from_full_sync : Bool

pub record ClearChatUpdate (J : Type 0) : Type 0 where
  pub jid : J
  pub timestamp : ℕ
  pub delete_starred : Bool
  pub delete_media : Bool
  pub from_full_sync : Bool

pub record UserStatusMuteUpdate (J : Type 0) : Type 0 where
  pub jid : J
  pub muted : Bool
  pub timestamp : ℕ
  pub from_full_sync : Bool

pub record DeleteMessageForMeUpdate (J : Type 0) : Type 0 where
  pub chat_jid : J
  pub participant_jid : Option J
  pub message_id : String
  pub from_me : Bool
  pub timestamp : ℕ
  pub from_full_sync : Bool

pub record LabelEditUpdate : Type 0 where
  pub label_id : String
  pub timestamp : ℕ
  pub deleted : Bool
  pub from_full_sync : Bool

pub record LabelAssociationUpdate (J : Type 0) : Type 0 where
  pub label_id : String
  pub chat_jid : J
  pub timestamp : ℕ
  pub labeled : Bool
  pub from_full_sync : Bool

pub record NewsletterLiveUpdateReaction : Type 0 where
  pub code : String
  pub count : ℕ

pub record NewsletterLiveUpdateMessage : Type 0 where
  pub server_id : ℕ
  pub reactions : List NewsletterLiveUpdateReaction

pub record NewsletterLiveUpdate (J : Type 0) : Type 0 where
  pub newsletter_jid : J
  pub messages : List NewsletterLiveUpdateMessage
