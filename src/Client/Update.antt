-- ===== src/Client/Update.antt =====
-- waepic-client/src/update.rs: `Update`. `Message`, `ReceiptType`, `HistorySyncType` and `Node`
-- are the parameters M, R, H and N.
pub mod Messages
pub mod Contacts
pub mod Chats
pub mod Session
use waepic.Prelude.{ℕ, ℤ, pos, negsuc, List, Option, Bool, true, false, String, ◌||◌, ◌==◌, nat_eq}
use waepic.Client.Chat.{Chat}
use waepic.Client.Update.Messages.{
  MessageDeletion, Receipt, Presence, ChatPresenceState, ChatPresence, SyncedConversation,
  HistorySyncChunk, UnavailableType, DecryptFailMode, UndecryptableMessage,
}
use waepic.Client.Update.Contacts.{
  ContactUpdate, GroupUpdate, PictureUpdate, UserAboutUpdate, ContactUpdated, ContactNumberChanged,
  ContactSyncRequested, PushNameUpdate, SelfPushNameUpdated, IdentityChange, BusinessUpdateType,
  BusinessStatusUpdate, DisappearingModeChanged,
}
use waepic.Client.Update.Chats.{
  ChatFlagUpdate, StarUpdate, DeleteChatUpdate, ClearChatUpdate, UserStatusMuteUpdate,
  DeleteMessageForMeUpdate, LabelEditUpdate, LabelAssociationUpdate, NewsletterLiveUpdateReaction,
  NewsletterLiveUpdateMessage, NewsletterLiveUpdate,
}
use waepic.Client.Update.Session.{
  PairError, DeviceListUpdateType, DeviceNotificationInfo, DeviceListUpdate, TemporaryBan,
  ConnectFailureReason, ConnectFailure, StreamError, MexNotification, PairPasskeyRequest,
  PairPasskeyConfirmation, PairPasskeyError,
}

pub data Update (J M R H N : Type 0) : Type 0 where
  new_message : M → Update J M R H N
  message_edited : M → Update J M R H N
  message_deleted : MessageDeletion J → Update J M R H N
  receipt : Receipt J R → Update J M R H N
  presence : Presence J → Update J M R H N
  chat_presence : ChatPresence J → Update J M R H N
  connected disconnected logged_out : Update J M R H N
  history_sync : HistorySyncChunk J M H → Update J M R H N
  contact_update : ContactUpdate J → Update J M R H N
  group_update : GroupUpdate J → Update J M R H N
  pairing_qr_code : String → ℕ → Update J M R H N
  pairing_code : String → ℕ → Update J M R H N
  pair_success history_sync_completed : Update J M R H N
  offline_sync_preview : ℕ → Update J M R H N
  offline_sync_completed : ℕ → Update J M R H N
  pair_error : PairError J → Update J M R H N
  pairing_code_refresh : Bool → Update J M R H N
  qr_scanned_without_multidevice client_outdated : Update J M R H N
  undecryptable_message : UndecryptableMessage J → Update J M R H N
  picture_update : PictureUpdate J → Update J M R H N
  user_about_update : UserAboutUpdate J → Update J M R H N
  contact_updated : ContactUpdated J → Update J M R H N
  contact_number_changed : ContactNumberChanged J → Update J M R H N
  contact_sync_requested : ContactSyncRequested → Update J M R H N
  push_name_update : PushNameUpdate J → Update J M R H N
  self_push_name_updated : SelfPushNameUpdated → Update J M R H N
  pin_update : ChatFlagUpdate J → Update J M R H N
  mute_update : ChatFlagUpdate J → Update J M R H N
  archive_update : ChatFlagUpdate J → Update J M R H N
  star_update : StarUpdate J → Update J M R H N
  mark_chat_as_read_update : ChatFlagUpdate J → Update J M R H N
  delete_chat_update : DeleteChatUpdate J → Update J M R H N
  clear_chat_update : ClearChatUpdate J → Update J M R H N
  user_status_mute_update : UserStatusMuteUpdate J → Update J M R H N
  delete_message_for_me_update : DeleteMessageForMeUpdate J → Update J M R H N
  label_edit_update : LabelEditUpdate → Update J M R H N
  label_association_update : LabelAssociationUpdate J → Update J M R H N
  device_list_update : DeviceListUpdate J → Update J M R H N
  identity_change : IdentityChange J → Update J M R H N
  business_status_update : BusinessStatusUpdate J → Update J M R H N
  stream_replaced : Update J M R H N
  temporary_ban : TemporaryBan → Update J M R H N
  connect_failure : ConnectFailure → Update J M R H N
  stream_error : StreamError → Update J M R H N
  disappearing_mode_changed : DisappearingModeChanged J → Update J M R H N
  newsletter_live_update : NewsletterLiveUpdate J → Update J M R H N
  mex_notification : MexNotification J → Update J M R H N
  pair_passkey_request : PairPasskeyRequest → Update J M R H N
  pair_passkey_confirmation : PairPasskeyConfirmation → Update J M R H N
  pair_passkey_error : PairPasskeyError → Update J M R H N
  raw : N → Update J M R H N
