-- ===== src/Client/Update/Contacts.antt =====
-- waepic-client/src/update.rs: what the updates on contacts, groups and businesses carry.
use waepic.Prelude.{ℕ, List, Option, Bool, String, nat_eq}

pub record ContactUpdate (J : Type 0) : Type 0 where
  pub jid : J
  pub name : Option String
  pub push_name : Option String

pub record GroupUpdate (J : Type 0) : Type 0 where
  pub jid : J
  pub name : Option String
  pub participants : List J

pub record PictureUpdate (J : Type 0) : Type 0 where
  pub jid : J
  pub author : Option J
  pub timestamp : ℕ
  pub removed : Bool
  pub picture_id : Option String

pub record UserAboutUpdate (J : Type 0) : Type 0 where
  pub jid : J
  pub status : String
  pub timestamp : ℕ

pub record ContactUpdated (J : Type 0) : Type 0 where
  pub jid : J
  pub timestamp : ℕ

pub record ContactNumberChanged (J : Type 0) : Type 0 where
  pub old_jid : J
  pub new_jid : J
  pub old_lid : Option J
  pub new_lid : Option J
  pub timestamp : ℕ

pub record ContactSyncRequested : Type 0 where
  pub after : Option ℕ
  pub timestamp : ℕ

pub record PushNameUpdate (J : Type 0) : Type 0 where
  pub jid : J
  pub old_push_name : String
  pub new_push_name : String

pub record SelfPushNameUpdated : Type 0 where
  pub from_server : Bool
  pub old_name : String
  pub new_name : String

pub record IdentityChange (J : Type 0) : Type 0 where
  pub user : J
  pub lid_user : Option J
  pub implicit : Bool

pub data BusinessUpdateType : Type 0 where
  removed_as_business verified_name_changed profile_updated products_updated : BusinessUpdateType
  collections_updated unknown : BusinessUpdateType

pub record BusinessStatusUpdate (J : Type 0) : Type 0 where
  pub jid : J
  pub update_type : BusinessUpdateType
  pub timestamp : ℕ
  pub target_jid : Option J
  pub verified_name : Option String

pub record DisappearingModeChanged (J : Type 0) : Type 0 where
  pub from : J
  pub duration : ℕ
  pub setting_timestamp : ℕ
