-- ===== src/Client/Update/Session.antt =====
-- waepic-client/src/update.rs: what the updates on the pairing, the devices and the connection carry.
use waepic.Prelude.{
  ℕ, ℤ, pos, negsuc, List, Option, Bool, true, false, String, ◌==◌, nat_eq, if◌then◌else◌,
}

pub record PairError (J : Type 0) : Type 0 where
  pub id : J
  pub lid : J
  pub business_name : String
  pub platform : String
  pub error : String

pub data DeviceListUpdateType : Type 0 where
  add remove update : DeviceListUpdateType

pub record DeviceNotificationInfo : Type 0 where
  pub device_id : ℕ
  pub key_index : Option ℕ

pub record DeviceListUpdate (J : Type 0) : Type 0 where
  pub user : J
  pub lid_user : Option J
  pub update_type : DeviceListUpdateType
  pub devices : List DeviceNotificationInfo

pub record TemporaryBan : Type 0 where
  pub code : ℤ
  pub expire : ℕ

pub data ConnectFailureReason : Type 0 where
  generic logged_out temp_banned account_locked unknown_logout client_outdated :
      ConnectFailureReason
  bad_user_agent cat_expired cat_invalid not_found client_unknown : ConnectFailureReason
  internal_server_error experimental service_unavailable : ConnectFailureReason
  unknown : ℤ → ConnectFailureReason

pub record ConnectFailure : Type 0 where
  pub reason : ConnectFailureReason
  pub message : String

pub record StreamError : Type 0 where
  pub code : String

pub record MexNotification (J : Type 0) : Type 0 where
  pub op_name : String
  pub from : Option J
  pub stanza_id : Option String
  pub offline : Option String

pub record PairPasskeyRequest : Type 0 where
  pub request_options_json : String

pub record PairPasskeyConfirmation : Type 0 where
  pub code : String
  pub skip_handoff_ux : Bool

pub record PairPasskeyError : Type 0 where
  pub error : String
  pub continuation : Bool

abbrev pub reason_of : ℕ → ConnectFailureReason
reason_of code =
    if code == 400
    then generic
    else if code == 401
    then logged_out
    else if code == 402
    then temp_banned
    else if code == 403
    then account_locked
    else if code == 405
    then client_outdated
    else if code == 406
    then unknown_logout
    else if code == 409
    then bad_user_agent
    else if code == 413
    then cat_expired
    else if code == 414
    then cat_invalid
    else if code == 415
    then not_found
    else if code == 418
    then client_unknown
    else if code == 500
    then internal_server_error
    else if code == 501
    then experimental
    else if code == 503
    then service_unavailable
    else unknown (pos code)

abbrev pub from_i32 : ℤ → ConnectFailureReason
from_i32 (pos code) = reason_of code
from_i32 (negsuc n) = unknown (negsuc n)

abbrev pub is_logged_out : ConnectFailureReason → Bool
is_logged_out logged_out = true
is_logged_out account_locked = true
is_logged_out unknown_logout = true
is_logged_out _ = false
