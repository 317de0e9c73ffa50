-- ===== src/Client/Error.antt =====
-- waepic-client/src/error.rs. `std::io::Error` is its text.
use waepic.Prelude.{String}
use waepic.Connection.Error.{ConnectionError}

pub data AuthError : Type 0 where
  not_paired : AuthError
  pair_failed : String → AuthError
  pair_code_invalid qr_expired qr_timeout : AuthError

pub data IqError : Type 0 where
  timeout : IqError
  server_error unexpected_response parse_error : String → IqError

pub data SendError : Type 0 where
  invalid_request encryption_failed : String → SendError
  iq_failed : IqError → SendError

pub data ClientError : Type 0 where
  connection : ConnectionError → ClientError
  not_connected not_logged_in already_connected : ClientError
  socket encrypt_send : String → ClientError
  iq : IqError → ClientError
  auth : AuthError → ClientError
  send : SendError → ClientError
  protocol io internal : String → ClientError
