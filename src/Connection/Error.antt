-- ===== src/Connection/Error.antt =====
-- waepic-connection/src/error.rs.
use Prim.Native.String.{◌++◌}
use waepic.Prelude.{String}

-- The I/O error is the operating system's, and carries its text.
pub data ConnectionError : Type 0 where
  encrypt decrypt socket protocol io : String → ConnectionError
  not_connected : ConnectionError

-- `Display`, by the `#[error(…)]` attributes.
unfoldable pub to_string : ConnectionError → String
to_string (encrypt m) = "encrypt failed: " ++ m
to_string (decrypt m) = "decrypt failed: " ++ m
to_string (socket m) = "socket error: " ++ m
to_string (protocol m) = "protocol error: " ++ m
to_string (io m) = m
to_string not_connected = "not connected"
