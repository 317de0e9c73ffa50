-- ===== src/Connection/Ports.antt =====
-- What waepic-connection takes from other crates: the Noise cipher, the framing and the handshake of
-- wacore, the transport behind `Arc<dyn Transport>`, and the binary nodes of wacore_binary. They are
-- parameters of every definition that uses them; an error is its text.
use waepic.Prelude.{ℕ, List, Option, String}
use waepic.Prelude.Outcome.{Result, Exec}

abbrev pub Bytes : Type 0
Bytes = List ℕ

-- `wacore::noise::NoiseCipher` and `wacore::framing::encode_frame`.
pub record Crypto (C : Type 0) : Type 0 where
  pub encrypt_in_place_with_counter : C → ℕ → Bytes → Result String Bytes
  pub decrypt_in_place_with_counter : C → ℕ → Bytes → Result String Bytes
  pub encode_frame : Bytes → Option Bytes → Result String Bytes

-- `wacore::net::Transport`, over the state `T` of the connection behind it; `abandon` is what a send
-- leaves that is dropped before it ends.
pub record Transport (T : Type 0) : Type 0 where
  pub send : Bytes → Exec T String (Unit {0})
  pub abandon : Bytes → T → T
  pub disconnect : T → T

-- `wacore_binary::Node` with contents `K`; an attribute is read as text.
pub record Wire (N K : Type 0) : Type 0 where
  pub server_jid : String
  pub tag : N → String
  pub attr : N → String → Option String
  pub children : N → Option (List N)
  pub content : N → Option K
  pub bytes : K → Option Bytes
  pub node : String → List (String × String) → Option K → N
  pub marshal : N → Result String Bytes
  pub unpack_bytes : Bytes → Result String Bytes
  pub parse : Bytes → Result String N

-- `wacore::framing::FrameDecoder`; `buffered` counts the complete frames that it holds.
pub record Decoder (D : Type 0) : Type 0 where
  pub new : D
  pub feed : D → Bytes → D
  pub decode_frame : D → Option (Bytes × D)
  pub buffered : D → ℕ

-- `wacore::handshake`: the Noise XX states `H` of a stored device `V`.
pub record Handshake (H V C : Type 0) : Type 0 where
  pub start : V → Result String H
  pub build_client_hello : H → Result String (Bytes × H)
  pub build_handshake_header : V → Bytes
  pub read_server_hello_and_build_client_finish : H → Bytes → Result String (Bytes × H)
  pub finish : H → Result String (C × C)
