-- ===== src/Connection/Noise.antt =====
-- waepic-connection/src/noise_socket.rs. The atomic read counter and the locked write counter are
-- fields of a record; the lock serialises the calls, so each call is one transition.
pub mod Reading
pub mod Writing
use Prim.Native.String.{◌++◌}
use waepic.Prelude.{ℕ, ◌+◌, ◌-◌, ◌%◌, ◌^◌, none, ◌==◌, nat_eq, if◌then◌else◌}
use waepic.Prelude.Outcome.{Result, ok, err, Exec, map_err, ◌>>=◌, ◌>>◌, lift}
use waepic.Connection.Error.{ConnectionError, encrypt, decrypt, socket, protocol}
use waepic.Connection.Ports.{Bytes, Crypto, Transport}

abbrev pub u32_max : ℕ
u32_max = 2 ^ 32 - 1

pub record NoiseSocket (C : Type 0) : Type 0 where
  pub read_cipher : C
  pub read_counter : ℕ
  pub write_cipher : C
  pub write_counter : ℕ

-- The socket and the transport that a send goes through.
pub record Link (C T : Type 0) : Type 0 where
  pub noise_socket : NoiseSocket C
  pub transport : T

module _ {C : Type 0} where
  abbrev pub new : C → C → NoiseSocket C
  new write_cipher read_cipher = record {
    read_cipher = read_cipher;
    read_counter = 0;
    write_cipher = write_cipher;
    write_counter = 0;
  }

  abbrev pub framed : Crypto C → Result ConnectionError Bytes → Result ConnectionError Bytes
  framed crypto (ok buffer) =
      map_err (λ e. protocol ("frame encode failed: " ++ e)) (crypto.encode_frame buffer none)
  framed crypto (err e) = err e

  unfoldable pub encrypt_and_frame : Crypto C → C → ℕ → Bytes → Result ConnectionError Bytes
  encrypt_and_frame crypto cipher counter plaintext = framed crypto (
      map_err (λ e. encrypt ("encrypt failed: " ++ e))
        (crypto.encrypt_in_place_with_counter cipher counter plaintext))

  unfoldable pub decrypt_with : Crypto C → C → ℕ → Bytes → Result ConnectionError Bytes
  decrypt_with crypto cipher counter ciphertext =
      map_err (λ e. decrypt ("decrypt failed: " ++ e))
        (crypto.decrypt_in_place_with_counter cipher counter ciphertext)

  -- `fetch_update(… checked_add(1))`: the counter moves before the frame is opened.
  unfoldable pub decrypt_frame : Crypto C → Bytes → Exec (NoiseSocket C) ConnectionError Bytes
  decrypt_frame crypto ciphertext s =
      if s.read_counter == u32_max then (err (decrypt "read counter exhausted"), s) else (
        decrypt_with crypto s.read_cipher s.read_counter ciphertext,
        record s { read_counter = s.read_counter + 1 },
      )

module _ {C T : Type 0} (crypto : Crypto C) (net : Transport T) where
  abbrev pub transmit : Bytes → Exec (Link C T) ConnectionError (Unit {0})
  transmit frame l =
      let (r, t) = net.send frame l.transport in
      (map_err (λ e. socket ("transport send failed: " ++ e)) r, record l { transport = t })

  -- `*counter_guard = counter.wrapping_add(1)`
  abbrev pub advance : ℕ → Exec (Link C T) ConnectionError (Unit {0})
  advance counter l = (
    ok tt,
    record l { noise_socket = record (l.noise_socket) { write_counter = (counter + 1) % 2 ^ 32 } },
  )

  abbrev pub sealed : Bytes → Link C T → Result ConnectionError Bytes
  sealed plaintext l =
      encrypt_and_frame crypto l.noise_socket.write_cipher l.noise_socket.write_counter plaintext

  unfoldable pub encrypt_and_send : Bytes → Exec (Link C T) ConnectionError (Unit {0})
  encrypt_and_send plaintext l =
      if l.noise_socket.write_counter == u32_max
      then (err (encrypt "write counter exhausted"), l)
      else (do
        frame ← lift (sealed plaintext l)
        transmit frame
        advance l.noise_socket.write_counter)
          l
