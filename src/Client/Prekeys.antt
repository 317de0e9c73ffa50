-- ===== src/Client/Prekeys.antt =====
-- `upload_prekeys_if_needed` of waepic-client/src/client/pair.rs. The answers of the server, the
-- key generator and the encoding of a prekey are parameters; what was handed to `send_iq` is kept in
-- `uploads`, the latest first.
pub mod Ids
pub mod Apart
pub mod Stored
use Prim.Native.String.{◌++◌ as text_append}
use waepic.Prelude.{
  ℕ, zero, suc, ◌+◌, ◌-◌, ◌^◌, ◌%◌, leb, List, [], ◌∷◌, map, Bool, true, String, if◌then◌else◌,
}
use waepic.Prelude.Outcome.{Result, ok, err, ignore}
use waepic.Connection.Ports.{Bytes}
use waepic.Client.Error.{ClientError, internal}
use waepic.Session.Sql.{Sql}
use waepic.Session.Schema.{SqliteSession}
use waepic.Session.Signal.{store_prekey}

abbrev pub min_prekey_count : ℕ
min_prekey_count = 100

-- `P` is the type of key pairs; `encode_record` is `new_pre_key_record` and `encode_to_vec`.
pub record Keys (P : Type 0) : Type 0 where
  pub generate : ℕ → P
  pub public_key : P → Bytes
  pub encode_record : ℕ → P → Bytes

pub record Uploader (q : Sql) : Type 0 where
  pub session : SqliteSession q
  pub uploads : List (List (ℕ × Bytes))

-- What the server answers to the count and to the upload.
pub record Answers : Type 0 where
  pub count : Result String ℕ
  pub upload : Result String (Unit {0})

module _ {P : Type 0} (keys : Keys P) where
  -- `(0..needed).map(|i| (start_id + i, generate()))` from the `i`-th on; `u32` ids wrap.
  abbrev pub pre_keys : ℕ → ℕ → ℕ → List (ℕ × P)
  pre_keys start_id i zero = []
  pre_keys start_id i (suc n) =
      ((start_id + i) % 2 ^ 32, keys.generate i) ∷ pre_keys start_id (i + 1) n

  abbrev pub published : ℕ × P → ℕ × Bytes
  published entry = (entry.0, keys.public_key (entry.1))

  -- A prekey that cannot be stored is only logged.
  abbrev pub store_all : {q : Sql} → List (ℕ × P) → SqliteSession q → SqliteSession q
  store_all [] s = s
  store_all ((id, kp) ∷ rest) s =
      store_all rest (ignore (store_prekey id (keys.encode_record id kp) true) s)

  abbrev pub uploaded :
      {q : Sql}
      → List (ℕ × P)
      → Result String (Unit {0})
      → Uploader q
      → Result ClientError (Unit {0}) × Uploader q
  uploaded entries (err e) u = (
    err (internal (text_append "prekey upload failed: " e)),
    record u { uploads = map published entries ∷ u.uploads },
  )
  uploaded entries (ok _) u = (
    ok tt,
    record { session = store_all entries u.session; uploads = map published entries ∷ u.uploads },
  )

  abbrev pub topped_up :
      {q : Sql}
      → ℕ
      → ℕ
      → Result String (Unit {0})
      → Uploader q
      → Result ClientError (Unit {0}) × Uploader q
  topped_up next_pre_key_id count answer u =
      if leb min_prekey_count count
      then (ok tt, u)
      else uploaded (pre_keys next_pre_key_id 0 (min_prekey_count - count)) answer u

  abbrev pub with_count :
      {q : Sql}
      → ℕ
      → Result String ℕ
      → Result String (Unit {0})
      → Uploader q
      → Result ClientError (Unit {0}) × Uploader q
  with_count next_pre_key_id (err e) answer u =
      (err (internal (text_append "failed to query prekey count: " e)), u)
  with_count next_pre_key_id (ok count) answer u = topped_up next_pre_key_id count answer u

  -- `next_pre_key_id` is the field of the device, which the function only reads.
  abbrev pub upload_prekeys_if_needed :
      {q : Sql} → ℕ → Answers → Uploader q → Result ClientError (Unit {0}) × Uploader q
  upload_prekeys_if_needed next_pre_key_id a u = with_count next_pre_key_id a.count a.upload u
