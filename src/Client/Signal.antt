-- ===== src/Client/Signal.antt =====
-- waepic-client/src/client/signal_adapter.rs: the stores that libsignal is given. The cache of
-- wacore, the keys and the records of libsignal are parameters.
pub mod Kept
use Prim.Native.String.{◌++◌ as text_append}
use waepic.Prelude.{
  ℕ, List, [], ◌∷◌, Option, none, some, Bool, true, false, String, ◌==◌, HasEq, nat_eq,
  if◌then◌else◌,
}
use waepic.Prelude.Outcome.{Result, ok, err, Exec, map_err, ok_or, lift, pure, ◌>>=◌, ◌>>◌}
use waepic.Connection.Ports.{Bytes}
use waepic.Session.Sql.{Sql}
use waepic.Session.Schema.{SqliteSession, StoreError}
use waepic.Session.Signal

-- What the adapters name of `SignalProtocolError`; `of_library` is any other.
pub data SignalError : Type 0 where
  backend_error : String → StoreError → SignalError
  invalid_pre_key_id invalid_signed_pre_key_id : SignalError
  invalid_argument of_library : String → SignalError

pub data IdentityChange : Type 0 where
  new_or_unchanged replaced_existing : IdentityChange

-- The device as the adapters read it, the cache `C`, and the backend.
pub record SharedDevice (q : Sql) (C D : Type 0) : Type 0 where
  pub device : D
  pub cache : C
  pub backend : SqliteSession q

-- `SignalStoreCache`, which may read and write the backend; addresses `A`, sessions `S`, sender key
-- names `M` and records `G`.
pub record SignalStoreCache (q : Sql) (C A S M G : Type 0) : Type 0 where
  pub get_identity : A → Exec (C × SqliteSession q) StoreError (Option Bytes)
  pub put_identity : A → Bytes → C → C
  pub get_session : A → Exec (C × SqliteSession q) StoreError (Option S)
  pub has_session : A → Exec (C × SqliteSession q) StoreError Bool
  pub put_session : A → S → C → C
  pub get_sender_key : M → Exec (C × SqliteSession q) StoreError (Option G)
  pub put_sender_key : M → G → C → C

-- Identity keys `I` with their equality, key pairs `X`, the prekey records `R` and `T`, and
-- the structures `Y` and `Z` that they are stored as.
pub record Libsignal (D I X R T Y Z : Type 0) : Type 0 where
  pub identity_key_pair : D → X
  pub registration_id : D → ℕ
  pub public_key_bytes : I → Bytes
  pub from_djb_public_key_bytes : Bytes → Result SignalError I
  pub encode_prekey : R → Result SignalError Bytes
  pub decode_prekey : Bytes → Result String Y
  pub prekey_structure_to_record : Y → Result SignalError R
  pub decode_signed_prekey : Bytes → Result String Z
  pub signed_prekey_structure_to_record : Z → Result SignalError T

module _ {q : Sql} {C D : Type 0} where
  abbrev pub on_cache :
      {A : Type 0}
      → String
      → Exec (C × SqliteSession q) StoreError A
      → Exec (SharedDevice q C D) SignalError A
  on_cache context m s =
      let (r, t) = m (s.cache, s.backend) in
      (map_err (backend_error context) r, record s { cache = t.0; backend = t.1 })

  abbrev pub on_backend :
      {A : Type 0} → Exec (SqliteSession q) StoreError A → Exec (SharedDevice q C D) SignalError A
  on_backend m s =
      let (r, t) = m s.backend in (map_err (backend_error "backend") r, record s { backend = t })

module _ {q : Sql} {C A S M G D : Type 0} (k : SignalStoreCache q C A S M G) where
  abbrev pub load_session : A → Exec (SharedDevice q C D) SignalError (Option S)
  load_session address = on_cache "backend" (k.get_session address)

  abbrev pub has_session : A → Exec (SharedDevice q C D) SignalError Bool
  has_session address = on_cache "backend" (k.has_session address)

  abbrev pub store_session : A → S → Exec (SharedDevice q C D) SignalError (Unit {0})
  store_session address r s = (ok tt, record s { cache = k.put_session address r s.cache })

  abbrev pub store_sender_key : M → G → Exec (SharedDevice q C D) SignalError (Unit {0})
  store_sender_key name r s = (ok tt, record s { cache = k.put_sender_key name r s.cache })

  abbrev pub load_sender_key : M → Exec (SharedDevice q C D) SignalError (Option G)
  load_sender_key name = on_cache "backend" (k.get_sender_key name)

abbrev pub known_key : {I : Type 0} → Result SignalError I → Result SignalError (Option I)
known_key (ok key) = ok (some key)
known_key (err e) = err e

module _ {I : Type 0} ⦃same : HasEq I⦄ where
  abbrev pub change_from : Option I → I → IdentityChange
  change_from none identity = new_or_unchanged
  change_from (some existing) identity =
      if existing == identity then new_or_unchanged else replaced_existing

module _ {q : Sql} {C A D I : Type 0} where
  abbrev pub is_trusted_identity : A → I → Exec (SharedDevice q C D) SignalError Bool
  is_trusted_identity address identity = pure true

module _ {D I X R T Y Z : Type 0} (l : Libsignal D I X R T Y Z) where
  -- An empty entry stands for none.
  abbrev pub identity_in : Option Bytes → Result SignalError (Option I)
  identity_in none = ok none
  identity_in (some []) = ok none
  identity_in (some (b ∷ bs)) = known_key (l.from_djb_public_key_bytes (b ∷ bs))

  module _ {q : Sql} {C : Type 0} where
    abbrev pub get_identity_key_pair : Exec (SharedDevice q C D) SignalError X
    get_identity_key_pair s = (ok (l.identity_key_pair s.device), s)

    abbrev pub get_local_registration_id : Exec (SharedDevice q C D) SignalError ℕ
    get_local_registration_id s = (ok (l.registration_id s.device), s)

module _ {q : Sql} {C A S M G D I X R T Y Z : Type 0} ⦃same : HasEq I⦄
    (k : SignalStoreCache q C A S M G) (l : Libsignal D I X R T Y Z) where
  abbrev pub get_identity : A → Exec (SharedDevice q C D) SignalError (Option I)
  get_identity address =
      on_cache "get_identity" (k.get_identity address) >>= λ data_. lift (identity_in l data_)

  abbrev pub put_after : A → I → Option I → Exec (SharedDevice q C D) SignalError IdentityChange
  put_after address identity existing s = (
    ok (change_from existing identity),
    record s { cache = k.put_identity address (l.public_key_bytes identity) s.cache },
  )

  abbrev pub save_identity : A → I → Exec (SharedDevice q C D) SignalError IdentityChange
  save_identity address identity = get_identity address >>= put_after address identity

module _ {q : Sql} {C D I X R T Y Z : Type 0} (l : Libsignal D I X R T Y Z) where
  abbrev pub get_pre_key : ℕ → Exec (SharedDevice q C D) SignalError R
  get_pre_key id = on_backend (Signal.load_prekey id) >>= λ found.
      lift (ok_or found invalid_pre_key_id) >>= λ bytes.
      lift
        (map_err (λ e. invalid_argument (text_append "decode prekey: " e)) (l.decode_prekey bytes))
      >>= λ y. lift (l.prekey_structure_to_record y)

  abbrev pub save_pre_key : ℕ → R → Exec (SharedDevice q C D) SignalError (Unit {0})
  save_pre_key id r =
      lift (l.encode_prekey r) >>= λ encoded. on_backend (Signal.store_prekey id encoded false)

  abbrev pub remove_pre_key : ℕ → Exec (SharedDevice q C D) SignalError (Unit {0})
  remove_pre_key id = on_backend (Signal.remove_prekey id)

  abbrev pub get_signed_pre_key : ℕ → Exec (SharedDevice q C D) SignalError T
  get_signed_pre_key id = on_backend (Signal.load_signed_prekey id) >>= λ found.
      lift (ok_or found invalid_signed_pre_key_id) >>= λ bytes.
      lift (
        map_err (λ e. invalid_argument (text_append "decode signed prekey: " e))
          (l.decode_signed_prekey bytes))
      >>= λ z. lift (l.signed_prekey_structure_to_record z)

  abbrev pub save_signed_pre_key : ℕ → T → Exec (SharedDevice q C D) SignalError (Unit {0})
  save_signed_pre_key id r = pure tt
