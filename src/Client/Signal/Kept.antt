-- ===== src/Client/Signal/Kept.antt =====
-- An identity that was saved is the one that is known.
use waepic.Prelude.{◌∷◌, Option, some, ◌==◌, HasEq, ◌≡◌, ap, ◌∙◌, if◌then◌else◌}
use waepic.Prelude.Outcome.{Result, ok, continue, continue-ok, map_err, lift}
use waepic.Connection.Ports.{Bytes}
use waepic.Session.Sql.{Sql}
use waepic.Session.Schema.{SqliteSession, StoreError}
use waepic.Client.Signal.{
  SignalError, backend_error, IdentityChange, new_or_unchanged, replaced_existing, SharedDevice,
  SignalStoreCache, Libsignal, known_key, identity_in, get_identity, put_after, save_identity,
}

-- What was put into the cache is read from it, whatever the backend does.
pub record Caches {q : Sql} {C A S M G : Type 0} (k : SignalStoreCache q C A S M G) : Type 0 where
  pub get_identity-put_identity :
      (a : A) (b : Bytes) (c : C) (s : SqliteSession q)
      → k.get_identity a (k.put_identity a b c, s) ≡ (ok (some b), (k.put_identity a b c, s))

-- The bytes of a key are those of the key, and there is one at least.
pub record ReadsKeys {D I X R T Y Z : Type 0} (l : Libsignal D I X R T Y Z) : Type 0 where
  pub key_bytes :
      (i : I)
      → (b : _) × (bs : Bytes) × (l.public_key_bytes i ≡ b ∷ bs)
        × (l.from_djb_public_key_bytes (b ∷ bs) ≡ ok i)

module _ {D I X R T Y Z : Type 0} (l : Libsignal D I X R T Y Z) (keys : ReadsKeys l) where
  identity_in_bytes : (i : I) → identity_in l (some (l.public_key_bytes i)) ≡ ok (some i)
  identity_in_bytes i =
      let (b, bs, nonempty, reads) = keys.key_bytes i in
      ap (λ x. identity_in l (some x)) nonempty ∙ ap known_key reads

module _ {q : Sql} {C A S M G D I X R T Y Z : Type 0} ⦃same : HasEq I⦄
    (k : SignalStoreCache q C A S M G) (l : Libsignal D I X R T Y Z) (caches : Caches k)
    (keys : ReadsKeys l) where
  -- The state after an identity was put.
  abbrev put : A → I → SharedDevice q C D → SharedDevice q C D
  put a i s = record s { cache = k.put_identity a (l.public_key_bytes i) s.cache }

  get_identity_put :
      (a : A) (i : I) (s : SharedDevice q C D)
      → get_identity k l a (put a i s) ≡ (ok (some i), put a i s)
  get_identity_put a i s =
      let finish : Result StoreError (Option Bytes) × (C × SqliteSession q)
          → Result SignalError (Option I) × SharedDevice q C D =
        λ x.
          continue (map_err (backend_error "get_identity") x.0) (λ y. lift (identity_in l y))
            (record s { cache = x.1.0; backend = x.1.1 }) in
      ap finish (caches.get_identity-put_identity a (l.public_key_bytes i) s.cache s.backend)
      ∙ ap (λ r. (r, put a i s)) (identity_in_bytes l keys i)

  -- Once `save_identity` has returned `Ok`, the identity is the one that `get_identity` gives, and
  -- a save of any identity after it reports a replacement exactly if that is another one.
  pub save_identity-Known :
      (a : A) (i j : I) (s : SharedDevice q C D) (change : IdentityChange)
      → (save_identity k l a i s).0 ≡ ok change
      → ((get_identity k l a (save_identity k l a i s).1).0 ≡ ok (some i))
        × ((save_identity k l a j (save_identity k l a i s).1).0
            ≡ ok (if i == j then new_or_unchanged else replaced_existing))
  save_identity-Known a i j s change h =
      let got = get_identity k l a s in
      let (existing, first, run) = continue-ok got.0 (put_after k l a i) got.1 change h in
      let after : (save_identity k l a i s).1 ≡ put a i got.1 = ap (λ x. x.1) run in
      (
        ap (λ t. (get_identity k l a t).0) after ∙ ap (λ x. x.0) (get_identity_put a i got.1),
        ap (λ t. (save_identity k l a j t).0) after
            ∙ ap
                (λ (x : Result SignalError (Option I) × SharedDevice q C D).
                  (continue x.0 (put_after k l a j) x.1).0)
                (get_identity_put a i got.1),
      )
