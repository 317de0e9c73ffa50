-- ===== src/Client/PairCode/Confirm/Used.antt =====
-- A pair code is confirmed once at most.
use waepic.Prelude.{◌∷◌, Option, none, some, Bool, true, false, String, ◌≡◌, ◌⊎◌, inl, inr, refl}
use waepic.Prelude.Outcome.{Result, ok, err}
use waepic.Connection.Ports.{Bytes, Wire}
use waepic.Session.Sql.{Sql}
use waepic.Session.AppSync.{Json}
use waepic.Client.World.{Device, sent, Peer, call}
use waepic.Client.PairCode.{
  Confirmation, PairCodeState, idle, completed, waiting_for_phone_confirmation, Login,
}
use waepic.Client.PairCode.Confirm.{
  Confirming, read_confirmation, finished, rotate_secret, with_bundle, with_ephemeral, with_state,
  confirm, handle_pair_code_notification,
}

module _ {q : Sql} {J D N P E : Type 0} (json : Json (Device J D)) (peer : Peer J N P)
    (c : Confirming D N E) where
  -- How the work on a waiting state `k` may end, of which `l` is what it began with.
  abbrev pub Concludes : Confirmation E → Login q J D N E → Bool × Login q J D N E → Type 0
  Concludes k l r =
      ((r.0 ≡ true)
        × (r.1.pair_code_state ≡ completed)
        × ((bundle : Bytes) × (r.1.world.calls
              ≡ sent (
                  c.build_companion_finish_iq k.phone_jid bundle
                    (c.identity_pub l.world.device.material) k.pairing_ref)
                ∷ l.world.calls)))
      ⊎ ((r.0 ≡ false) × (r.1.pair_code_state ≡ c.default))

  finished-Concludes :
      (k : Confirmation E) (bundle : Bytes) (secret : Bytes) (l : Login q J D N E)
      → l.pair_code_state ≡ c.default
      → (a : Result String (Unit {0}))
      → Concludes k l (
          finished json peer c
            (
              a,
              (call peer
                  (sent (
                    c.build_companion_finish_iq k.phone_jid bundle
                      (c.identity_pub l.world.device.material)
                      k.pairing_ref))
                  (rotate_secret json peer c secret l.world)).1,
            )
            l)
  finished-Concludes k bundle secret l h (ok u) = inl (refl, refl, (bundle, refl))
  finished-Concludes k bundle secret l h (err e) = inr (refl, h)

  with_bundle-Concludes :
      (k : Confirmation E) (bundle : Result String (Bytes × Bytes)) (l : Login q J D N E)
      → l.pair_code_state ≡ c.default
      → Concludes k l (with_bundle json peer c k bundle l)
  with_bundle-Concludes k (err e) l h = inr (refl, h)
  with_bundle-Concludes k (ok (bundle, secret)) l h = finished-Concludes k bundle secret l h (
      (call peer
        (sent (
          c.build_companion_finish_iq k.phone_jid bundle (c.identity_pub l.world.device.material)
            k.pairing_ref))
        (rotate_secret json peer c secret l.world)).0)

  with_ephemeral-Concludes :
      (k : Confirmation E) (identity : Bytes) (primary : Result String Bytes) (l : Login q J D N E)
      → l.pair_code_state ≡ c.default
      → Concludes k l (with_ephemeral json peer c k identity primary l)
  with_ephemeral-Concludes k identity (err e) l h = inr (refl, h)
  with_ephemeral-Concludes k identity (ok primary) l h =
      with_bundle-Concludes k
        (c.prepare_key_bundle k.ephemeral_keypair primary identity l.world.device.material) l h

  -- The awaited state was there and was used; or the answer is no, and nothing has changed or
  -- another state was taken.
  abbrev pub Uses : Login q J D N E → Bool × Login q J D N E → Type 0
  Uses l r =
      ((k : Confirmation E) × (l.pair_code_state ≡ waiting_for_phone_confirmation k)
        × Concludes k l r)
      ⊎ ((r.0 ≡ false) × ((r.1 ≡ l) ⊎ (r.1.pair_code_state ≡ c.default)))

  with_state-Uses :
      (keys : Bytes × Bytes) (state : PairCodeState E) (l : Login q J D N E)
      → l.pair_code_state ≡ state
      → Uses l (with_state json peer c keys state (record l { pair_code_state = c.default }))
  with_state-Uses keys idle l h = inr (refl, inr refl)
  with_state-Uses keys completed l h = inr (refl, inr refl)
  with_state-Uses keys (waiting_for_phone_confirmation k) l h = inl (
    k,
    h,
    with_ephemeral-Concludes k keys.1 (c.decrypt_primary_ephemeral_pub keys.0 k.pair_code)
        (record l { pair_code_state = c.default }) refl,
  )

  confirm-Uses :
      (keys : Option (Bytes × Bytes)) (l : Login q J D N E) → Uses l (confirm json peer c keys l)
  confirm-Uses none l = inr (refl, inl refl)
  confirm-Uses (some keys) l = with_state-Uses keys l.pair_code_state l refl

module _ {q : Sql} {J D N K P E : Type 0} (w : Wire N K) (json : Json (Device J D))
    (peer : Peer J N P) (c : Confirming D N E) where
  -- The answer is yes only where a code was awaited: the finish node of that code is the one call
  -- that was made, and the state is completed. Otherwise nothing has changed, or the state is the
  -- default one.
  pub handle_pair_code_notification-Uses :
      (n : N) (l : Login q J D N E)
      → Uses json peer c l (handle_pair_code_notification w json peer c n l)
  handle_pair_code_notification-Uses n l = confirm-Uses json peer c (read_confirmation w n) l
