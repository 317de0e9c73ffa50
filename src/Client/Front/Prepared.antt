-- ===== src/Client/Front/Prepared.antt =====
-- What `load_or_create_device` has done where it returns `Ok`.
use mathlib.Core.Path.{subst}
use waepic.Prelude.{Option, none, some, ◌≡◌, refl, ap, ◌∙◌, sym, ◌⊎◌, inl, inr, nat_eq}
use waepic.Prelude.Outcome.{ok, continue-ok, map_err, map_err-ok, ok_injective}
use waepic.Connection.Ports.{Bytes}
use waepic.Session.Sql.{Sql}
use waepic.Session.Schema.{SqliteSession}
use waepic.Session.Schema.Quiet.{after}
use waepic.Session.Schema.Failing.{select_row-ok}
use waepic.Session.AppSync.{Json}
use waepic.Session.Protocol.{parsed}
use waepic.Session.Signal.{load_signed_prekey, store_signed_prekey, signed_prekeys_table}
use waepic.Session.Device.{load}
use waepic.Session.Device.Loaded.{load-ok}
use waepic.Client.World.{Device, World}
use waepic.Client.Pairing.Nodes.{or_else}
use waepic.Client.Pairing.Success.{PairUtils}
use waepic.Client.Pairing.Success.Saved.{signed_prekey, store_signed_prekey-ok, select-replaced}
use waepic.Client.Front.{store_missing, ensure_signed_prekey, adopt, load_or_create_device}

-- The signed prekey of `d` is there: the one that was, or a new one where there was none.
abbrev pub Ensured :
    {q : Sql} {J D N : Type 0}
    → PairUtils D N
    → Device J D
    → SqliteSession q
    → SqliteSession q
    → Type 0
Ensured {q} utils d before now =
    (b : Bytes) × (q.select d.signed_pre_key_id (now.signed_prekeys) ≡ some b)
    × ((q.select d.signed_pre_key_id (before.signed_prekeys) ≡ some b)
        ⊎ ((q.select d.signed_pre_key_id (before.signed_prekeys) ≡ none)
            × (b ≡ signed_prekey utils d)))

module _ {q : Sql} {J D N : Type 0} (json : Json (Device J D)) (utils : PairUtils D N) where
  store_missing-Ensured :
      (d : Device J D) (found : Option Bytes) (s : World q J D N)
      → q.select d.signed_pre_key_id (s.session.signed_prekeys) ≡ found
      → (store_missing json utils d found s).0 ≡ ok tt
      → Ensured utils d s.session ((store_missing json utils d found s).1.session)
        × ((store_missing json utils d found s).1.device ≡ s.device)
  store_missing-Ensured d (some b) s there h = ((b, there, inl there), refl)
  store_missing-Ensured d none s absent h =
      let b = signed_prekey utils d in
      let stored =
        store_signed_prekey-ok d.signed_pre_key_id b s.session
          (map_err-ok _ (store_signed_prekey d.signed_pre_key_id b s.session).0 tt h) in
      (
        (
          b,
          ap (λ t. q.select d.signed_pre_key_id (t.signed_prekeys)) stored
              ∙ select-replaced q d.signed_pre_key_id b (s.session.signed_prekeys),
          inr (absent, refl),
        ),
        refl,
      )

  ensure_signed_prekey-Ensured :
      (s : World q J D N)
      → (ensure_signed_prekey json utils s).0 ≡ ok tt
      → Ensured utils s.device s.session ((ensure_signed_prekey json utils s).1.session)
        × ((ensure_signed_prekey json utils s).1.device ≡ s.device)
  ensure_signed_prekey-Ensured s h =
      let d = s.device in
      let looked = load_signed_prekey d.signed_pre_key_id s.session in
      let (found, checked, run) =
        continue-ok (map_err _ looked.0) (store_missing json utils d)
          (record s { session = looked.1 }) tt h in
      let selected =
        select_row-ok signed_prekeys_table d.signed_pre_key_id found s.session
          (map_err-ok _ looked.0 found checked) in
      let same : looked.1 ≡ after s.session = ap (λ x. x.1) selected in
      let there : q.select d.signed_pre_key_id (s.session.signed_prekeys) ≡ found =
        ok_injective (sym (ap (λ x. x.0) selected) ∙ map_err-ok _ looked.0 found checked) in
      let (ensured, kept) =
        store_missing-Ensured d found (record s { session = looked.1 })
          (ap (λ t. q.select d.signed_pre_key_id (t.signed_prekeys)) same ∙ there)
          (sym (ap (λ x. x.0) run) ∙ h) in
      (
        subst (λ x. Ensured utils d s.session (x.1.session)) (sym run)
            (subst
              (λ t.
                Ensured utils d t
                  ((store_missing json utils d found (record s { session = looked.1 })).1.session))
              same ensured),
        ap (λ x. x.1.device) run ∙ kept,
      )

  -- Where `load_or_create_device` returns `Ok`, the device in memory is the stored one, or the
  -- fresh one if none is stored, and its signed prekey is in the session, the one that was or a
  -- new one.
  pub load_or_create_device-Ensures :
      (s : World q J D N)
      → (load_or_create_device json utils s).0 ≡ ok tt
      → (loaded : Option (Device J D)) × (parsed json (q.select 0 (s.session.device)) ≡ ok loaded)
        × ((load_or_create_device json utils s).1.device ≡ or_else loaded s.device)
        × Ensured utils
            (or_else loaded s.device)
            s.session
            ((load_or_create_device json utils s).1.session)
  load_or_create_device-Ensures s h =
      let read = load json s.session in
      let (loaded, checked, run) =
        continue-ok (map_err _ read.0) (adopt json utils) (record s { session = read.1 }) tt h in
      let (text, same) = load-ok json s.session loaded (map_err-ok _ read.0 loaded checked) in
      let t = record s { session = read.1; device = or_else loaded s.device } in
      let (ensured, kept) = ensure_signed_prekey-Ensured t (sym (ap (λ x. x.0) run) ∙ h) in
      (
        loaded,
        text,
        ap (λ x. x.1.device) run ∙ kept,
        subst (λ x. Ensured utils (or_else loaded s.device) s.session (x.1.session)) (sym run)
            (subst
              (λ u.
                Ensured utils (or_else loaded s.device) u
                  ((ensure_signed_prekey json utils t).1.session))
              same ensured),
      )
