-- ===== src/Client/Media/Cache.antt =====
-- The media connection that `refresh_media_conn` gives.
use waepic.Prelude.{
  ℕ, suc, Option, none, some, Bool, true, false, not, ◌&&◌, String, ◌≡◌, refl, ap, ◌∙◌, sym, ◌⊎◌,
  inl, inr, arith, Bool-cases, if_true, if_false,
}
use waepic.Prelude.Outcome.{err≢ok, ok_injective, Result, ok, err}
use waepic.Client.Media.{
  MediaConn, Outside, Client, stored, fetch_media_conn, cached, refresh_media_conn, is_expired,
}

fresh_enough : (force b : Bool) → (not force && not b) ≡ true → (force ≡ false) × (b ≡ false)
fresh_enough force b h = ground arith

module _ {R : Type 0} (o : Outside R) where
  stored_ok :
      (now : ℕ) (r : Result String MediaConn) (c : Client) (m : MediaConn)
      → (stored o now r c).0 ≡ ok m
      → ((stored o now r c).1.media_conn ≡ some m) × ((stored o now r c).1.iqs_sent ≡ c.iqs_sent)
  stored_ok now (ok x) c m h = (ap (λ y. some y) (ok_injective h), refl)
  stored_ok now (err e) c m h = absurd (err≢ok h)

  -- The connection was kept from before and is still good, or it was asked for.
  abbrev pub Given : Bool → ℕ → Client → MediaConn → Type 0
  Given force now c m =
      ((force ≡ false)
        × (c.media_conn ≡ some m)
        × (is_expired now m ≡ false)
        × ((refresh_media_conn o force now c).1 ≡ c))
      ⊎ ((refresh_media_conn o force now c).1.iqs_sent ≡ suc c.iqs_sent)

  fetched :
      (now : ℕ) (c : Client) (m : MediaConn)
      → (fetch_media_conn o now c).0 ≡ ok m
      → ((fetch_media_conn o now c).1.media_conn ≡ some m)
        × ((fetch_media_conn o now c).1.iqs_sent ≡ suc c.iqs_sent)
  fetched now c m h =
      stored_ok now (o.media_conn_iq c.iqs_sent) (record c { iqs_sent = suc c.iqs_sent }) m h

  abbrev From : Bool → ℕ → Option MediaConn → Client → MediaConn → Type 0
  From force now kept c m =
      ((cached o force now kept c).1.media_conn ≡ some m)
      × (((force ≡ false)
            × (kept ≡ some m)
            × (is_expired now m ≡ false)
            × ((cached o force now kept c).1 ≡ c))
          ⊎ ((cached o force now kept c).1.iqs_sent ≡ suc c.iqs_sent))

  cached-From :
      (force : Bool) (now : ℕ) (kept : Option MediaConn) (c : Client) (m : MediaConn)
      → c.media_conn ≡ kept
      → (cached o force now kept c).0 ≡ ok m
      → From force now kept c m
  cached-From force now none c m here h = let got = fetched now c m h in (got.0, inr (got.1))
  cached-From force now (some x) c m here h =
      elim (Bool-cases (not force && not (is_expired now x))) [
        | inl good ↦
            let same = if_true (ok x, c) (fetch_media_conn o now c) good in
            let it : x ≡ m = ok_injective (sym (ap (λ p. p.0) same) ∙ h) in
            let why = fresh_enough force (is_expired now x) good in
            (
              ap (λ p. p.1.media_conn) same ∙ here ∙ ap (λ y. some y) it,
              inl (
                why.0,
                ap (λ y. some y) it,
                ap (is_expired now) (sym it) ∙ why.1,
                ap (λ p. p.1) same,
              ),
            )
        | inr old ↦
            let same = if_false (ok x, c) (fetch_media_conn o now c) old in
            let got = fetched now c m (sym (ap (λ p. p.0) same) ∙ h) in
            (ap (λ p. p.1.media_conn) same ∙ got.0, inr (ap (λ p. p.1.iqs_sent) same ∙ got.1))
      ]

  -- A connection that is given is the one in the cache afterwards. Either no refresh was forced
  -- and it stood there before, not expired, and nothing changes; or one IQ was sent for it.
  pub refresh_media_conn-Given :
      (force : Bool) (now : ℕ) (c : Client) (m : MediaConn)
      → (refresh_media_conn o force now c).0 ≡ ok m
      → ((refresh_media_conn o force now c).1.media_conn ≡ some m) × Given force now c m
  refresh_media_conn-Given force now c m h = cached-From force now c.media_conn c m refl h
