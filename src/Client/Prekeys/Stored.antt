-- ===== src/Client/Prekeys/Stored.antt =====
-- The prekeys that an upload stores, and what a second upload does to them.
use waepic.Prelude.{
  ℕ, ◌+◌, ◌-◌, ◌^◌, ◌≤◌, ◌<◌, lt→leb, List, [], ◌∷◌, map, some, nat_eq, ◌≡◌, ap, ◌∙◌, ◌⊎◌, inl, inr,
  if_false, arith, Listed,
}
use waepic.Prelude.Outcome.{ok}
use waepic.Connection.Ports.{Bytes}
use waepic.Session.Sql.{Sql}
use waepic.Session.Schema.{SqliteSession}
use waepic.Session.Schema.Quiet.{Quiet}
use waepic.Client.Prekeys.{
  Keys, Uploader, Answers, min_prekey_count, pre_keys, store_all, with_count, published, uploaded,
  upload_prekeys_if_needed,
}
use waepic.Client.Prekeys.Ids.{
  row_of, select-store_all, store_all-Quiet, latest-outside, latest-inside, pre_keys-Listed,
}

Listed-map :
    {A B : Type 0} (f : A → B) (x : A) (xs : List A) → Listed x xs → Listed (f x) (map f xs)
Listed-map f x [] m = absurd m
Listed-map f x (y ∷ ys) (inl same) = inl (ap f same)
Listed-map f x (y ∷ ys) (inr rest) = inr (Listed-map f x ys rest)

abbrev pub needed : ℕ → ℕ
needed count = min_prekey_count - count

fits_all : (start held : ℕ) → start + min_prekey_count ≤ 2 ^ 32 → start + 0 + needed held ≤ 2 ^ 32
fits_all start held h = omega arith

-- The server holds fewer prekeys than it should, and takes the new ones.
pub record Accepts (start : ℕ) (a : Answers) (held : ℕ) : Type 0 where
  pub counted : a.count ≡ ok held
  pub few : held < min_prekey_count
  pub taken : a.upload ≡ ok tt
  pub fits : start + min_prekey_count ≤ 2 ^ 32

module _ {q : Sql} {P : Type 0} where
  abbrev topped : Keys P → ℕ → ℕ → Uploader q → Uploader q
  topped keys start held u =
      let entries = pre_keys keys start 0 (needed held) in
      record {
        session = store_all keys entries u.session;
        uploads = map (published keys) entries ∷ u.uploads;
      }

  upload-topped :
      (keys : Keys P) (start held : ℕ) (a : Answers) (u : Uploader q)
      → Accepts start a held
      → upload_prekeys_if_needed keys start a u ≡ (ok tt, topped keys start held u)
  upload-topped keys start held a u h =
      ap (λ r. with_count keys start r a.upload u) h.counted
      ∙ if_false _ _ (lt→leb min_prekey_count held h.few)
      ∙ ap (λ r. uploaded keys (pre_keys keys start 0 (needed held)) r u) h.taken

  select-inside :
      (keys : Keys P) (start held j : ℕ) (s : SqliteSession q)
      → Quiet s
      → start + min_prekey_count ≤ 2 ^ 32
      → j < needed held
      → q.select (start + j) ((store_all keys (pre_keys keys start 0 (needed held)) s).prekeys)
        ≡ some (row_of keys (start + j) (keys.generate j))
  select-inside keys start held j s h fits low =
      select-store_all keys (start + j) (pre_keys keys start 0 (needed held)) s h
      ∙ latest-inside keys start j 0 (needed held) (q.select (start + j) (s.prekeys)) (omega arith)
          (omega arith) (omega arith)

  -- While the statements succeed and the server accepts the upload, each new id holds its own key
  -- pair, marked as uploaded, and the prekeys under other ids are as they were.
  pub upload_prekeys_if_needed-Stores :
      (keys : Keys P) (start held : ℕ) (a : Answers) (u : Uploader q)
      → Quiet u.session
      → Accepts start a held
      → ((upload_prekeys_if_needed keys start a u).0 ≡ ok tt)
        × ((j : ℕ)
            → j < needed held
            → q.select (start + j) ((upload_prekeys_if_needed keys start a u).1.session.prekeys)
              ≡ some (row_of keys (start + j) (keys.generate j)))
        × ((k : ℕ)
            → (k < start) ⊎ (start + needed held ≤ k)
            → q.select k ((upload_prekeys_if_needed keys start a u).1.session.prekeys)
              ≡ q.select k (u.session.prekeys))
  upload_prekeys_if_needed-Stores keys start held a u h accepted =
      let run = upload-topped keys start held a u accepted in
      (
        ap (λ x. x.0) run,
        λ j low.
            ap (λ x. q.select (start + j) (x.1.session.prekeys)) run
            ∙ select-inside keys start held j u.session h accepted.fits low,
        λ k out.
            ap (λ x. q.select k (x.1.session.prekeys)) run
            ∙ select-store_all keys k (pre_keys keys start 0 (needed held)) u.session h
            ∙ latest-outside keys start k 0 (needed held) (q.select k (u.session.prekeys))
                (fits_all start held accepted.fits)
                (elim out [ inl low ↦ inl (omega arith) | inr high ↦ inr (omega arith) ]),
      )

  -- A second upload for the same device, while the statements succeed and the server accepts both:
  -- an id of both uploads was published with the first key pair, and the store holds only the
  -- second one under it.
  pub upload_again-Loses :
      (keys keys' : Keys P) (start held held' j : ℕ) (a a' : Answers) (u : Uploader q)
      → Quiet u.session
      → Accepts start a held
      → Accepts start a' held'
      → j < needed held
      → j < needed held'
      → (((entries : List (ℕ × Bytes)) × ((upload_prekeys_if_needed keys start a u).1.uploads
            ≡ entries ∷ u.uploads)
          × Listed (start + j, keys.public_key (keys.generate j)) entries))
        × (q.select (start + j) (
              (upload_prekeys_if_needed keys' start a'
                (upload_prekeys_if_needed keys start a u).1).1.session.prekeys)
            ≡ some (row_of keys' (start + j) (keys'.generate j)))
  upload_again-Loses keys keys' start held held' j a a' u h first second low low' =
      let run = upload-topped keys start held a u first in
      let u1 = topped keys start held u in
      (
        (
          map (published keys) (pre_keys keys start 0 (needed held)),
          ap (λ x. x.1.uploads) run,
          Listed-map (published keys) (start + j, keys.generate j)
              (pre_keys keys start 0 (needed held))
              (pre_keys-Listed keys start j 0 (needed held) (fits_all start held first.fits)
                (omega arith) (omega arith)),
        ),
        ap
              (λ x.
                q.select (start + j)
                  ((upload_prekeys_if_needed keys' start a' x.1).1.session.prekeys))
              run
            ∙ ap (λ x. q.select (start + j) (x.1.session.prekeys))
                (upload-topped keys' start held' a' u1 second)
            ∙ select-inside keys' start held' j u1.session
                (store_all-Quiet keys (pre_keys keys start 0 (needed held)) u.session h) second.fits
                low',
      )
