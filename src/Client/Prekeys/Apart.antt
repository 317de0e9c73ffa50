-- ===== src/Client/Prekeys/Apart.antt =====
-- An upload of prekeys writes no table but theirs.
use waepic.Prelude.{ℕ, List, [], ◌∷◌, true, String, leb, ◌≡◌, refl, ◌∙◌, if_intro, ◌-◌}
use waepic.Prelude.Outcome.{Result, ok, err}
use waepic.Connection.Ports.{Bytes}
use waepic.Client.Error.{ClientError}
use waepic.Session.Sql.{Sql}
use waepic.Session.Schema.{SqliteSession}
use waepic.Session.Signal.{store_prekey}
use waepic.Client.Prekeys.{
  Keys, Uploader, Answers, store_all, uploaded, with_count, pre_keys, min_prekey_count,
  upload_prekeys_if_needed,
}

-- What `view` shows is no part of the prekeys.
abbrev pub Apart : {q : Sql} {V : Type 0} → (SqliteSession q → V) → Type 0
Apart {q} view =
    (s : SqliteSession q) (id : ℕ) (b : Bytes) → view ((store_prekey id b true s).1) ≡ view s

module _ {q : Sql} {V P : Type 0} (view : SqliteSession q → V) (h : Apart view)
    (keys : Keys P) where
  store_all-else :
      (entries : List (ℕ × P)) (s : SqliteSession q) → view (store_all keys entries s) ≡ view s
  store_all-else [] s = refl
  store_all-else ((id, kp) ∷ rest) s = store_all-else rest _ ∙ h s id (keys.encode_record id kp)

  uploaded-else :
      (entries : List (ℕ × P)) (r : Result String (Unit {0})) (u : Uploader q)
      → view ((uploaded keys entries r u).1.session) ≡ view u.session
  uploaded-else entries (ok a) u = store_all-else entries u.session
  uploaded-else entries (err e) u = refl

  with_count-else :
      (start : ℕ) (count : Result String ℕ) (answer : Result String (Unit {0})) (u : Uploader q)
      → view ((with_count keys start count answer u).1.session) ≡ view u.session
  with_count-else start (err e) answer u = refl
  with_count-else start (ok n) answer u =
      if_intro
        (λ (x : Result ClientError (Unit {0}) × Uploader q). view (x.1.session) ≡ view u.session)
        (leb min_prekey_count n) _ _ (λ enough. refl)
        (λ low. uploaded-else (pre_keys keys start 0 (min_prekey_count - n)) answer u)

  pub upload_prekeys_if_needed-else :
      (start : ℕ) (a : Answers) (u : Uploader q)
      → view ((upload_prekeys_if_needed keys start a u).1.session) ≡ view u.session
  upload_prekeys_if_needed-else start a u = with_count-else start a.count a.upload u
