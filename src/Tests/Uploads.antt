-- ===== src/Tests/Uploads.antt =====
-- Two uploads of prekeys by one device, where the server still holds 98 and then 97 prekeys.
use waepic.Prelude.{ℕ, ◌+◌, ◌<◌, ◌≤◌, List, [], ◌∷◌, some, nat_eq, ◌≡◌, refl, ◌⊎◌, Listed, arith}
use waepic.Prelude.Outcome.{ok}
use waepic.Connection.Ports.{Bytes}
use waepic.Session.Sql.Log.{log}
use waepic.Client.Prekeys.{Keys, Uploader, Answers, upload_prekeys_if_needed}
use waepic.Client.Prekeys.Ids.{row_of}
use waepic.Client.Prekeys.Stored.{
  Accepts, needed, upload_prekeys_if_needed-Stores, upload_again-Loses,
}
use waepic.Tests.Stores.{empty_session}

-- Key pairs that are numbers, from a given one on.
abbrev pub keys_from : ℕ → Keys ℕ
keys_from n = record {
  generate = λ i. n + i;
  public_key = λ p. p ∷ [];
  encode_record = λ id p. id ∷ p ∷ [];
}

abbrev device_store : Uploader log
device_store = record { session = empty_session; uploads = [] }

abbrev pub holds : ℕ → Answers
holds n = record { count = ok n; upload = ok tt }

holds-Accepts : Accepts 1 (holds 98) 98
holds-Accepts = record { counted = refl; few = omega arith; taken = refl; fits = omega arith }

fewer-Accepts : Accepts 1 (holds 97) 97
fewer-Accepts = record { counted = refl; few = omega arith; taken = refl; fits = omega arith }

published_twice :
    (upload_prekeys_if_needed
      (keys_from 70)
      1
      (holds 97)
      (upload_prekeys_if_needed (keys_from 50) 1 (holds 98) device_store).1).1.uploads
    ≡ ((1, 70 ∷ []) ∷ (2, 71 ∷ []) ∷ (3, 72 ∷ []) ∷ []) ∷ ((1, 50 ∷ []) ∷ (2, 51 ∷ []) ∷ []) ∷ []
published_twice = refl

upload_prekeys_if_needed-Stores_example :
    ((upload_prekeys_if_needed (keys_from 50) 1 (holds 98) device_store).0 ≡ ok tt)
    × ((j : ℕ)
        → j < needed 98
        → log.select
            (1 + j)
            ((upload_prekeys_if_needed (keys_from 50) 1 (holds 98) device_store).1.session.prekeys)
          ≡ some (row_of (keys_from 50) (1 + j) (50 + j)))
    × ((k : ℕ)
        → (k < 1) ⊎ (1 + needed 98 ≤ k)
        → log.select k
            ((upload_prekeys_if_needed (keys_from 50) 1 (holds 98) device_store).1.session.prekeys)
          ≡ log.select k (empty_session.prekeys))
upload_prekeys_if_needed-Stores_example =
    upload_prekeys_if_needed-Stores (keys_from 50) 1 98 (holds 98) device_store tt holds-Accepts

upload_again-Loses_example :
    (((entries : List (ℕ × Bytes)) × ((upload_prekeys_if_needed
          (keys_from 50)
          1
          (holds 98)
          device_store).1.uploads
        ≡ entries ∷ [])
      × Listed (1 + 1, (50 + 1) ∷ []) entries))
    × (log.select (1 + 1) (
          (upload_prekeys_if_needed
            (keys_from 70)
            1
            (holds 97)
            (upload_prekeys_if_needed
              (keys_from 50)
              1
              (holds 98)
              device_store).1).1.session.prekeys)
        ≡ some (row_of (keys_from 70) (1 + 1) (70 + 1)))
upload_again-Loses_example =
    upload_again-Loses (keys_from 50) (keys_from 70) 1 98 97 1 (holds 98) (holds 97) device_store tt
      holds-Accepts fewer-Accepts (omega arith) (omega arith)
