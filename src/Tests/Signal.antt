-- ===== src/Tests/Signal.antt =====
-- Identities in a cache that is a map, over a session that is never asked.
use waepic.Prelude.{
  ℕ, [], ◌∷◌, none, some, false, String, ◌==◌, nat_eq, text_eq, ◌≡◌, refl, ap, ◌∙◌, ==_refl,
  if_true, if◌then◌else◌,
}
use waepic.Prelude.Map.{Map, get, insert, get-insert}
use waepic.Prelude.Outcome.{Result, ok, err}
use waepic.Connection.Ports.{Bytes}
use waepic.Session.Sql.Log.{log}
use waepic.Client.Signal.{
  SignalError, of_library, new_or_unchanged, replaced_existing, SharedDevice, SignalStoreCache,
  Libsignal, get_identity, save_identity,
}
use waepic.Client.Signal.Kept.{Caches, ReadsKeys, save_identity-Known}
use waepic.Tests.Stores.{empty_session}

abbrev mapped_cache : SignalStoreCache log (Map String Bytes) String ℕ String ℕ
mapped_cache = record {
  get_identity = λ a x. (ok (get a (x.0)), x);
  put_identity = λ a b c. insert a b c;
  get_session = λ a x. (ok none, x);
  has_session = λ a x. (ok false, x);
  put_session = λ a r c. c;
  get_sender_key = λ m x. (ok none, x);
  put_sender_key = λ m r c. c;
}

mapped-Caches : Caches mapped_cache
mapped-Caches = record {
  get_identity-put_identity = λ a b c s.
      ap (λ o. (ok o, (insert a b c, s)))
        (get-insert a a b c ∙ if_true (some b) (get a c) (==_refl a));
}

abbrev first_byte : Bytes → Result SignalError ℕ
first_byte [] = err (of_library "empty")
first_byte (b ∷ bs) = ok b

abbrev numbers : Libsignal ℕ ℕ ℕ ℕ ℕ ℕ ℕ
numbers = record {
  identity_key_pair = λ d. d;
  registration_id = λ d. d;
  public_key_bytes = λ i. i ∷ [];
  from_djb_public_key_bytes = first_byte;
  encode_prekey = λ r. ok (r ∷ []);
  decode_prekey = λ b. ok 1;
  prekey_structure_to_record = λ y. ok y;
  decode_signed_prekey = λ b. ok 1;
  signed_prekey_structure_to_record = λ z. ok z;
}

numbers-ReadsKeys : ReadsKeys numbers
numbers-ReadsKeys = record { key_bytes = λ i. (i, [], refl, refl) }

abbrev unknown : SharedDevice log (Map String Bytes) ℕ
unknown = record { device = 3; cache = []; backend = empty_session }

save_identity-Known_example :
    ((get_identity mapped_cache numbers "a" (save_identity mapped_cache numbers "a" 5 unknown).1).0
      ≡ ok (some 5))
    × ((save_identity mapped_cache numbers "a" 6
          (save_identity mapped_cache numbers "a" 5 unknown).1).0
        ≡ ok (if ◌==◌ {A = ℕ} 5 6 then new_or_unchanged else replaced_existing))
unfolding get
save_identity-Known_example =
    save_identity-Known mapped_cache numbers mapped-Caches numbers-ReadsKeys "a" 5 6 unknown
      new_or_unchanged refl
