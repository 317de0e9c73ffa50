-- ===== src/Tests/Confirm.antt =====
-- The notification that confirms a pair code.
use waepic.Prelude.{
  ℕ, ◌+◌, [], ◌∷◌, some, true, false, String, ◌==◌, text_eq, ◌≡◌, refl, if◌then◌else◌,
}
use waepic.Prelude.Outcome.{ok}
use waepic.Connection.Ports.{Wire}
use waepic.Session.Sql.Log.{log}
use waepic.Session.AppSync.{zeros}
use waepic.Client.PairCode.{idle, waiting_for_phone_confirmation, Login}
use waepic.Client.PairCode.Confirm.{Confirming, handle_pair_code_notification}
use waepic.Client.PairCode.Confirm.Used.{Uses, handle_pair_code_notification-Uses}
use waepic.Tests.Doubles.{Element, element, nil, cons}
use waepic.Tests.Pairing.{tagged, device_json, kind_peer, start}

abbrev with_keys : Wire Element String
with_keys = record tagged {
  bytes = λ tag. some (zeros (if tag == "primary_identity_pub" then 32 else 80));
}

abbrev steps : Confirming ℕ Element ℕ
steps = record {
  default = idle;
  decrypt_primary_ephemeral_pub = λ b c. ok (7 ∷ []);
  prepare_key_bundle = λ e p i d. ok (8 ∷ [], 9 ∷ []);
  with_adv_secret = λ b d. d + 1;
  identity_pub = λ d. d ∷ [];
  build_companion_finish_iq = λ phone b i r. element phone [] nil;
}

abbrev entered : Element
entered = element "notification" [] (
    cons
      (element "link_code_companion_reg" [] (
        cons (element "link_code_pairing_wrapped_primary_ephemeral_pub" [] nil)
          (cons (element "primary_identity_pub" [] nil) nil)))
      nil)

abbrev awaited : Login log String ℕ Element ℕ
awaited = record {
  world = start;
  pair_code_state = waiting_for_phone_confirmation (record {
    pairing_ref = [];
    phone_jid = "551";
    pair_code = "ABCD1234";
    ephemeral_keypair = 5;
  });
}

twice :
    (handle_pair_code_notification with_keys device_json kind_peer steps entered
      (handle_pair_code_notification with_keys device_json kind_peer steps entered awaited).1).0
    ≡ false
twice = refl

once :
    (handle_pair_code_notification with_keys device_json kind_peer steps entered awaited).0 ≡ true
once = refl

handle_pair_code_notification-Uses_example :
    Uses device_json kind_peer steps awaited
      (handle_pair_code_notification with_keys device_json kind_peer steps entered awaited)
handle_pair_code_notification-Uses_example =
    handle_pair_code_notification-Uses with_keys device_json kind_peer steps entered awaited
