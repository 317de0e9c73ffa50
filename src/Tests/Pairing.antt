-- ===== src/Tests/Pairing.antt =====
-- A QR pairing whose nodes carry their tag as their content.
use waepic.Prelude.{
  ℕ, List, [], ◌∷◌, none, some, true, false, String, nat_eq, text_eq, ◌≡◌, refl, arith, Listed,
}
use waepic.Prelude.Outcome.{ok}
use waepic.Prelude.Map.{get}
use waepic.Connection.Ports.{Bytes, Wire}
use waepic.Connection.State.{node}
use waepic.Session.Sql.Log.{log}
use waepic.Session.AppSync.{Json}
use waepic.Client.World.{Jids, Device, sent, World, Peer}
use waepic.Client.Pairing.Nodes.{PairSuccess, read_pair_success}
use waepic.Client.Pairing.Success.{PairUtils, updated_device, pair_crypto, handle_pair_success}
use waepic.Client.Pairing.Success.Saved.{
  handle_pair_success-Stores, Stored, signed_prekey, response,
}
use waepic.Client.Pairing.Qr.{
  Wake, received, deadline, got, QrOutside, wait_for_refs, rotate, run_qr_pairing, qr_code, success,
}
use waepic.Client.Pairing.Qr.Rotation.{Shown, Honest, codes_of, run_qr_pairing-Shown}
use waepic.Client.Pairing.Qr.Expiry.{rotate-Expires, expired_codes}
use waepic.Tests.Doubles.{Element, element, nil, cons, tag_of, attrs_of, children_of}
use waepic.Tests.Stores.{empty_session}
use waepic.Tests.Uploads.{keys_from, holds}

abbrev pub tagged : Wire Element String
tagged = record {
  server_jid = "s.whatsapp.net";
  tag = tag_of;
  attr = λ e key. get key (attrs_of e);
  children = children_of;
  content = λ e. some (tag_of e);
  bytes = λ k. some (1 ∷ 2 ∷ []);
  node = λ t ats k. element t ats nil;
  marshal = λ e. ok (7 ∷ []);
  unpack_bytes = λ p. ok p;
  parse = λ p. ok (element "message" [] nil);
}

abbrev pub plain_jids : Jids String
plain_jids = record { parse = λ t. some t; default = ""; user = λ j. j; to_string = λ j. j }

abbrev pub new_device : Device String ℕ
new_device = record {
  pn = none;
  lid = none;
  push_name = "";
  server_has_prekeys = false;
  signed_pre_key_id = 1;
  next_pre_key_id = 1;
  material = 9;
}

abbrev pub device_json : Json (Device String ℕ)
device_json = record {
  to_string = λ d. ok d.push_name;
  from_str = λ t. ok (record new_device { push_name = t });
}

abbrev pub utils : PairUtils ℕ Element
utils = record {
  do_pair_crypto = λ d b. ok (b, 3);
  build_pair_success_response = λ id b i. element "iq" (("id", id) ∷ []) nil;
  signed_pre_key_record = λ id d. id ∷ d ∷ [];
  shown = λ e. "store";
}

abbrev pub kind_peer : Peer String Element ℕ
kind_peer = record { answer = λ n c. ok tt; prekeys = λ n. holds 99; keys = λ n. keys_from 50 }

abbrev pub start : World log String ℕ Element
start = record {
  session = empty_session;
  calls = [];
  post_pair_reconnect = false;
  device = new_device;
}

abbrev ref : Element
ref = element "ref" [] nil

abbrev pair_device : Element
pair_device =
    element "iq" (("type", "set") ∷ ("id", "q1") ∷ [])
      (cons (element "pair-device" [] (cons ref (cons ref nil))) nil)

abbrev pub pair_success : Element
pair_success = element "iq" (("type", "set") ∷ ("id", "q2") ∷ []) (
    cons
      (element "pair-success" [] (
        cons (element "device-identity" [] nil)
          (cons (element "device" (("jid", "551@s") ∷ ("lid", "7@lid") ∷ []) nil) nil)))
      nil)

abbrev outside : QrOutside ℕ
outside = record { from_utf8 = λ b. some "r"; make_qr_data = λ d r. r; is_open = λ n. true }

abbrev scanned : List (Wake log Element)
scanned = received (got (node pair_device)) ∷ deadline ∷ received (got (node pair_success)) ∷ []

scanned_second :
    (run_qr_pairing tagged plain_jids device_json utils kind_peer outside new_device scanned
      start).events
    ≡ qr_code "r" 60 ∷ qr_code "r" 20 ∷ success ∷ []
unfolding get
scanned_second = refl

handle_pair_success-Stores_example :
    (p : PairSuccess String) × (signed : Bytes × ℕ) × (read_pair_success tagged plain_jids
        pair_success
      ≡ ok p)
    × (pair_crypto utils new_device p ≡ ok signed)
    × Stored device_json
        (updated_device plain_jids p new_device)
        (signed_prekey utils (updated_device plain_jids p new_device))
        ((handle_pair_success tagged plain_jids device_json utils kind_peer new_device pair_success
          start).1.session)
    × Listed (sent (response utils p signed)) (
        (handle_pair_success tagged plain_jids device_json utils kind_peer new_device pair_success
          start).1.calls)
unfolding get
handle_pair_success-Stores_example =
    handle_pair_success-Stores tagged plain_jids device_json utils kind_peer new_device pair_success
      start refl

run_qr_pairing-Shown_example :
    Shown 0
      (codes_of tagged plain_jids device_json utils kind_peer outside new_device
        (wait_for_refs tagged plain_jids device_json utils kind_peer outside scanned start).0)
      ((run_qr_pairing tagged plain_jids device_json utils kind_peer outside new_device scanned
        start).events)
    × Honest (
        run_qr_pairing tagged plain_jids device_json utils kind_peer outside new_device scanned
          start)
run_qr_pairing-Shown_example =
    run_qr_pairing-Shown tagged plain_jids device_json utils kind_peer outside new_device scanned
      start refl

abbrev ignored : List (Wake log Element)
ignored = deadline ∷ deadline ∷ []

rotate-Expires_example :
    ((rotate tagged plain_jids device_json utils kind_peer outside new_device 0
        ("a" ∷ "b" ∷ [])
        ignored
        start).events
      ≡ expired_codes 0 ("a" ∷ "b" ∷ []))
    × ((rotate tagged plain_jids device_json utils kind_peer outside new_device 0
          ("a" ∷ "b" ∷ [])
          ignored
          start).result
        ≡ some (ok tt))
rotate-Expires_example =
    rotate-Expires tagged plain_jids device_json utils kind_peer outside new_device 0
      ("a" ∷ "b" ∷ []) ignored start refl (λ n. refl) tt (omega arith)
