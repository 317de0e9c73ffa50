-- ===== src/Tests/Login.antt =====
-- A pairing by code, and the login checks after it, where there is one address.
use waepic.Prelude.{
  List, [], ◌∷◌, ◌++◌, ℕ, ◌≤◌, ◌<◌, [], ◌∷◌, ◌++◌, Option, none, some, true, false, String, nat_eq,
  text_eq, ◌≡◌, refl, sym, ap, ◌⊎◌,
}
use waepic.Prelude.Outcome.{ok, err, ok_injective}
use waepic.Prelude.Map.{get}
use waepic.Connection.State.{node}
use waepic.Session.Sql.Log.{log}
use waepic.Session.AppSync.{Json}
use waepic.Session.Protocol.{parsed}
use waepic.Client.Error.{ClientError}
use waepic.Connection.Ports.{Bytes}
use waepic.Session.Device.{save}
use waepic.Client.Updates.Init.{run_post_connect_init}
use waepic.Client.Updates.Init.Calls.{synced, announced, run_post_connect_init-Calls}
use waepic.Client.World.{
  Jids, Device, World, Peer, sent, asked, device_list, passive_active, requests,
}
use waepic.Client.Server.{pn}
use waepic.Client.Pairing.Nodes.{PairSuccess, read_pair_success, or_else}
use waepic.Client.Pairing.Success.{updated_device, handle_pair_success}
use waepic.Client.Pairing.Qr.{received, got}
use waepic.Client.Login.{authorized, is_authorized, check_login_status, get_me, me_for}
use waepic.Client.Login.Paired.{Reads, handle_pair_success-authorizes}
use waepic.Client.PairCode.{wait_for_pair_success}
use waepic.Client.PairCode.Task.{PairedTo, wait_for_pair_success-PairedTo}
use waepic.Client.PairCode.Phone.{sanitize, digits_of, len, starts_with_0}
use waepic.Client.PairCode.Phone.Accepted.{AllDigits, sanitize-Accepts}
use waepic.Client.Front.{load_or_create_device}
use waepic.Client.Front.Prepared.{Ensured, load_or_create_device-Ensures}
use waepic.Tests.Doubles.{Element}
use waepic.Tests.Stores.{empty_session}
use waepic.Tests.Uploads.{keys_from, holds}
use waepic.Tests.Pairing.{tagged, utils, pair_success}

abbrev one_jid : Jids (Unit {0})
one_jid = record { parse = λ t. some tt; default = tt; user = λ j. ""; to_string = λ j. "" }

abbrev nobody : Device (Unit {0}) ℕ
nobody = record {
  pn = none;
  lid = none;
  push_name = "";
  server_has_prekeys = false;
  signed_pre_key_id = 1;
  next_pre_key_id = 1;
  material = 9;
}

-- The text is the push name of a device that is paired.
abbrev by_name : Json (Device (Unit {0}) ℕ)
by_name = record {
  to_string = λ d. ok d.push_name;
  from_str = λ t. ok (record nobody { push_name = t; pn = some tt });
}

by_name_back :
    (p : PairSuccess (Unit {0})) (text : String)
    → by_name.to_string (updated_device one_jid p nobody) ≡ ok text
    → by_name.from_str text ≡ ok (updated_device one_jid p nobody)
by_name_back p text h =
    ap (λ (t : String). ok (record nobody { push_name = t; pn = some tt })) (sym (ok_injective h))

abbrev server_side : Peer (Unit {0}) Element ℕ
server_side = record { answer = λ n c. ok tt; prekeys = λ n. holds 99; keys = λ n. keys_from 50 }

abbrev begun : World log (Unit {0}) ℕ Element
begun = record { session = empty_session; calls = []; post_pair_reconnect = false; device = nobody }

handle_pair_success-authorizes_example :
    (p : PairSuccess (Unit {0})) × (read_pair_success tagged one_jid pair_success ≡ ok p)
    × Reads utils.shown
        ((is_authorized by_name utils.shown
          (handle_pair_success tagged one_jid by_name utils server_side nobody pair_success
            begun).1).0)
        (ok true)
    × Reads utils.shown
        ((check_login_status by_name utils.shown
          (handle_pair_success tagged one_jid by_name utils server_side nobody pair_success
            begun).1).0)
        (ok (authorized p.jid ((updated_device one_jid p nobody).push_name)))
    × Reads utils.shown
        ((get_me by_name utils.shown
          (λ j. pn)
          (handle_pair_success tagged one_jid by_name utils server_side nobody pair_success
            begun).1).0)
        (me_for (λ j. pn) (some p.jid) ((updated_device one_jid p nobody).push_name))
unfolding get
handle_pair_success-authorizes_example =
    handle_pair_success-authorizes tagged one_jid by_name utils server_side (λ j. pn) nobody
      pair_success begun by_name_back refl

wait_for_pair_success-PairedTo_example : PairedTo tagged one_jid by_name utils server_side nobody (
    wait_for_pair_success tagged one_jid by_name utils server_side
      (received (got (node pair_success)) ∷ [])
      begun)
unfolding get
wait_for_pair_success-PairedTo_example =
    wait_for_pair_success-PairedTo tagged one_jid by_name utils server_side
      (received (got (node pair_success)) ∷ []) begun refl refl

load_or_create_device-Ensures_example :
    (loaded : Option (Device (Unit {0}) ℕ)) × (parsed by_name (log.select 0 (begun.session.device))
      ≡ ok loaded)
    × ((load_or_create_device by_name utils begun).1.device ≡ or_else loaded begun.device)
    × Ensured utils
        (or_else loaded begun.device)
        begun.session
        ((load_or_create_device by_name utils begun).1.session)
load_or_create_device-Ensures_example = load_or_create_device-Ensures by_name utils begun refl

spaced : sanitize "+55 (11) 99999-8888" ≡ ok "5511999998888"
spaced = refl

sanitize-Accepts_example :
    ((t : String) × (sanitize "+55 (11) 99999-8888" ≡ ok t)
      × (t ≡ digits_of "+55 (11) 99999-8888")
      × AllDigits t
      × (7 ≤ len t)
      × (starts_with_0 t ≡ false)
      × (sanitize t ≡ ok t))
    ⊎ ((e : ClientError) × (sanitize "+55 (11) 99999-8888" ≡ err e)
        × ((len (digits_of "+55 (11) 99999-8888") < 7)
            ⊎ (starts_with_0 (digits_of "+55 (11) 99999-8888") ≡ true)))
sanitize-Accepts_example = sanitize-Accepts "+55 (11) 99999-8888"

abbrev someone : Device (Unit {0}) ℕ
someone = record nobody { pn = some tt; push_name = "Ana" }

abbrev with_someone : World log (Unit {0}) ℕ Element
with_someone = record begun { session = (save by_name someone empty_session).1 }

run_post_connect_init-Calls_example :
    ((run_post_connect_init tagged by_name server_side pair_success with_someone).device ≡ someone)
    × ((uploads : List (List (ℕ × Bytes))) × ((run_post_connect_init tagged by_name server_side
            pair_success with_someone).calls
          ≡ synced (
              announced tagged someone.push_name (
                asked (device_list tt)
                ∷ asked passive_active
                ∷ (requests uploads ++ sent pair_success ∷ with_someone.calls)))))
run_post_connect_init-Calls_example =
    run_post_connect_init-Calls tagged by_name server_side pair_success someone tt with_someone refl
      refl
