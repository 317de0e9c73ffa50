-- ===== src/Client/PairCode/Confirm.antt =====
-- `handle_pair_code_notification` of waepic-client/src/client/handlers.rs, the second stage of the
-- pair code. What `wacore::pair_code` computes is a parameter.
pub mod Used
use waepic.Prelude.{
  ℕ, List, [], ◌∷◌, Option, none, some, Bool, true, false, String, ◌==◌, nat_eq, length,
  if◌then◌else◌,
}
use waepic.Prelude.Outcome.{Result, ok, err, ignore}
use waepic.Connection.Ports.{Bytes, Wire}
use waepic.Session.Sql.{Sql}
use waepic.Session.AppSync.{Json}
use waepic.Session.Device.{save}
use waepic.Client.World.{Device, Call, sent, World, Peer, call}
use waepic.Client.Pairing.Nodes.{then_some, child, bytes_of}
use waepic.Client.PairCode.{
  Confirmation, PairCodeState, completed, waiting_for_phone_confirmation, Login,
}

-- `default` is what `mem::take` leaves.
pub record Confirming (D N E : Type 0) : Type 0 where
  pub default : PairCodeState E
  pub decrypt_primary_ephemeral_pub : Bytes → String → Result String Bytes
  pub prepare_key_bundle : E → Bytes → Bytes → D → Result String (Bytes × Bytes)
  pub with_adv_secret : Bytes → D → D
  pub identity_pub : D → Bytes
  pub build_companion_finish_iq : String → Bytes → Bytes → Bytes → N

abbrev pub of_length : ℕ → Bytes → Option Bytes
of_length n b = if length b == n then some b else none

module _ {N K : Type 0} (w : Wire N K) where
  abbrev pub sized : String → ℕ → N → Option Bytes
  sized tag n reg = then_some (then_some (child w tag reg) (bytes_of w)) (of_length n)

  -- The wrapped ephemeral key and the identity key of the phone.
  abbrev pub read_confirmation : N → Option (Bytes × Bytes)
  read_confirmation n = then_some (child w "link_code_companion_reg" n) λ reg.
      then_some (sized "link_code_pairing_wrapped_primary_ephemeral_pub" 80 reg) λ wrapped.
        then_some (sized "primary_identity_pub" 32 reg) λ identity. some (wrapped, identity)

module _ {q : Sql} {J D N P E : Type 0} (json : Json (Device J D)) (peer : Peer J N P)
    (c : Confirming D N E) where
  abbrev pub finished :
      Result String (Unit {0}) × World q J D N → Login q J D N E → Bool × Login q J D N E
  finished (ok u, t) l = (true, record l { world = t; pair_code_state = completed })
  finished (err e, t) l = (false, record l { world = t })

  -- An error of `save` is only logged.
  abbrev pub rotate_secret : Bytes → World q J D N → World q J D N
  rotate_secret secret t =
      let d = record (t.device) { material = c.with_adv_secret secret t.device.material } in
      record t { device = d; session = ignore (save json d) t.session }

  abbrev pub with_bundle :
      Confirmation E → Result String (Bytes × Bytes) → Login q J D N E → Bool × Login q J D N E
  with_bundle k (err e) l = (false, l)
  with_bundle k (ok (bundle, secret)) l =
      let iq =
        c.build_companion_finish_iq k.phone_jid bundle (c.identity_pub l.world.device.material)
          k.pairing_ref in
      finished (call peer (sent iq) (rotate_secret secret l.world)) l

  abbrev pub with_ephemeral :
      Confirmation E → Bytes → Result String Bytes → Login q J D N E → Bool × Login q J D N E
  with_ephemeral k identity (err e) l = (false, l)
  with_ephemeral k identity (ok primary) l =
      with_bundle k
        (c.prepare_key_bundle k.ephemeral_keypair primary identity l.world.device.material) l

  -- The state is taken before it is known to be the awaited one.
  abbrev pub with_state : Bytes × Bytes → PairCodeState E → Login q J D N E → Bool × Login q J D N E
  with_state keys (waiting_for_phone_confirmation k) l =
      with_ephemeral k keys.1 (c.decrypt_primary_ephemeral_pub keys.0 k.pair_code) l
  with_state keys other l = (false, l)

  abbrev pub confirm : Option (Bytes × Bytes) → Login q J D N E → Bool × Login q J D N E
  confirm none l = (false, l)
  confirm (some keys) l =
      with_state keys l.pair_code_state (record l { pair_code_state = c.default })

module _ {q : Sql} {J D N K P E : Type 0} (w : Wire N K) (json : Json (Device J D))
    (peer : Peer J N P) (c : Confirming D N E) where
  -- It returns `Ok` on every path.
  abbrev pub handle_pair_code_notification : N → Login q J D N E → Bool × Login q J D N E
  handle_pair_code_notification n l = confirm json peer c (read_confirmation w n) l
