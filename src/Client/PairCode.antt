-- ===== src/Client/PairCode.antt =====
-- `request_pair_code` of waepic-client/src/client/auth.rs. The code, the key pairs and what
-- `wacore::pair_code` computes of them are parameters.
pub mod Phone
pub mod Task
pub mod Confirm
use Prim.Native.String.{◌++◌ as text_append}
use waepic.Prelude.{
  ℕ, suc, List, [], ◌∷◌, Option, none, some, Bool, true, false, ◌&&◌, String, ◌==◌, nat_eq, text_eq,
  leb, ltb, length, if◌then◌else◌,
}
use waepic.Prelude.Outcome.{Result, ok, err, Exec, map_err, lift, pure, ◌>>=◌}
use waepic.Connection.Ports.{Bytes, Wire}
use waepic.Connection.State.{RawEvent, node, connected, disconnected, error}
use waepic.Session.Sql.{Sql}
use waepic.Session.AppSync.{Json}
use waepic.Client.Error.{ClientError, internal}
use waepic.Client.PairCode.Phone.{sanitize}
use waepic.Client.World.{
  Jids, Device, CompanionHelloSpec, Iq, companion_hello, Call, asked, World, Peer, call,
}
use waepic.Client.Pairing.Nodes.{is_pair_success_node}
use waepic.Client.Pairing.Success.{PairUtils, handle_pair_success}
use waepic.Client.Pairing.Qr.{Wake, received, deadline, written, got, lost}

-- The random code and request id, the wrapped ephemeral key, and the platform.
pub record PairCodes (D E : Type 0) : Type 0 where
  pub code : String
  pub req_id : String
  pub noise_static_pub : D → Bytes
  pub wrapped_ephemeral : Bytes
  pub platform : String → D → String × String
  pub pairing_ref : ℕ → Bytes
  pub ephemeral_keypair : E

-- `PairCodeState::WaitingForPhoneConfirmation`, without the two zeros.
pub record Confirmation (E : Type 0) : Type 0 where
  pub pairing_ref : Bytes
  pub phone_jid : String
  pub pair_code : String
  pub ephemeral_keypair : E

-- The states of `PairCodeState` that the client names.
pub data PairCodeState (E : Type 0) : Type 0 where
  idle completed : PairCodeState E
  waiting_for_phone_confirmation : Confirmation E → PairCodeState E

pub record Login (q : Sql) (J D N E : Type 0) : Type 0 where
  pub world : World q J D N
  pub pair_code_state : PairCodeState E

module _ {J D E : Type 0} (codes : PairCodes D E) where
  abbrev pub hello : String → Device J D → CompanionHelloSpec
  hello phone d =
      let (id, display) = codes.platform phone d.material in
      record {
        phone = phone;
        noise_static_pub = codes.noise_static_pub d.material;
        wrapped_ephemeral = codes.wrapped_ephemeral;
        platform_id = id;
        platform_display = display;
        show_push_notification = true;
        req_id = codes.req_id;
      }

module _ {q : Sql} {J D N P E : Type 0} (codes : PairCodes D E) (peer : Peer J N P) where
  abbrev pub answered :
      String
      → ℕ
      → Result String (Unit {0})
      → Login q J D N E
      → Result ClientError String × Login q J D N E
  answered phone n (err e) l = (err (internal (text_append "pair code request failed: " e)), l)
  answered phone n (ok u) l = (
    ok codes.code,
    record l {
      pair_code_state = waiting_for_phone_confirmation (record {
        pairing_ref = codes.pairing_ref n;
        phone_jid = phone;
        pair_code = codes.code;
        ephemeral_keypair = codes.ephemeral_keypair;
      });
    },
  )

  abbrev pub say_hello : String → Exec (Login q J D N E) ClientError String
  say_hello phone l =
      let n = length l.world.calls in
      let (r, w) = call peer (asked (companion_hello (hello codes phone l.world.device))) l.world in
      answered phone n r (record l { world = w })

  -- Up to the task that it spawns.
  abbrev pub request_pair_code : String → Exec (Login q J D N E) ClientError String
  request_pair_code phone_number = lift (sanitize phone_number) >>= say_hello

module _ {q : Sql} {J D N K P : Type 0} (w : Wire N K) (jids : Jids J) (json : Json (Device J D))
    (utils : PairUtils D N) (peer : Peer J N P) where
  abbrev pub lowered_on_error : Result ClientError (Unit {0}) × World q J D N → World q J D N
  lowered_on_error (ok u, s) = s
  lowered_on_error (err e, s) = record s { post_pair_reconnect = false }

  abbrev pub pair_success : N → World q J D N → World q J D N
  pair_success n s = lowered_on_error (
      handle_pair_success w jids json utils peer s.device n
        (record s { post_pair_reconnect = true }))

  -- The task that waits for the pair-success node; there is no deadline.
  abbrev pub wait_for_pair_success : List (Wake q N) → World q J D N → World q J D N
  wait_for_pair_success [] s = s
  wait_for_pair_success (deadline ∷ ws) s = wait_for_pair_success ws s
  wait_for_pair_success (written t ∷ ws) s = wait_for_pair_success ws (record s { session = t })
  wait_for_pair_success (received lost ∷ ws) s = s
  wait_for_pair_success (received (got disconnected) ∷ ws) s = s
  wait_for_pair_success (received (got connected) ∷ ws) s = wait_for_pair_success ws s
  wait_for_pair_success (received (got (error m)) ∷ ws) s = wait_for_pair_success ws s
  wait_for_pair_success (received (got (node n)) ∷ ws) s =
      let rest = wait_for_pair_success ws s in
      if is_pair_success_node w n then pair_success n s else rest
