-- ===== src/Client/Pairing/Qr.antt =====
-- `run_qr_pairing` of waepic-client/src/client/pair.rs. What ends each wait is a list: an event of the
-- connection, the loss of its channel, or the deadline of the code that is shown; another task may
-- also write the session in between.
pub mod Rotation
pub mod Expiry
use waepic.Prelude.{
  ℕ, zero, suc, List, [], ◌∷◌, map, Option, none, some, Bool, true, false, String, ◌==◌, nat_eq,
  if◌then◌else◌,
}
use waepic.Prelude.Outcome.{Result, ok, err, ignore}
use waepic.Connection.Ports.{Bytes, Wire}
use waepic.Connection.State.{RawEvent, node, connected, disconnected, error}
use waepic.Session.Sql.{Sql}
use waepic.Session.Schema.{SqliteSession, StoreError}
use waepic.Session.AppSync.{Json}
use waepic.Session.Device.{load}
use waepic.Client.Error.{ClientError, auth, qr_expired}
use waepic.Client.Error
use waepic.Client.World.{Jids, Device, Call, sent, World, Peer, call}
use waepic.Client.Pairing.Nodes.{
  is_pair_device_node, is_pair_success_node, extract_pair_device_refs,
}
use waepic.Client.Pairing.Success.{PairUtils, handle_pair_success}

pub data PairEvent : Type 0 where
  qr_code : String → ℕ → PairEvent
  success : PairEvent
  failed : ClientError → PairEvent

pub data Received (N : Type 0) : Type 0 where
  got : RawEvent N → Received N
  lost : Received N

pub data Wake (q : Sql) (N : Type 0) : Type 0 where
  received : Received N → Wake q N
  deadline : Wake q N
  written : SqliteSession q → Wake q N

-- The events handed to `tx.send`; `result` is none while the task waits.
pub record Pairing (q : Sql) (J D N : Type 0) : Type 0 where
  pub events : List PairEvent
  pub result : Option (Result ClientError (Unit {0}))
  pub world : World q J D N

abbrev pub is_paired : {J D : Type 0} → Result StoreError (Option (Device J D)) → Bool
is_paired (ok (some d)) = elim d.pn [ none ↦ false | some j ↦ true ]
is_paired (ok none) = false
is_paired (err e) = false

abbrev pub timeout_secs : ℕ → ℕ
timeout_secs i = if i == 0 then 60 else 20

module _ {q : Sql} {J D N : Type 0} where
  abbrev pub emit : PairEvent → Pairing q J D N → Pairing q J D N
  emit e p = record p { events = e ∷ p.events }

  -- One last event, and `Ok`.
  abbrev pub ends_with : PairEvent → World q J D N → Pairing q J D N
  ends_with e w = record { events = e ∷ []; result = some (ok tt); world = w }

  abbrev pub waiting : World q J D N → Pairing q J D N
  waiting w = record { events = []; result = none; world = w }

  abbrev pub is_already_paired : Json (Device J D) → World q J D N → Bool × World q J D N
  is_already_paired json w =
      let (r, s) = load json w.session in (is_paired r, record w { session = s })

-- What stands outside: `from_utf8`, `make_qr_data` for a device, and whether the stream of the
-- pair events is still open when the `i`-th code is sent.
pub record QrOutside (D : Type 0) : Type 0 where
  pub from_utf8 : Bytes → Option String
  pub make_qr_data : D → String → String
  pub is_open : ℕ → Bool

module _ {q : Sql} {J D N K P : Type 0} (w : Wire N K) (jids : Jids J) (json : Json (Device J D))
    (utils : PairUtils D N) (peer : Peer J N P) (o : QrOutside D) where
  abbrev pub reply_to : Option String → World q J D N → World q J D N
  reply_to none s = s
  reply_to (some id) s =
      ignore
        (call peer
          (sent (w.node "iq" (("type", "result") ∷ ("id", id) ∷ ("to", w.server_jid) ∷ []) none)))
        s

  abbrev pub acknowledge : N → World q J D N → World q J D N
  acknowledge n s = reply_to (w.attr n "id") s

  -- The refs of the first good pair-device IQ, and the waits after it.
  abbrev pub wait_for_refs :
      List (Wake q N)
      → World q J D N
      → Option (Result ClientError (List String × List (Wake q N))) × World q J D N
  wait_for_refs [] s = (none, s)
  wait_for_refs (deadline ∷ ws) s = wait_for_refs ws s
  wait_for_refs (written t ∷ ws) s = wait_for_refs ws (record s { session = t })
  wait_for_refs (received lost ∷ ws) s = (some (err Error.not_connected), s)
  wait_for_refs (received (got disconnected) ∷ ws) s = (some (err Error.not_connected), s)
  wait_for_refs (received (got connected) ∷ ws) s = wait_for_refs ws s
  wait_for_refs (received (got (error m)) ∷ ws) s = wait_for_refs ws s
  wait_for_refs (received (got (node n)) ∷ ws) s =
      let rest = wait_for_refs ws in
      if is_pair_device_node w n
      then elim (extract_pair_device_refs w o.from_utf8 n) [
        | none ↦ rest (acknowledge n s)
        | some refs ↦ (some (ok (refs, ws)), acknowledge n s)
      ]
      else rest s

  -- The flag is raised before `handle_pair_success`, and lowered where it fails.
  abbrev pub concluded : Result ClientError (Unit {0}) × World q J D N → Pairing q J D N
  concluded (ok u, s) = ends_with success s
  concluded (err e, s) = ends_with (failed e) (record s { post_pair_reconnect = false })

  abbrev pub paired : Device J D → N → World q J D N → Pairing q J D N
  paired d n s =
      concluded
        (handle_pair_success w jids json utils peer d n (record s { post_pair_reconnect = true }))

  -- One code is shown until its deadline, after which `next` goes on.
  abbrev pub hold :
      Device J D
      → (List (Wake q N) → World q J D N → Pairing q J D N)
      → List (Wake q N)
      → World q J D N
      → Pairing q J D N
  hold d next [] s = waiting s
  hold d next (deadline ∷ ws) s = next ws s
  hold d next (written t ∷ ws) s = hold d next ws (record s { session = t })
  hold d next (received lost ∷ ws) s = ends_with (failed Error.not_connected) s
  hold d next (received (got disconnected) ∷ ws) s = ends_with (failed Error.not_connected) s
  hold d next (received (got connected) ∷ ws) s = hold d next ws s
  hold d next (received (got (error m)) ∷ ws) s = hold d next ws s
  hold d next (received (got (node n)) ∷ ws) s =
      let rest = hold d next ws s in if is_pair_success_node w n then paired d n s else rest

  abbrev pub rotate :
      Device J D → ℕ → List String → List (Wake q N) → World q J D N → Pairing q J D N
  rotate d i [] ws s = ends_with (failed (auth qr_expired)) s
  rotate d i (code ∷ codes) ws s =
      let (known, s1) = is_already_paired json s in
      let shown = hold d (rotate d (suc i) codes) ws s1 in
      if known
      then ends_with success s1
      else emit (qr_code code (timeout_secs i))
          (if o.is_open i then shown else record { events = []; result = some (ok tt); world = s1 })

  abbrev pub with_refs :
      Device J D
      → Option (Result ClientError (List String × List (Wake q N))) × World q J D N
      → Pairing q J D N
  with_refs d (none, s) = waiting s
  with_refs d (some (err e), s) = record { events = []; result = some (err e); world = s }
  with_refs d (some (ok (refs, ws)), s) = rotate d 0 (map (o.make_qr_data d.material) refs) ws s

  abbrev pub run_qr_pairing : Device J D → List (Wake q N) → World q J D N → Pairing q J D N
  run_qr_pairing d ws s = with_refs d (wait_for_refs ws s)
