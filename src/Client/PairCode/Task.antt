-- ===== src/Client/PairCode/Task.antt =====
-- What the task of `request_pair_code` leaves.
use mathlib.Core.Path.{subst}
use waepic.Prelude.{List, [], ◌∷◌, true, false, ◌≡◌, ap, sym, inl, inr, Listed, if_intro, clash}
use waepic.Prelude.Outcome.{Result, Result-cases}
use waepic.Connection.Ports.{Bytes, Wire}
use waepic.Connection.State.{node, connected, disconnected, error}
use waepic.Session.Sql.{Sql}
use waepic.Session.AppSync.{Json}
use waepic.Client.Error.{ClientError}
use waepic.Client.World.{Jids, Device, sent, World, Peer}
use waepic.Client.Pairing.Nodes.{PairSuccess, is_pair_success_node}
use waepic.Client.Pairing.Success.{PairUtils, updated_device, handle_pair_success}
use waepic.Client.Pairing.Success.Saved.{
  Stored, signed_prekey, response, handle_pair_success-Stores,
}
use waepic.Client.Pairing.Qr.{Wake, received, deadline, written, got, lost}
use waepic.Client.PairCode.{lowered_on_error, pair_success, wait_for_pair_success}

module _ {q : Sql} {J D N K P : Type 0} (w : Wire N K) (jids : Jids J) (json : Json (Device J D))
    (utils : PairUtils D N) (peer : Peer J N P) where
  -- The session holds the device that was paired, and the response was handed to the connection.
  abbrev pub PairedTo : Device J D → World q J D N → Type 0
  PairedTo d s =
      (p : PairSuccess J) × (signed : Bytes × _) × Stored json (updated_device jids p d)
        (signed_prekey utils (updated_device jids p d)) s.session
      × Listed (sent (response utils p signed)) s.calls

  pair_success-PairedTo :
      (n : N) (s : World q J D N)
      → (pair_success w jids json utils peer n s).post_pair_reconnect ≡ true
      → PairedTo s.device (pair_success w jids json utils peer n s)
  pair_success-PairedTo n s h =
      let t = record s { post_pair_reconnect = true } in
      let run = handle_pair_success w jids json utils peer s.device n t in
      elim (Result-cases run.0) [
        | inl (u, fine) ↦
            let (p, signed, read, crypt, stored, answered) =
              handle_pair_success-Stores w jids json utils peer s.device n t fine in
            subst
              (λ (r : Result ClientError (Unit {0})).
                PairedTo s.device (lowered_on_error w jids json utils peer (r, run.1)))
              (sym fine) (p, signed, stored, answered)
        | inr (e, failed) ↦
            clash
              (ap
                (λ (r : Result ClientError (Unit {0})).
                  (lowered_on_error w jids json utils peer (r, run.1)).post_pair_reconnect)
                failed)
              h
      ]

  -- From a lowered window flag: where the task leaves it raised, the session holds the device of
  -- the client with its new identity and its signed prekey, and the response was sent.
  pub wait_for_pair_success-PairedTo :
      (ws : List (Wake q N)) (s : World q J D N)
      → s.post_pair_reconnect ≡ false
      → (wait_for_pair_success w jids json utils peer ws s).post_pair_reconnect ≡ true
      → PairedTo s.device (wait_for_pair_success w jids json utils peer ws s)
  wait_for_pair_success-PairedTo [] s h k = clash h k
  wait_for_pair_success-PairedTo (deadline ∷ ws) s h k = wait_for_pair_success-PairedTo ws s h k
  wait_for_pair_success-PairedTo (written t ∷ ws) s h k = wait_for_pair_success-PairedTo ws _ h k
  wait_for_pair_success-PairedTo (received lost ∷ ws) s h k = clash h k
  wait_for_pair_success-PairedTo (received (got disconnected) ∷ ws) s h k = clash h k
  wait_for_pair_success-PairedTo (received (got connected) ∷ ws) s h k =
      wait_for_pair_success-PairedTo ws s h k
  wait_for_pair_success-PairedTo (received (got (error m)) ∷ ws) s h k =
      wait_for_pair_success-PairedTo ws s h k
  wait_for_pair_success-PairedTo (received (got (node n)) ∷ ws) s h k =
      if_intro (λ (x : World q J D N). x.post_pair_reconnect ≡ true → PairedTo s.device x)
        (is_pair_success_node w n) _ _ (λ yes_ k. pair_success-PairedTo n s k)
        (λ no_ k. wait_for_pair_success-PairedTo ws s h k) k
