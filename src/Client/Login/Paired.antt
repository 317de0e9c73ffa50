-- ===== src/Client/Login/Paired.antt =====
-- The login checks after a pairing.
use Prim.Native.String.{◌++◌ as text_append}
use waepic.Prelude.{nat_eq, Option, some, true, String, ◌≡◌, ap, ◌∙◌, ◌⊎◌, inl, inr}
use waepic.Prelude.Outcome.{Result, ok, err, continue, map_err, lift}
use waepic.Connection.Ports.{Wire}
use waepic.Session.Sql.{Sql}
use waepic.Session.Schema.{SqliteSession, StoreError, database}
use waepic.Session.Schema.Quiet.{after}
use waepic.Session.AppSync.{Json}
use waepic.Session.Protocol.{parsed}
use waepic.Session.Device.Loaded.{load-either}
use waepic.Session.Device.Created.{parsed_back}
use waepic.Client.Error.{ClientError, internal}
use waepic.Client.World.{Jids, Device, World, Peer}
use waepic.Client.Server.{Server}
use waepic.Client.Pairing.Nodes.{PairSuccess, read_pair_success}
use waepic.Client.Pairing.Success.{PairUtils, updated_device, handle_pair_success}
use waepic.Client.Pairing.Success.Saved.{handle_pair_success-Stores}
use waepic.Client.Login.{
  authorized, load_device, is_authorized, check_login_status, get_me, is_paired_device, status_of,
  me_of, me_for,
}

-- The value that the stored device gives, or the failure of the statement that reads it.
abbrev pub Reads :
    {A : Type 0} → (StoreError → String) → Result ClientError A → Result ClientError A → Type 0
Reads shown r expected =
    (r ≡ expected)
    ⊎ ((m : String) × (r
          ≡ err (internal (text_append "failed to load device: " (shown (database m))))))

module _ {q : Sql} {J D N : Type 0} (json : Json (Device J D)) (shown : StoreError → String) where
  -- A check that computes `f` of the loaded device.
  checks :
      {A : Type 0} (f : Option (Device J D) → Result ClientError A) (d : Device J D)
      (s : World q J D N)
      → parsed json (q.select 0 (s.session.device)) ≡ ok (some d)
      → Reads shown
          ((continue (load_device json shown s).0 (λ x. lift (f x)) (load_device json shown s).1).0)
          (f (some d))
  checks f d s there =
      let finish : Result StoreError (Option (Device J D)) × SqliteSession q
          → Result ClientError _ =
        λ x.
          (continue (map_err (λ e. internal (text_append "failed to load device: " (shown e))) x.0)
            (λ y. lift (f y)) (record s { session = x.1 })).0 in
      elim (load-either json s.session) [
        | inl runs ↦ inl (
            ap finish runs
            ∙ ap (λ (r : Result StoreError (Option (Device J D))). finish (r, after s.session))
                there)
        | inr (m, stops) ↦ inr (m, ap finish stops)
      ]

module _ {q : Sql} {J D N K P : Type 0} (w : Wire N K) (jids : Jids J) (json : Json (Device J D))
    (utils : PairUtils D N) (peer : Peer J N P) (server : J → Server) where
  pub handle_pair_success-authorizes :
      (d : Device J D) (n : N) (s : World q J D N)
      → ((p : PairSuccess J) (text : String)
          → json.to_string (updated_device jids p d) ≡ ok text
          → json.from_str text ≡ ok (updated_device jids p d))
      → (handle_pair_success w jids json utils peer d n s).0 ≡ ok tt
      → (p : PairSuccess J) × (read_pair_success w jids n ≡ ok p)
        × Reads utils.shown
            ((is_authorized json utils.shown
              (handle_pair_success w jids json utils peer d n s).1).0)
            (ok true)
        × Reads utils.shown
            ((check_login_status json utils.shown
              (handle_pair_success w jids json utils peer d n s).1).0)
            (ok (authorized p.jid ((updated_device jids p d).push_name)))
        × Reads utils.shown
            ((get_me json utils.shown server
              (handle_pair_success w jids json utils peer d n s).1).0)
            (me_for server (some p.jid) ((updated_device jids p d).push_name))
  handle_pair_success-authorizes d n s back h =
      let (p, signed, read, crypt, stored, answered) =
        handle_pair_success-Stores w jids json utils peer d n s h in
      let x = updated_device jids p d in
      let t = (handle_pair_success w jids json utils peer d n s).1 in
      let there : parsed json (q.select 0 (t.session.device)) ≡ ok (some x) =
        ap (parsed json) stored.saved
        ∙ parsed_back json x stored.text (back p stored.text stored.printed) in
      (
        p,
        read,
        checks json utils.shown (λ l. ok (is_paired_device l)) x t there,
        checks json utils.shown (λ l. ok (status_of l)) x t there,
        checks json utils.shown (me_of server) x t there,
      )
