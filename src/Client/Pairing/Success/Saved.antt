-- ===== src/Client/Pairing/Success/Saved.antt =====
-- What `handle_pair_success` has done where it returns `Ok`.
use mathlib.Core.Path.{subst}
use waepic.Prelude.{
  ℕ, [], some, String, ==_refl, nat_eq, ◌≡◌, refl, ap, ◌∙◌, sym, length, inl, inr, Listed,
  Listed-append_right, if_true,
}
use waepic.Prelude.Outcome.{ok, Exec, continue-ok, map_err, map_err-ok, lift, ◌>>=◌, ◌>>◌}
use waepic.Connection.Ports.{Bytes, Wire}
use waepic.Session.Sql.{Sql}
use waepic.Session.Schema.{SqliteSession, StoreError, insert_or_replace, serialization}
use waepic.Session.Schema.Quiet.{after}
use waepic.Session.Schema.Failing.{insert_or_replace-ok, insert_or_replace-else}
use waepic.Session.AppSync.{Json}
use waepic.Session.Signal.{store_signed_prekey, prekeys_table, signed_prekeys_table}
use waepic.Session.Device.{save, device_table}
use waepic.Client.Prekeys.Apart.{Apart, upload_prekeys_if_needed-else}
use Prim.Native.String.{◌++◌ as text_append}
use waepic.Client.Error.{ClientError, internal}
use waepic.Client.Prekeys.{Uploader}
use waepic.Client.World.{Jids, Device, sent, World, Peer, on_session}
use waepic.Client.Pairing.Nodes.{PairSuccess, read_pair_success}
use waepic.Client.Pairing.Success.{
  PairUtils, updated_device, pair_crypto, accept, respond, persist, announce_paired,
  handle_pair_success,
}

device-Apart : {q : Sql} → Apart {q = q} (λ s. s.device)
device-Apart {q} s id b = insert_or_replace-else prekeys_table (λ s. s.device) id _ s refl refl

signed_prekeys-Apart : {q : Sql} → Apart {q = q} (λ s. s.signed_prekeys)
signed_prekeys-Apart s id b =
    insert_or_replace-else prekeys_table (λ s. s.signed_prekeys) id _ s refl refl

module _ {q : Sql} where
  save-ok :
      {V : Type 0} (json : Json V) (d : V) (s : SqliteSession q)
      → (save json d s).0 ≡ ok tt
      → (text : String) × (json.to_string d ≡ ok text)
        × ((save json d s).1 ≡ record (after s) { device = q.replace 0 text (s.device) })
  save-ok json d s h =
      let write : String → Exec (SqliteSession q) StoreError (Unit {0}) =
        insert_or_replace device_table 0 in
      let (text, printed, run) =
        continue-ok (map_err serialization (json.to_string d)) write s tt h in
      (
        text,
        map_err-ok serialization _ text printed,
        ap (λ x. x.1)
            (run ∙ insert_or_replace-ok device_table 0 text s (sym (ap (λ x. x.0) run) ∙ h)),
      )

  pub store_signed_prekey-ok :
      (id : ℕ) (b : Bytes) (s : SqliteSession q)
      → (store_signed_prekey id b s).0 ≡ ok tt
      → (store_signed_prekey id b s).1
        ≡ record (after s) { signed_prekeys = q.replace id b (s.signed_prekeys) }
  store_signed_prekey-ok id b s h =
      ap (λ x. x.1) (insert_or_replace-ok signed_prekeys_table id b s h)

pub select-replaced :
    (q : Sql) {R : Type 0} (k : ℕ) (r : R) (t : q.Table ℕ R) → q.select k (q.replace k r t) ≡ some r
select-replaced q k r t = q.select-replace k k r t ∙ if_true (some r) (q.select k t) (==_refl k)

-- The device and the signed prekey stand in their tables.
pub record Stored {q : Sql} {J D : Type 0} (json : Json (Device J D)) (d : Device J D) (b : Bytes)
    (s : SqliteSession q) : Type 0 where
  pub text : String
  pub printed : json.to_string d ≡ ok text
  pub saved : q.select 0 (s.device) ≡ some text
  pub signed : q.select d.signed_pre_key_id (s.signed_prekeys) ≡ some b

abbrev pub signed_prekey : {J D N : Type 0} → PairUtils D N → Device J D → Bytes
signed_prekey utils d = utils.signed_pre_key_record d.signed_pre_key_id d.material

module _ {q : Sql} {J D N : Type 0} (json : Json (Device J D)) (utils : PairUtils D N) where
  on_session-ok :
      (wrap : StoreError → ClientError) (m : Exec (SqliteSession q) StoreError (Unit {0}))
      (s : World q J D N)
      → (on_session wrap m s).0 ≡ ok tt
      → (m s.session).0 ≡ ok tt
  on_session-ok wrap m s h = map_err-ok wrap (m s.session).0 tt h

  persist-ok :
      (d : Device J D) (s : World q J D N)
      → (persist json utils d s).0 ≡ ok tt
      → Stored json d (signed_prekey utils d) ((persist json utils d s).1.session)
        × ((persist json utils d s).1.calls ≡ s.calls)
  persist-ok d s h =
      let saving : Exec (World q J D N) ClientError (Unit {0}) =
        on_session (λ e. internal (text_append "failed to save device: " (utils.shown e)))
          (save json d) in
      let storing : Exec (World q J D N) ClientError (Unit {0}) =
        on_session (λ e. internal (text_append "failed to store signed prekey: " (utils.shown e)))
          (store_signed_prekey d.signed_pre_key_id (signed_prekey utils d)) in
      let (u, first, run) = continue-ok (saving s).0 (λ u. storing) (saving s).1 tt h in
      let s1 = (saving s).1 in
      let (text, printed, wrote) =
        save-ok json d s.session (on_session-ok _ (save json d) s first) in
      let stored = store_signed_prekey-ok d.signed_pre_key_id (signed_prekey utils d) s1.session (
        on_session-ok _ (store_signed_prekey d.signed_pre_key_id (signed_prekey utils d)) s1
          (sym (ap (λ x. x.0) run) ∙ h)) in
      (
        record {
          text = text;
          printed = printed;
          saved =
              ap (λ x. q.select 0 (x.1.session.device)) run
              ∙ ap (λ x. q.select 0 (x.device)) stored
              ∙ ap (λ x. q.select 0 (x.device)) wrote
              ∙ select-replaced q 0 text (s.session.device);
          signed =
              ap (λ x. q.select d.signed_pre_key_id (x.1.session.signed_prekeys)) run
              ∙ ap (λ x. q.select d.signed_pre_key_id (x.signed_prekeys)) stored
              ∙ select-replaced q d.signed_pre_key_id (signed_prekey utils d)
                  (s1.session.signed_prekeys);
        },
        ap (λ x. x.1.calls) run,
      )

abbrev pub response : {J D N : Type 0} → PairUtils D N → PairSuccess J → Bytes × ℕ → N
response utils p signed = utils.build_pair_success_response p.req_id signed.0 signed.1

module _ {q : Sql} {J D N K P : Type 0} (w : Wire N K) (jids : Jids J) (json : Json (Device J D))
    (utils : PairUtils D N) (peer : Peer J N P) where
  -- The upload after the pairing leaves the device and the signed prekey.
  announced :
      (d : Device J D) (s : World q J D N)
      → Stored json d (signed_prekey utils d) s.session
      → Stored json d (signed_prekey utils d) ((announce_paired peer d s).session)
  announced d s h =
      let n = length s.calls in
      let u : Uploader q = record { session = s.session; uploads = [] } in
      record {
        text = h.text;
        printed = h.printed;
        saved =
            ap (q.select 0) (
              upload_prekeys_if_needed-else (λ t. t.device) device-Apart (peer.keys n)
                d.next_pre_key_id (peer.prekeys n) u)
            ∙ h.saved;
        signed =
            ap (q.select d.signed_pre_key_id) (
              upload_prekeys_if_needed-else (λ t. t.signed_prekeys) signed_prekeys-Apart
                (peer.keys n) d.next_pre_key_id (peer.prekeys n) u)
            ∙ h.signed;
      }

  accept-ok :
      (d : Device J D) (p : PairSuccess J) (signed : Bytes × ℕ) (s : World q J D N)
      → (accept w jids json utils peer d p signed s).0 ≡ ok tt
      → Stored json
          (updated_device jids p d)
          (signed_prekey utils (updated_device jids p d))
          ((accept w jids json utils peer d p signed s).1.session)
        × Listed
            (sent (response utils p signed))
            ((accept w jids json utils peer d p signed s).1.calls)
  accept-ok d p signed s h =
      let d1 = updated_device jids p d in
      let answering : Exec (World q J D N) ClientError (Unit {0}) =
        respond peer (response utils p signed) in
      let both : Exec (World q J D N) ClientError (Unit {0}) = answering >> persist json utils d1 in
      let last : Exec (World q J D N) ClientError (Unit {0}) =
        λ t. (ok tt, announce_paired peer d1 t) in
      let (u, first, run) = continue-ok (both s).0 (λ v. last) (both s).1 tt h in
      let (v, second, inner) =
        continue-ok (answering s).0 (λ x. persist json utils d1) (answering s).1 u first in
      let (there, calls) =
        persist-ok json utils d1 (answering s).1 (sym (ap (λ x. x.0) inner) ∙ first) in
      let kept =
        subst (λ x. Stored json d1 (signed_prekey utils d1) (x.1.session)) (sym inner) there in
      (
        subst (λ x. Stored json d1 (signed_prekey utils d1) (x.1.session)) (sym run)
            (announced d1 (both s).1 kept),
        subst (λ x. Listed (sent (response utils p signed)) (x.1.calls)) (sym run)
            (inr (
              Listed-append_right _ _ _ (
                subst (λ cs. Listed (sent (response utils p signed)) cs)
                  (sym (ap (λ x. x.1.calls) inner ∙ calls)) (inl refl)))),
      )

  -- Where `handle_pair_success` returns `Ok`, the node and the crypto were good, the response was
  -- sent, the updated device is what the device table holds, and its signed prekey is stored,
  -- whatever the prekey upload and the active IQ after that did.
  pub handle_pair_success-Stores :
      (d : Device J D) (n : N) (s : World q J D N)
      → (handle_pair_success w jids json utils peer d n s).0 ≡ ok tt
      → (p : PairSuccess J) × (signed : Bytes × ℕ) × (read_pair_success w jids n ≡ ok p)
        × (pair_crypto utils d p ≡ ok signed)
        × Stored json
            (updated_device jids p d)
            (signed_prekey utils (updated_device jids p d))
            ((handle_pair_success w jids json utils peer d n s).1.session)
        × Listed
            (sent (response utils p signed))
            ((handle_pair_success w jids json utils peer d n s).1.calls)
  handle_pair_success-Stores d n s h =
      let go : PairSuccess J → Exec (World q J D N) ClientError (Unit {0}) =
        λ p. lift (pair_crypto utils d p) >>= accept w jids json utils peer d p in
      let (p, read, run) = continue-ok (read_pair_success w jids n) go s tt h in
      let (signed, crypt, rest) =
        continue-ok (pair_crypto utils d p) (accept w jids json utils peer d p) s tt
          (sym (ap (λ x. x.0) run) ∙ h) in
      let (stored, answered) = accept-ok d p signed s (sym (ap (λ x. x.0) (run ∙ rest)) ∙ h) in
      (
        p,
        signed,
        read,
        crypt,
        subst
            (λ x.
              Stored json (updated_device jids p d) (signed_prekey utils (updated_device jids p d))
                (x.1.session))
            (sym (run ∙ rest)) stored,
        subst (λ x. Listed (sent (response utils p signed)) (x.1.calls)) (sym (run ∙ rest))
            answered,
      )
