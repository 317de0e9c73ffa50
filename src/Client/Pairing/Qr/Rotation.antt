-- ===== src/Client/Pairing/Qr/Rotation.antt =====
-- The codes that a QR pairing shows, and the flag that it leaves.
use mathlib.Core.Path.{subst}
use waepic.Prelude.{
  ℕ, suc, List, [], ◌∷◌, map, Option, none, some, true, false, String, ◌≡◌, refl, sym, inl, inr,
  Listed, if_intro, Option-cases, clash,
}
use waepic.Prelude.Outcome.{Result, ok, err}
use waepic.Connection.Ports.{Wire}
use waepic.Connection.State.{node, connected, disconnected, error}
use waepic.Session.Sql.{Sql}
use waepic.Session.AppSync.{Json}
use waepic.Client.Error.{ClientError, auth, qr_expired}
use waepic.Client.Error
use waepic.Client.World.{Jids, Device, World, Peer}
use waepic.Client.Pairing.Nodes.{
  is_pair_device_node, is_pair_success_node, extract_pair_device_refs,
}
use waepic.Client.Pairing.Success.{PairUtils}
use waepic.Client.Pairing.Qr.{
  PairEvent, qr_code, success, failed, got, lost, Wake, received, deadline, written, Pairing,
  ends_with, waiting, is_already_paired, QrOutside, acknowledge, reply_to, wait_for_refs, concluded,
  paired, hold, rotate, with_refs, run_qr_pairing, timeout_secs,
}

abbrev pub IsFinal : PairEvent → Type 0
IsFinal (qr_code c t) = ⊥
IsFinal success = Unit
IsFinal (failed e) = Unit

-- Codes from the `i`-th on, each with its time, then one last event at most.
pub data Shown : ℕ → List String → List PairEvent → Type 0 where
  silent : {i : ℕ} {codes : List String} → Shown i codes []
  last : {i : ℕ} {codes : List String} (e : PairEvent) → IsFinal e → Shown i codes (e ∷ [])
  code :
      {i : ℕ} {codes : List String} {es : List PairEvent} (c : String)
      → Shown (suc i) codes es
      → Shown i (c ∷ codes) (qr_code c (timeout_secs i) ∷ es)

-- The window flag is up only where the pairing has announced its success.
abbrev pub Honest : {q : Sql} {J D N : Type 0} → Pairing q J D N → Type 0
Honest p = p.world.post_pair_reconnect ≡ true → Listed success p.events

abbrev Found : Sql → Type 0 → Type 0 → Type 0 → Type 0
Found q J D N = Option (Result ClientError (List String × List (Wake q N))) × World q J D N

module _ {q : Sql} {J D N K P : Type 0} (w : Wire N K) (jids : Jids J) (json : Json (Device J D))
    (utils : PairUtils D N) (peer : Peer J N P) (o : QrOutside D) where
  abbrev Lowered : World q J D N → Type 0
  Lowered s = s.post_pair_reconnect ≡ false

  -- What holds however the wait for one code ends holds of the wait.
  hold-ends :
      (Q : Pairing q J D N → Type 0) (d : Device J D)
      (next : List (Wake q N) → World q J D N → Pairing q J D N)
      → ((s : World q J D N) → Lowered s → Q (waiting s))
      → ((s : World q J D N) → Lowered s → Q (ends_with (failed Error.not_connected) s))
      → ((n : N) (s : World q J D N) → Q (paired w jids json utils peer o d n s))
      → ((ws : List (Wake q N)) (s : World q J D N) → Lowered s → Q (next ws s))
      → (ws : List (Wake q N)) (s : World q J D N) → Lowered s
      → Q (hold w jids json utils peer o d next ws s)
  hold-ends Q d next a b c e [] s h = a s h
  hold-ends Q d next a b c e (deadline ∷ ws) s h = e ws s h
  hold-ends Q d next a b c e (written t ∷ ws) s h = hold-ends Q d next a b c e ws _ h
  hold-ends Q d next a b c e (received lost ∷ ws) s h = b s h
  hold-ends Q d next a b c e (received (got disconnected) ∷ ws) s h = b s h
  hold-ends Q d next a b c e (received (got connected) ∷ ws) s h = hold-ends Q d next a b c e ws s h
  hold-ends Q d next a b c e (received (got (error m)) ∷ ws) s h = hold-ends Q d next a b c e ws s h
  hold-ends Q d next a b c e (received (got (node n)) ∷ ws) s h =
      if_intro Q (is_pair_success_node w n) _ _ (λ yes_. c n s)
        (λ no_. hold-ends Q d next a b c e ws s h)

  concluded-Honest :
      (r : Result ClientError (Unit {0})) (s : World q J D N)
      → Honest (concluded w jids json utils peer o (r, s))
  concluded-Honest (ok u) s h = inl refl
  concluded-Honest (err e) s h = clash refl h

  concluded-Shown :
      (i : ℕ) (codes : List String) (r : Result ClientError (Unit {0})) (s : World q J D N)
      → Shown i codes ((concluded w jids json utils peer o (r, s)).events)
  concluded-Shown i codes (ok u) s = last success tt
  concluded-Shown i codes (err e) s = last (failed e) tt

  rotate-Shown :
      (d : Device J D) (i : ℕ) (codes : List String) (ws : List (Wake q N)) (s : World q J D N)
      → Lowered s
      → Shown i codes ((rotate w jids json utils peer o d i codes ws s).events)
  rotate-Shown d i [] ws s h = last (failed (auth qr_expired)) tt
  rotate-Shown d i (c ∷ codes) ws s h =
      let s1 = (is_already_paired json s).1 in
      if_intro (λ (p : Pairing q J D N). Shown i (c ∷ codes) p.events) (is_already_paired json s).0
        _ _ (λ known. last success tt)
        (λ new. code c (
          if_intro (λ (p : Pairing q J D N). Shown (suc i) codes p.events) (o.is_open i) _ _
            (λ heard.
              hold-ends (λ p. Shown (suc i) codes p.events) d
                (rotate w jids json utils peer o d (suc i) codes) (λ t k. silent)
                (λ t k. last (failed Error.not_connected) tt)
                (λ n t. concluded-Shown (suc i) codes _ _)
                (λ vs t k. rotate-Shown d (suc i) codes vs t k) ws s1 h)
            (λ closed. silent)))

  rotate-Honest :
      (d : Device J D) (i : ℕ) (codes : List String) (ws : List (Wake q N)) (s : World q J D N)
      → Lowered s
      → Honest (rotate w jids json utils peer o d i codes ws s)
  rotate-Honest d i [] ws s h = λ k. clash h k
  rotate-Honest d i (c ∷ codes) ws s h =
      let s1 = (is_already_paired json s).1 in
      if_intro (λ (p : Pairing q J D N). Honest p) (is_already_paired json s).0 _ _
        (λ known k. inl refl)
        (λ new k. inr (
          if_intro (λ (p : Pairing q J D N). Honest p) (o.is_open i) _ _
            (λ heard.
              hold-ends (λ p. Honest p) d (rotate w jids json utils peer o d (suc i) codes)
                (λ t l m. clash l m) (λ t l m. clash l m) (λ n t. concluded-Honest _ _)
                (λ vs t l. rotate-Honest d (suc i) codes vs t l) ws s1 h)
            (λ closed m. clash h m) k))

  reply_to-Lowered :
      (id : Option String) (s : World q J D N)
      → Lowered s
      → Lowered (reply_to w jids json utils peer o id s)
  reply_to-Lowered none s h = h
  reply_to-Lowered (some id) s h = h

  abbrev chosen : Option (List String) → N → List (Wake q N) → World q J D N → Found q J D N
  chosen refs n ws s = elim refs [
    | none ↦ wait_for_refs w jids json utils peer o ws (acknowledge w jids json utils peer o n s)
    | some r ↦ (some (ok (r, ws)), acknowledge w jids json utils peer o n s)
  ]

  wait_for_refs-Lowered :
      (ws : List (Wake q N)) (s : World q J D N)
      → Lowered s
      → Lowered ((wait_for_refs w jids json utils peer o ws s).1)
  wait_for_refs-Lowered [] s h = h
  wait_for_refs-Lowered (deadline ∷ ws) s h = wait_for_refs-Lowered ws s h
  wait_for_refs-Lowered (written t ∷ ws) s h = wait_for_refs-Lowered ws _ h
  wait_for_refs-Lowered (received lost ∷ ws) s h = h
  wait_for_refs-Lowered (received (got disconnected) ∷ ws) s h = h
  wait_for_refs-Lowered (received (got connected) ∷ ws) s h = wait_for_refs-Lowered ws s h
  wait_for_refs-Lowered (received (got (error m)) ∷ ws) s h = wait_for_refs-Lowered ws s h
  wait_for_refs-Lowered (received (got (node n)) ∷ ws) s h =
      let refs = extract_pair_device_refs w o.from_utf8 n in
      let acked = reply_to-Lowered (w.attr n "id") s h in
      if_intro (λ (x : Found q J D N). Lowered x.1) (is_pair_device_node w n) _ _
        (λ yes_. elim (Option-cases refs) [
          | inl absent ↦
              subst (λ r. Lowered ((chosen r n ws s).1)) (sym absent)
                (wait_for_refs-Lowered ws _ acked)
          | inr (r, there) ↦ subst (λ x. Lowered ((chosen x n ws s).1)) (sym there) acked
        ])
        (λ no_. wait_for_refs-Lowered ws s h)

  -- The codes of the refs that were found.
  abbrev pub codes_of :
      Device J D → Option (Result ClientError (List String × List (Wake q N))) → List String
  codes_of d none = []
  codes_of d (some (err e)) = []
  codes_of d (some (ok (refs, ws))) = map (o.make_qr_data d.material) refs

  with_refs_lem :
      (d : Device J D) (r : Option (Result ClientError (List String × List (Wake q N))))
      (s : World q J D N)
      → Lowered s
      → Shown 0 (codes_of d r) ((with_refs w jids json utils peer o d (r, s)).events)
        × Honest (with_refs w jids json utils peer o d (r, s))
  with_refs_lem d none s h = (silent, λ k. clash h k)
  with_refs_lem d (some (err e)) s h = (silent, λ k. clash h k)
  with_refs_lem d (some (ok (refs, ws))) s h = (
    rotate-Shown d 0 (map (o.make_qr_data d.material) refs) ws s h,
    rotate-Honest d 0 (map (o.make_qr_data d.material) refs) ws s h,
  )

  -- From a lowered window flag: the events are codes of the refs that were found, in order and
  -- each with its time, then one last event at most, and the flag is up afterwards only if
  -- `Success` was announced.
  pub run_qr_pairing-Shown :
      (d : Device J D) (ws : List (Wake q N)) (s : World q J D N)
      → s.post_pair_reconnect ≡ false
      → Shown 0
          (codes_of d (wait_for_refs w jids json utils peer o ws s).0)
          ((run_qr_pairing w jids json utils peer o d ws s).events)
        × Honest (run_qr_pairing w jids json utils peer o d ws s)
  run_qr_pairing-Shown d ws s h =
      with_refs_lem d (wait_for_refs w jids json utils peer o ws s).0 _
        (wait_for_refs-Lowered ws s h)
