-- ===== src/Client/Pairing/Qr/Expiry.antt =====
-- A pairing that nobody scans shows every code and ends.
use mathlib.Core.Path.{subst}
use waepic.Prelude.{
  ℕ, suc, ◌≤◌, List, [], ◌∷◌, some, true, false, String, ◌≡◌, refl, ap, ◌∙◌, sym, nat_eq, length,
  inl, inr, if_true, if_false, arith,
}
use waepic.Prelude.Outcome.{ok}
use waepic.Connection.Ports.{Wire}
use waepic.Connection.State.{node, connected, disconnected, error}
use waepic.Session.Sql.{Sql}
use waepic.Session.Schema.{SqliteSession}
use waepic.Session.AppSync.{Json}
use waepic.Session.Protocol.{parsed}
use waepic.Session.Device.Loaded.{load-either}
use waepic.Client.Error.{auth, qr_expired}
use waepic.Client.World.{Jids, Device, World, Peer}
use waepic.Client.Pairing.Nodes.{is_pair_success_node}
use waepic.Client.Pairing.Success.{PairUtils}
use waepic.Client.Pairing.Qr.{
  PairEvent, qr_code, failed, got, lost, Wake, received, deadline, written, Pairing, is_paired,
  is_already_paired, QrOutside, hold, rotate, timeout_secs, emit,
}

-- Every code, then the expiry.
abbrev pub expired_codes : ℕ → List String → List PairEvent
expired_codes i [] = failed (auth qr_expired) ∷ []
expired_codes i (c ∷ codes) = qr_code c (timeout_secs i) ∷ expired_codes (suc i) codes

module _ {q : Sql} {J D : Type 0} (json : Json (Device J D)) where
  -- The stored device, if there is one, is not paired.
  abbrev pub Unpaired : SqliteSession q → Type 0
  Unpaired s = is_paired (parsed json (q.select 0 (s.device))) ≡ false

  is_already_paired-Unpaired :
      {N : Type 0} (s : World q J D N)
      → Unpaired s.session
      → ((is_already_paired json s).0 ≡ false)
        × ((is_already_paired json s).1.session.device ≡ s.session.device)
  is_already_paired-Unpaired s h = elim (load-either json s.session) [
    | inl runs ↦ (ap (λ x. is_paired (x.0)) runs ∙ h, ap (λ x. x.1.device) runs)
    | inr (m, stops) ↦ (ap (λ x. is_paired (x.0)) stops, ap (λ x. x.1.device) stops)
  ]

-- Nothing in it pairs, ends the connection or writes the session.
abbrev pub Calm : {q : Sql} {N K : Type 0} → Wire N K → List (Wake q N) → Type 0
Calm w [] = Unit
Calm w (deadline ∷ ws) = Calm w ws
Calm w (written t ∷ ws) = ⊥
Calm w (received lost ∷ ws) = ⊥
Calm w (received (got disconnected) ∷ ws) = ⊥
Calm w (received (got connected) ∷ ws) = Calm w ws
Calm w (received (got (error m)) ∷ ws) = Calm w ws
Calm w (received (got (node n)) ∷ ws) = (is_pair_success_node w n ≡ false) × Calm w ws

abbrev pub deadlines : {q : Sql} {N : Type 0} → List (Wake q N) → ℕ
deadlines [] = 0
deadlines (deadline ∷ ws) = suc (deadlines ws)
deadlines (written t ∷ ws) = deadlines ws
deadlines (received r ∷ ws) = deadlines ws

module _ {q : Sql} {J D N K P : Type 0} (w : Wire N K) (jids : Jids J) (json : Json (Device J D))
    (utils : PairUtils D N) (peer : Peer J N P) (o : QrOutside D) where
  hold-Calm :
      (d : Device J D) (next : List (Wake q N) → World q J D N → Pairing q J D N) (m : ℕ)
      (ws : List (Wake q N)) (s : World q J D N)
      → Calm w ws
      → suc m ≤ deadlines ws
      → (rest : List (Wake q N)) × Calm w rest
        × (m ≤ deadlines rest)
        × (hold w jids json utils peer o d next ws s ≡ next rest s)
  hold-Calm d next m [] s h k = absurd (omega arith)
  hold-Calm d next m (deadline ∷ ws) s h k = (ws, h, omega arith, refl)
  hold-Calm d next m (written t ∷ ws) s h k = absurd h
  hold-Calm d next m (received lost ∷ ws) s h k = absurd h
  hold-Calm d next m (received (got disconnected) ∷ ws) s h k = absurd h
  hold-Calm d next m (received (got connected) ∷ ws) s h k = hold-Calm d next m ws s h k
  hold-Calm d next m (received (got (error e)) ∷ ws) s h k = hold-Calm d next m ws s h k
  hold-Calm d next m (received (got (node n)) ∷ ws) s h k =
      let (rest, calm, left, same) = hold-Calm d next m ws s h.1 k in
      (rest, calm, left, if_false _ _ h.0 ∙ same)

  -- While no device is paired, the stream stays open, and nothing pairs or ends the connection:
  -- as many deadlines as there are codes suffice for the rotation to end, having shown each code
  -- with its time and then the expiry.
  pub rotate-Expires :
      (d : Device J D) (i : ℕ) (codes : List String) (ws : List (Wake q N)) (s : World q J D N)
      → Unpaired json s.session
      → ((n : ℕ) → o.is_open n ≡ true)
      → Calm w ws
      → length codes ≤ deadlines ws
      → ((rotate w jids json utils peer o d i codes ws s).events ≡ expired_codes i codes)
        × ((rotate w jids json utils peer o d i codes ws s).result ≡ some (ok tt))
  rotate-Expires d i [] ws s h heard calm enough = (refl, refl)
  rotate-Expires d i (c ∷ codes) ws s h heard calm enough =
      let (new, kept) = is_already_paired-Unpaired json s h in
      let s1 = (is_already_paired json s).1 in
      let (rest, calm', left, held) =
        hold-Calm d (rotate w jids json utils peer o d (suc i) codes) (length codes) ws s1 calm
          enough in
      let (shown, ended) =
        rotate-Expires d (suc i) codes rest s1
          (subst (λ t. is_paired (parsed json (q.select 0 t)) ≡ false) (sym kept) h) heard calm'
          left in
      let step : rotate w jids json utils peer o d i (c ∷ codes) ws s
          ≡ emit (qr_code c (timeout_secs i))
              (rotate w jids json utils peer o d (suc i) codes rest s1) =
        if_false _ _ new ∙ ap (emit (qr_code c (timeout_secs i))) (if_true _ _ (heard i) ∙ held) in
      (
        ap (λ p. p.events) step ∙ ap (λ es. qr_code c (timeout_secs i) ∷ es) shown,
        ap (λ p. p.result) step ∙ ended,
      )
