-- ===== src/Connection/Waiters.antt =====
-- The IQ waiters: each response channel that `send_iq` registers is answered once at most, and no
-- step loses one. The steps interleave as the handle and the runner take them.
use waepic.Prelude.{
  ℕ, ◌+◌, List, [], ◌∷◌, ◌++◌, Option, none, some, String, true, ◌≡◌, refl, arith, map, text_eq,
}
use waepic.Prelude.Outcome.{Result, ok}
use waepic.Prelude.Map.{Map, get}
use waepic.Prelude.Map.Values.{
  count, count-append, values, Unique, remove-Unique, insert-Unique, count-values-remove,
  count-values-insert,
}
use waepic.Connection.Error.{ConnectionError}
use waepic.Connection.Ports.{Crypto, Transport, Wire, Decoder}
use waepic.Connection.State.{Shared, Live, RunnerFields, RawEvent, broadcast}
use waepic.Connection.State
use waepic.Connection.Frame.{hand_to}
use waepic.Connection.Lifecycle.{turn_away, cleanup_connection}
use waepic.Connection.ReadLoop.{Wakeup, turn, state_of}
use waepic.Connection.ReadLoop.Keeps.{Rules, turn-keeps}
use waepic.Connection.Runner.{taken_down}
use waepic.Connection.Handle.{InfoQuery, begin_iq, choose_id, register}

abbrev pub answered : {N : Type 0} → List (ℕ × Result ConnectionError N) → List ℕ
answered = map (λ a. a.0)

-- How often a waiter stands among those that wait and those that have been answered.
abbrev pub tally : {N : Type 0} → ℕ → Shared N → ℕ
tally k s = count k (values s.iq_waiters) + count k (answered s.answers)

-- `ks` are the waiters registered so far.
pub record Accounts {N : Type 0} (ks : List ℕ) (s : Shared N) : Type 0 where
  pub unique : Unique s.iq_waiters
  pub balance : (k : ℕ) → tally k s ≡ count k ks

answered-append :
    {N : Type 0} (xs ys : List (ℕ × Result ConnectionError N))
    → answered (xs ++ ys) ≡ answered xs ++ answered ys
answered-append [] ys = refl
answered-append (x ∷ xs) ys = rw (answered-append xs ys)

answered-turn_away : (N : Type 0) (m : Map String ℕ) → answered (turn_away {N = N} m) ≡ values m
answered-turn_away N [] = refl
answered-turn_away N ((id, k) ∷ m) = rw (answered-turn_away N m)

module _ {N K : Type 0} (w : Wire N K) (ks : List ℕ) where
  hand_to-Accounts :
      (n : N) (id : String) (k : ℕ) (s : Shared N)
      → get id s.iq_waiters ≡ some k
      → Accounts ks s
      → Accounts ks (hand_to id n (some k) s)
  hand_to-Accounts n id k s found h = record {
    unique = remove-Unique id s.iq_waiters h.unique;
    balance = λ x.
        rw
          (answered-append s.answers ((k, ok n) ∷ []), count-append x (answered s.answers) (k ∷ []))
          (omega (arith, h.balance x, count-values-remove x id k s.iq_waiters h.unique found));
  }

  rules : Rules w (Accounts ks)
  unfolding broadcast
  rules = record {
    on_broadcast = λ e s h. record { unique = h.unique; balance = h.balance };
    on_failure = λ n s _ h. record { unique = h.unique; balance = h.balance };
    on_answer = λ n id k s found h. hand_to-Accounts n id k s found h;
    on_reply = λ k r s h. record { unique = h.unique; balance = h.balance };
  }

  taken_down-Accounts :
      {C T : Type 0} (net : Transport T) (f : RunnerFields C T N)
      → Accounts ks f.shared
      → Accounts ks (taken_down net f).shared
  unfolding broadcast cleanup_connection
  taken_down-Accounts net f h = record {
    unique = tt;
    balance = λ x.
        rw
          (
            answered-append f.answers (turn_away f.iq_waiters),
            answered-turn_away N f.iq_waiters,
            count-append x (answered f.answers) (values f.iq_waiters),
          )
          (omega (arith, h.balance x));
  }

  begin_iq-Accounts :
      (q : InfoQuery K) (k : ℕ) (s : Shared N)
      → get (choose_id q.id s).0 s.iq_waiters ≡ none
      → Accounts ks s
      → Accounts (k ∷ ks) (begin_iq w q k s).1
  unfolding begin_iq
  begin_iq-Accounts q k s free h = chosen q.id free
    where
      chosen :
          (o : Option String)
          → get (choose_id o s).0 s.iq_waiters ≡ none
          → Accounts (k ∷ ks) (register (choose_id o s).0 k (choose_id o s).1)
      chosen none free' = record {
        unique = insert-Unique _ k s.iq_waiters h.unique;
        balance = λ x.
            omega
              (arith, h.balance x, count-values-insert x (choose_id none s).0 k s.iq_waiters free');
      }
      chosen (some id) free' = record {
        unique = insert-Unique id k s.iq_waiters h.unique;
        balance = λ x. omega (arith, h.balance x, count-values-insert x id k s.iq_waiters free');
      }

module _ {C T N K D : Type 0} (crypto : Crypto C) (net : Transport T) (w : Wire N K)
    (dec : Decoder D) where
  -- Every state that the handles and the runner can bring about, with the waiters registered on the
  -- way, where no IQ is begun under an id that still waits.
  pub data Reach : List ℕ → Shared N → Type 0 where
    start : {s : Shared N} → s ≡ State.fresh → Reach [] s
    begins :
        {ks : List ℕ} {s t : Shared N}
        → Reach ks s
        → (q : InfoQuery K) (k : ℕ) → get (choose_id q.id s).0 s.iq_waiters ≡ none
        → t ≡ (begin_iq w q k s).1
        → Reach (k ∷ ks) t
    connects :
        {ks : List ℕ} {s t : Shared N}
        → Reach ks s
        → t ≡ broadcast State.connected (record s { is_connected = true })
        → Reach ks t
    turns :
        {ks : List ℕ} {t : Shared N} (d : D) (s : Live C T N) (e : Wakeup N)
        → Reach ks s.shared
        → t ≡ (state_of (turn crypto net w dec e (d, s))).1.shared
        → Reach ks t
    takes_down :
        {ks : List ℕ} {t : Shared N} (f : RunnerFields C T N)
        → Reach ks f.shared
        → t ≡ (taken_down net f).shared
        → Reach ks t

  pub Reach-Accounts : {ks : List ℕ} {s : Shared N} → Reach ks s → Accounts ks s
  unfolding broadcast
  Reach-Accounts (start e) = rw e (record { unique = tt; balance = λ x. refl })
  Reach-Accounts (begins {ks = ks} {s = s} r q k free e) =
      rw e (begin_iq-Accounts w ks q k s free (Reach-Accounts r))
  Reach-Accounts (connects r e) =
      let h = Reach-Accounts r in rw e (record { unique = h.unique; balance = h.balance })
  Reach-Accounts (turns {ks = ks} d s e r eq) =
      rw eq (turn-keeps w (Accounts ks) (rules w ks) crypto net dec e (d, s) (Reach-Accounts r))
  Reach-Accounts (takes_down {ks = ks} f r e) =
      rw e (taken_down-Accounts w ks net f (Reach-Accounts r))
