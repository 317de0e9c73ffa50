-- ===== src/Session/Signal/Prekeys.antt =====
-- What holds of the stored prekeys: the ids that are free, and the marks of an upload.
use mathlib.Core.Path.{subst}
use waepic.Prelude.{
  ℕ, ◌≤◌, max, List, [], ◌∷◌, Option, none, some, Bool, true, false, if_true, if_false, ◌++◌, ◌||◌,
  ◌==◌, nat_eq, ◌≡◌, refl, ap, ◌∙◌, sym, if◌then◌else◌, ◌⊎◌, inl, inr, Bool-cases, arith, Listed,
  any,
}
use waepic.Prelude.Outcome.{ok, continue, pure}
use waepic.Prelude.Outcome.Batch.{write_all}
use waepic.Session.Sql.{Sql}
use waepic.Session.Schema.{SqliteSession, PrekeyRow}
use waepic.Session.Schema.Quiet.{Quiet, select_all-Quiet}
use waepic.Session.Schema.Failing.{statement-Attempt, prepared-Partly}
use waepic.Session.Signal.{
  get_max_prekey_id, prekeys_table, max_id, larger, or_zero, mark_prekeys_uploaded, mark_uploaded,
  marked,
}

larger_bound : (k i : ℕ) (o : Option ℕ) → (k ≡ i) ⊎ (k ≤ or_zero o) → k ≤ or_zero (larger i o)
larger_bound k i none h = ground arith
larger_bound k i (some m) h = ground arith

max_id_bound :
    (k : ℕ) (r : PrekeyRow) (rows : List (ℕ × PrekeyRow))
    → Listed (k, r) rows
    → k ≤ or_zero (max_id rows)
max_id_bound k r [] m = elim m [ ]
max_id_bound k r ((i, w) ∷ rows) (inl same) =
    larger_bound k i (max_id rows) (inl (sym (ap (λ x. x.0) same)))
max_id_bound k r ((i, w) ∷ rows) (inr rest) =
    larger_bound k i (max_id rows) (inr (max_id_bound k r rows rest))

abbrev Held : List (ℕ × PrekeyRow) → ℕ → Type 0
Held rows n = (r : PrekeyRow) × Listed (n, r) rows

max-either : (a b : ℕ) → (max a b ≡ a) ⊎ (max a b ≡ b)
max-either a b = ground arith

larger-Held :
    (i : ℕ) (w : PrekeyRow) (rows : List (ℕ × PrekeyRow)) (o : Option ℕ)
    → (or_zero o ≡ 0) ⊎ Held rows (or_zero o)
    → (or_zero (larger i o) ≡ 0) ⊎ Held ((i, w) ∷ rows) (or_zero (larger i o))
larger-Held i w rows none h = inr (w, inl refl)
larger-Held i w rows (some m) h = elim (max-either i m) [
  | inl first ↦ inr (subst (Held ((i, w) ∷ rows)) (sym first) (w, inl refl))
  | inr second ↦ elim h [
    | inl nought ↦ inl (second ∙ nought)
    | inr held ↦ inr (subst (Held ((i, w) ∷ rows)) (sym second) (held.0, inr (held.1)))
  ]
]

max_id-Held :
    (rows : List (ℕ × PrekeyRow)) → (or_zero (max_id rows) ≡ 0) ⊎ Held rows (or_zero (max_id rows))
max_id-Held [] = inl refl
max_id-Held ((i, w) ∷ rows) = larger-Held i w rows (max_id rows) (max_id-Held rows)

-- While the statement succeeds, the maximum is an id that no stored prekey exceeds, and it is
-- stored itself unless it is 0.
pub get_max_prekey_id-bound :
    {q : Sql} (s : SqliteSession q)
    → Quiet s
    → (n : ℕ) × ((get_max_prekey_id s).0 ≡ ok n)
      × ((k : ℕ) (r : PrekeyRow) → q.select k (s.prekeys) ≡ some r → k ≤ n)
      × ((n ≡ 0) ⊎ ((r : PrekeyRow) × (q.select n (s.prekeys) ≡ some r)))
get_max_prekey_id-bound {q} s h = (
  or_zero (max_id (q.rows (s.prekeys))),
  ap (λ x. (continue x.0 (λ rows. pure (or_zero (max_id rows))) x.1).0)
      (select_all-Quiet prekeys_table s h),
  λ k r stored. max_id_bound k r _ (q.rows-listed k r (s.prekeys) stored),
  elim (max_id-Held (q.rows (s.prekeys))) [
    | inl zero ↦ inl zero
    | inr (r, listed) ↦ inr (r, q.rows-selected _ r (s.prekeys) listed)
  ],
)

abbrev pub set_if : Bool → Option PrekeyRow → Option PrekeyRow
set_if b none = none
set_if b (some r) = if b then some (record r { uploaded = true }) else some r

unmarked : (b : Bool) (o : Option PrekeyRow) → b ≡ false → set_if b o ≡ o
unmarked b none h = refl
unmarked b (some r) h = if_false _ _ h

marked_row :
    {b : Bool} {o : Option PrekeyRow} {r : PrekeyRow}
    → b ≡ true
    → o ≡ some r
    → set_if b o ≡ some (record r { uploaded = true })
marked_row {b} {o} h k = ap (set_if b) k ∙ if_true _ _ h

-- A row that is there is marked, one that is not stays absent.
select-marked :
    (q : Sql) (k id : ℕ) (t : q.Table ℕ PrekeyRow) (o : Option PrekeyRow)
    → q.select id t ≡ o
    → q.select k (marked q id o t) ≡ set_if (id == k) (q.select k t)
select-marked q k id t none h = elim (Bool-cases (id == k)) [
  | inl same ↦
      let here : q.select k t ≡ none =
        ap (λ i. q.select i t) (sym ((nat_eq.beq_iff id k).0 same)) ∙ h in
      here ∙ sym (ap (set_if (id == k)) here)
  | inr differ ↦ sym (unmarked _ (q.select k t) differ)
]
select-marked q k id t (some r) h = elim (Bool-cases (id == k)) [
  | inl same ↦
      let here : q.select k t ≡ some r =
        ap (λ i. q.select i t) (sym ((nat_eq.beq_iff id k).0 same)) ∙ h in
      q.select-replace id k (record r { uploaded = true }) t
      ∙ if_true _ _ same
      ∙ sym (marked_row same here)
  | inr differ ↦
      q.select-replace id k (record r { uploaded = true }) t
      ∙ if_false _ _ differ
      ∙ sym (unmarked _ (q.select k t) differ)
]

abbrev mark_each : (q : Sql) → List ℕ → q.Table ℕ PrekeyRow → q.Table ℕ PrekeyRow
mark_each q = write_all (λ id t. marked q id (q.select id t) t)

set_if_twice : (b c : Bool) (o : Option PrekeyRow) → set_if c (set_if b o) ≡ set_if (b || c) o
set_if_twice b c none = refl
set_if_twice true true (some r) = refl
set_if_twice true false (some r) = refl
set_if_twice false c (some r) = refl

select-mark_each :
    (q : Sql) (k : ℕ) (ids : List ℕ) (t : q.Table ℕ PrekeyRow)
    → q.select k (mark_each q ids t) ≡ set_if (any (λ id. id == k) ids) (q.select k t)
select-mark_each q k [] t = sym (unmarked false (q.select k t) refl)
select-mark_each q k (id ∷ ids) t =
    select-mark_each q k ids (marked q id (q.select id t) t)
    ∙ ap (set_if (any (λ i. i == k) ids)) (select-marked q k id t (q.select id t) refl)
    ∙ set_if_twice (id == k) (any (λ i. i == k) ids) (q.select k t)

-- Whichever statement fails: the ids of a first part of the list are marked as uploaded where a
-- prekey is stored, no other prekey and no record changes, and `Ok` means that the part is the
-- whole list.
pub mark_prekeys_uploaded-Marks :
    {q : Sql} (s : SqliteSession q) (ids : List ℕ)
    → (done : List ℕ) × (rest : List ℕ) × (ids ≡ done ++ rest)
      × ((k : ℕ)
          → q.select k ((mark_prekeys_uploaded ids s).1.prekeys)
            ≡ set_if (any (λ id. id == k) done) (q.select k (s.prekeys)))
      × ((mark_prekeys_uploaded ids s).0 ≡ ok tt → rest ≡ [])
mark_prekeys_uploaded-Marks {q} s ids =
    let (done, rest, split, wrote, all) =
      prepared-Partly (λ s. s.prekeys) (λ id t. marked q id (q.select id t) t) mark_uploaded
        (λ id s.
          statement-Attempt (λ s. s.prekeys) (λ t. marked q id (q.select id t) t) _ s refl refl
            refl)
        ids s refl in
    (done, rest, split, λ k. ap (q.select k) wrote ∙ select-mark_each q k done (s.prekeys), all)
