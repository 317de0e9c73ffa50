-- ===== src/Session/Sql/Log.antt =====
-- A table as the log of the statements that changed it, the latest first. It keeps all that `Sql`
-- promises.
use waepic.Prelude.{
  List, [], ◌∷◌, ◌≡◌, refl, Option, none, some, Bool, not, HasEq, ◌==◌, if◌then◌else◌, keep, arith,
  false, inl, inr, Bool-cases, Option-cases, sym, ap, ◌∙◌, Listed, Listed-keep, kept-Listed,
}
use waepic.Session.Sql.{Sql, spared}

pub data Change (K R : Type 0) : Type 0 where
  replaced : K → R → Change K R
  deleted : (K → R → Bool) → Change K R

abbrev pub spares : {K R : Type 0} → (K → R → Bool) → K × R → Bool
spares p e = not (p e.0 e.1)

pair_path : {A B : Type 0} {a c : A} {b d : B} → a ≡ c → b ≡ d → ◌≡◌ {A = A × B} (a, b) (c, d)
pair_path p q = cc

left_row :
    {R : Type 0} (p : R → Bool) (o : Option R) (w r : R)
    → o ≡ some w
    → spared p o ≡ some r
    → (w ≡ r) × (p r ≡ false)
left_row p none w r f h = ground arith
left_row p (some v) w r f h = elim (Bool-cases (p v)) [
  | inl gone ↦ ground (arith, gone, h)
  | inr stays ↦
      let same : v ≡ r = ground (arith, stays, h) in
      let first : v ≡ w = ground arith in (sym first ∙ same, ap p (sym same) ∙ stays)
]

module _ {K R : Type 0} ⦃e : HasEq K⦄ where
  abbrev pub select : K → List (Change K R) → Option R
  select j [] = none
  select j (replaced k r ∷ t) = let rest = select j t in if k == j then some r else rest
  select j (deleted p ∷ t) = spared (p j) (select j t)

  abbrev pub rows : List (Change K R) → List (K × R)
  rows [] = []
  rows (replaced k r ∷ t) = (k, r) ∷ keep (λ e. not (k == e.0)) (rows t)
  rows (deleted p ∷ t) = keep (spares p) (rows t)

  abbrev pub newest : List (Change K R) → Option K
  newest [] = none
  newest (replaced k r ∷ t) = some k
  newest (deleted p ∷ t) = elim (keep (spares p) (rows t)) [ [] ↦ none | e ∷ es ↦ some (e.0) ]

  pub select-selects :
      (k : K) (r : R) (t : List (Change K R)) → Listed (k, r) (rows t) → select k t ≡ some r
  select-selects k r [] m = elim m [ ]
  select-selects k r (replaced j w ∷ t) (inl same) =
      rw ((e.beq_iff j k).1 (ap (λ x. x.0) same)) (ap (λ x. some (x.1)) same)
  select-selects k r (replaced j w ∷ t) (inr rest) =
      let there = kept-Listed (λ x. not (j == x.0)) (k, r) (rows t) rest in
      ground (arith, there.0, select-selects k r t there.1)
  select-selects k r (deleted p ∷ t) m =
      let there = kept-Listed (spares p) (k, r) (rows t) m in
      rw (select-selects k r t there.1) (ground (arith, there.0))

  pub rows-lists :
      (k : K) (r : R) (t : List (Change K R)) → select k t ≡ some r → Listed (k, r) (rows t)
  rows-lists k r [] h = ground arith
  rows-lists k r (replaced j w ∷ t) h = elim (Bool-cases (j == k)) [
    | inl same ↦
        let found : w ≡ r = ground (arith, same, h) in
        inl (pair_path ((e.beq_iff j k).0 same) found)
    | inr other ↦ inr (
        Listed-keep (λ x. not (j == x.0)) (k, r) (rows t) (rw other refl)
          (rows-lists k r t (rw other at h)))
  ]
  rows-lists k r (deleted p ∷ t) h = elim (Option-cases (select k t)) [
    | inl absent ↦ ground (arith, absent, h)
    | inr (w, found) ↦
        let there : (w ≡ r) × (p k r ≡ false) = left_row (p k) (select k t) w r found h in
        Listed-keep (spares p) (k, r) (rows t) (rw (there.1) refl)
          (rows-lists k r t (found ∙ ap some (there.0)))
  ]

abbrev pub log : Sql
log = record {
  Table = λ K R. List (Change K R);
  empty = [];
  select = select;
  replace = λ k r t. replaced k r ∷ t;
  delete = λ p t. deleted p ∷ t;
  rows = rows;
  newest = newest;
  select-replace = λ k j r t. refl;
  select-delete = λ p j t. refl;
  rows-listed = rows-lists;
  rows-selected = select-selects;
  newest-replace = λ k r t. refl;
}
