-- ===== src/Session/Sql.antt =====
-- What waepic-session/src/sqlite asks of SQLite, which is not part of the repository: a table with
-- a primary key of type `K` and the other columns in a row of type `R`. `newest` is the key of the
-- row with the largest rowid. The fields after it are the documented effects of the statements.
pub mod Log
use waepic.Prelude.{
  List, ◌≡◌, Option, none, some, Bool, HasEq, Listed, ◌==◌, if◌then◌else◌, true, false, refl,
  if_true, if_false,
}

abbrev pub spared : {R : Type 0} → (R → Bool) → Option R → Option R
spared p none = none
spared p (some r) = if p r then none else some r

pub spared_gone :
    {R : Type 0} (p : R → Bool) (o : Option R) → ((r : R) → p r ≡ true) → spared p o ≡ none
spared_gone p none h = refl
spared_gone p (some r) h = if_true none (some r) (h r)

pub spared_kept :
    {R : Type 0} (p : R → Bool) (o : Option R) → ((r : R) → p r ≡ false) → spared p o ≡ o
spared_kept p none h = refl
spared_kept p (some r) h = if_false none (some r) (h r)

pub record Sql : Type 1 where
  pub Table : Type 0 → Type 0 → Type 0
  pub empty : {K R : Type 0} → Table K R
  pub select : {K R : Type 0} ⦃e : HasEq K⦄ → K → Table K R → Option R
  pub replace : {K R : Type 0} ⦃e : HasEq K⦄ → K → R → Table K R → Table K R
  pub delete : {K R : Type 0} ⦃e : HasEq K⦄ → (K → R → Bool) → Table K R → Table K R
  pub rows : {K R : Type 0} ⦃e : HasEq K⦄ → Table K R → List (K × R)
  pub newest : {K R : Type 0} ⦃e : HasEq K⦄ → Table K R → Option K
  pub select-replace :
      {K R : Type 0} ⦃e : HasEq K⦄ (k j : K) (r : R) (t : Table K R)
      → select j (replace k r t) ≡ (if k == j then some r else select j t)
  pub select-delete :
      {K R : Type 0} ⦃e : HasEq K⦄ (p : K → R → Bool) (j : K) (t : Table K R)
      → select j (delete p t) ≡ spared (p j) (select j t)
  pub rows-listed :
      {K R : Type 0} ⦃e : HasEq K⦄ (k : K) (r : R) (t : Table K R)
      → select k t ≡ some r
      → Listed (k, r) (rows t)
  pub rows-selected :
      {K R : Type 0} ⦃e : HasEq K⦄ (k : K) (r : R) (t : Table K R)
      → Listed (k, r) (rows t)
      → select k t ≡ some r
  pub newest-replace :
      {K R : Type 0} ⦃e : HasEq K⦄ (k : K) (r : R) (t : Table K R) → newest (replace k r t) ≡ some k
