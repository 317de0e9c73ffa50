-- ===== src/Session/Schema/Quiet.antt =====
-- Sessions whose statements all succeed, and what each statement does then.
use waepic.Prelude.{
  List, [], ◌∷◌, Option, none, String, Bool, HasEq, ◌≡◌, refl, ap, All, keep, length,
}
use waepic.Prelude.Outcome.{Result, ok, continue}
use waepic.Session.Sql.{Sql}
use waepic.Session.Schema.{
  SqliteSession, Column, StoreError, rusqlite_err, reached, further, statement, insert_or_replace,
  select_row, select_all, delete_rows,
}

abbrev pub AllSucceed : List (Option String) → Type 0
AllSucceed = All (λ o. o ≡ none)

abbrev pub Quiet : {q : Sql} → SqliteSession q → Type 0
Quiet s = AllSucceed s.outcomes

first_succeeds : (os : List (Option String)) → AllSucceed os → reached os ≡ none
first_succeeds [] h = refl
first_succeeds (o ∷ os) h = h.0

pub rest_succeed : (os : List (Option String)) → AllSucceed os → AllSucceed (further os)
rest_succeed [] h = tt
rest_succeed (o ∷ os) h = h.1

module _ {q : Sql} where
  -- One statement later.
  abbrev pub after : SqliteSession q → SqliteSession q
  after s = record s { outcomes = further s.outcomes }

  pub statement-Quiet :
      {A : Type 0} (f : Unit {0} → SqliteSession q → Result StoreError A × SqliteSession q)
      (s : SqliteSession q)
      → Quiet s
      → continue (statement s).0 f (statement s).1 ≡ f tt (after s)
  statement-Quiet f s h =
      ap (λ o. continue (rusqlite_err o) f (after s)) (first_succeeds s.outcomes h)

  module _ {K R : Type 0} ⦃e : HasEq K⦄ (c : Column q K R) (s : SqliteSession q) (h : Quiet s) where
    pub insert_or_replace-Quiet :
        (k : K) (r : R)
        → insert_or_replace c k r s ≡ (ok tt, c.put (q.replace k r (c.view (after s))) (after s))
    insert_or_replace-Quiet k r = statement-Quiet _ s h

    pub select_row-Quiet :
        (k : K) → select_row c k s ≡ (ok (q.select k (c.view (after s))), after s)
    select_row-Quiet k = statement-Quiet _ s h

    pub select_all-Quiet : select_all c s ≡ (ok (q.rows (c.view (after s))), after s)
    select_all-Quiet = statement-Quiet _ s h

    pub delete_rows-Quiet :
        (p : K → R → Bool)
        → delete_rows c p s ≡ (
          ok (length (keep (λ row. p row.0 row.1) (q.rows (c.view (after s))))),
          c.put (q.delete p (c.view (after s))) (after s),
        )
    delete_rows-Quiet p = statement-Quiet _ s h
