-- ===== src/Session/Schema/Failing.antt =====
-- A statement that may fail writes all it is to write, or nothing.
use waepic.Prelude.{HasEq, Option, List, String, ◌≡◌, ap, sym, ◌∙◌, ◌⊎◌, inl, inr, Option-cases}
use waepic.Prelude.Outcome.{err≢ok, Result, ok, err, Exec, continue, for_each, ◌>>◌}
use waepic.Prelude.Outcome.Batch.{Attempt, Partly, for_each-Partly, nothing_done, write_all}
use waepic.Session.Sql.{Sql}
use waepic.Session.Schema.{
  Column, insert_or_replace, select_row, SqliteSession, StoreError, database, rusqlite_err, reached,
  statement,
}
use waepic.Session.Schema.Quiet.{after}

module _ {q : Sql} where
  pub statement-either :
      {A : Type 0} (f : Unit {0} → SqliteSession q → Result StoreError A × SqliteSession q)
      (s : SqliteSession q)
      → (continue (statement s).0 f (statement s).1 ≡ f tt (after s))
        ⊎ ((e : String) × (continue (statement s).0 f (statement s).1
              ≡ (err (database e), after s)))
  statement-either f s = elim (Option-cases (reached s.outcomes)) [
    | inl fine ↦ inl (ap (λ o. continue (rusqlite_err o) f (after s)) fine)
    | inr (e, failed) ↦ inr (e, ap (λ o. continue (rusqlite_err o) f (after s)) failed)
  ]

  -- A statement that writes `w` into what `view` shows, on the success of which `f` returns.
  pub statement-Attempt :
      {V : Type 0} (view : SqliteSession q → V) (w : V → V)
      (f : SqliteSession q → Result StoreError (Unit {0}) × SqliteSession q) (s : SqliteSession q)
      → (f (after s)).0 ≡ ok tt
      → view ((f (after s)).1) ≡ w (view s)
      → view (after s) ≡ view s
      → Attempt view w s ((statement >> f) s)
  statement-Attempt view w f s fine wrote same = elim (statement-either (λ u. f) s) [
    | inl runs ↦ inl (ap (λ o. o.0) runs ∙ fine, ap (λ o. view (o.1)) runs ∙ wrote)
    | inr (e, stops) ↦ inr (database e, (ap (λ o. o.0) stops, ap (λ o. view (o.1)) stops ∙ same))
  ]

  -- The statement is prepared once and run for each item.
  pub prepared-Partly :
      {A V : Type 0} (view : SqliteSession q → V) (w : A → V → V)
      (step : A → Exec (SqliteSession q) StoreError (Unit {0}))
      → ((x : A) (s : SqliteSession q) → Attempt view (w x) s (step x s))
      → (xs : List A) (s : SqliteSession q) → view (after s) ≡ view s
      → Partly view w xs s ((statement >> for_each step xs) s)
  prepared-Partly view w step each xs s same = elim (statement-either (λ u. for_each step xs) s) [
    | inl runs ↦
        let (done, rest, split, wrote, all) = for_each-Partly view w step each xs (after s) in
        (
          done,
          rest,
          split,
          ap (λ o. view (o.1)) runs ∙ wrote ∙ ap (write_all w done) same,
          λ ends. all (sym (ap (λ o. o.0) runs) ∙ ends),
        )
    | inr (e, stops) ↦
        nothing_done view w xs s (database e) _ (ap (λ o. o.0) stops)
          (ap (λ o. view (o.1)) stops ∙ same)
  ]

module _ {q : Sql} {K R : Type 0} ⦃e : HasEq K⦄ (c : Column q K R) where
  pub insert_or_replace-ok :
      (k : K) (r : R) (s : SqliteSession q)
      → (insert_or_replace c k r s).0 ≡ ok tt
      → insert_or_replace c k r s ≡ (ok tt, c.put (q.replace k r (c.view (after s))) (after s))
  insert_or_replace-ok k r s h =
      elim (statement-either (λ u t. (ok tt, c.put (q.replace k r (c.view t)) t)) s) [
        | inl runs ↦ runs
        | inr (m, stops) ↦ absurd (err≢ok (sym (ap (λ x. x.0) stops) ∙ h))
      ]

  -- Whether or not it succeeds, the statement leaves what `view` shows as it is, where it is no
  -- part of the table.
  pub insert_or_replace-else :
      {V : Type 0} (view : SqliteSession q → V) (k : K) (r : R) (s : SqliteSession q)
      → view (c.put (q.replace k r (c.view (after s))) (after s)) ≡ view s
      → view (after s) ≡ view s
      → view ((insert_or_replace c k r s).1) ≡ view s
  insert_or_replace-else view k r s wrote failed =
      elim (statement-either (λ u t. (ok tt, c.put (q.replace k r (c.view t)) t)) s) [
        | inl runs ↦ ap (λ x. view (x.1)) runs ∙ wrote
        | inr (m, stops) ↦ ap (λ x. view (x.1)) stops ∙ failed
      ]

  pub select_row-ok :
      (k : K) (r : Option R) (s : SqliteSession q)
      → (select_row c k s).0 ≡ ok r
      → select_row c k s ≡ (ok (q.select k (c.view (after s))), after s)
  select_row-ok k r s h = elim (statement-either (λ u t. (ok (q.select k (c.view t)), t)) s) [
    | inl runs ↦ runs
    | inr (m, stops) ↦ absurd (err≢ok (sym (ap (λ x. x.0) stops) ∙ h))
  ]
