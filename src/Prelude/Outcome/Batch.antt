-- ===== src/Prelude/Outcome/Batch.antt =====
-- A loop that stops at the first error: what it wrote is what its items before that one write.
use mathlib.Core.Path.{◌≡◌, refl, ap, sym, ◌∙◌}
use mathlib.Core.Logic.{◌⊎◌, inl, inr}
use mathlib.Core.List.{List, [], ◌∷◌, ◌++◌}
use waepic.Prelude.Outcome.{err≢ok, Result, ok, err, Exec, for_each, continue}

module _ {A V : Type 0} where
  abbrev pub write_all : (A → V → V) → List A → V → V
  write_all w [] v = v
  write_all w (x ∷ xs) v = write_all w xs (w x v)

module _ {S E V : Type 0} (view : S → V) where
  -- One item: it is written and the result is `Ok`, or it is not and there is an error.
  abbrev pub Attempt : (V → V) → S → Result E (Unit {0}) × S → Type 0
  Attempt w s out =
      ((out.0 ≡ ok tt) × (view (out.1) ≡ w (view s)))
      ⊎ ((e : E) × ((out.0 ≡ err e) × (view (out.1) ≡ view s)))

module _ {S E A V : Type 0} (view : S → V) where
  -- The items `done` were written, and all of them if the result is `Ok`.
  abbrev pub Partly : (A → V → V) → List A → S → Result E (Unit {0}) × S → Type 0
  Partly w xs s out =
      (done : List A) × (rest : List A) × (xs ≡ done ++ rest)
      × (view (out.1) ≡ write_all w done (view s))
      × (out.0 ≡ ok tt → rest ≡ [])

  pub nothing_done :
      (w : A → V → V) (xs : List A) (s : S) (e : E) (out : Result E (Unit {0}) × S)
      → out.0 ≡ err e
      → view (out.1) ≡ view s
      → Partly w xs s out
  nothing_done w xs s e out failed same =
      ([], xs, refl, same, λ fine. absurd (err≢ok (sym failed ∙ fine)))

  pub for_each-Partly :
      (w : A → V → V) (step : A → Exec S E (Unit {0}))
      → ((x : A) (s : S) → Attempt view (w x) s (step x s))
      → (xs : List A) (s : S) → Partly w xs s (for_each step xs s)
  for_each-Partly w step each [] s = ([], [], refl, refl, λ fine. refl)
  for_each-Partly w step each (x ∷ xs) s = elim (each x s) [
    | inl (fine, written) ↦
        let (done, rest, split, wrote, all) = for_each-Partly w step each xs (step x s).1 in
        let same = ap (λ r. continue r (λ u. for_each step xs) (step x s).1) fine in
        (
          x ∷ done,
          rest,
          ap (λ ys. x ∷ ys) split,
          ap (λ o. view (o.1)) same ∙ wrote ∙ ap (write_all w done) written,
          λ ends. all (sym (ap (λ o. o.0) same) ∙ ends),
        )
    | inr (e, (failed, same)) ↦
        let stops = ap (λ r. continue r (λ u. for_each step xs) (step x s).1) failed in
        nothing_done w (x ∷ xs) s e _ (ap (λ o. o.0) stops) (ap (λ o. view (o.1)) stops ∙ same)
  ]
