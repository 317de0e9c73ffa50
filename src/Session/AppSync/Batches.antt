-- ===== src/Session/AppSync/Batches.antt =====
-- The MACs of a batch of mutations, written one by one.
use waepic.Prelude.{
  ℕ, List, [], ◌∷◌, ◌++◌, Option, some, String, ◌==◌, text_eq, nat_eq, list_eq, pair_eq, ◌≡◌, refl,
  ap, ◌∙◌, if◌then◌else◌,
}
use waepic.Prelude.Outcome.{ok}
use waepic.Prelude.Outcome.Batch.{write_all}
use waepic.Connection.Ports.{Bytes}
use waepic.Session.Sql.{Sql}
use waepic.Session.Schema.{SqliteSession}
use waepic.Session.Schema.Failing.{statement-Attempt, prepared-Partly}
use waepic.Session.AppSync.{MutationMac, put_mutation_macs, put_mutation_mac}

-- The value MAC that a key has once `ms` are written over `old`: the last one for it counts.
abbrev pub mac_after : String → String × Bytes → List MutationMac → Option Bytes → Option Bytes
mac_after name key [] old = old
mac_after name key (m ∷ ms) old =
    mac_after name key ms
      (if ◌==◌ {A = String × Bytes} (name, m.index_mac) key then some (m.value_mac) else old)

module _ (q : Sql) where
  abbrev write_mac :
      String → MutationMac → q.Table (String × Bytes) Bytes → q.Table (String × Bytes) Bytes
  write_mac name m t = q.replace (name, m.index_mac) (m.value_mac) t

  select-write_macs :
      (name : String) (key : String × Bytes) (ms : List MutationMac)
      (t : q.Table (String × Bytes) Bytes)
      → q.select key (write_all (write_mac name) ms t) ≡ mac_after name key ms (q.select key t)
  select-write_macs name key [] t = refl
  select-write_macs name key (m ∷ ms) t =
      select-write_macs name key ms (write_mac name m t)
      ∙ ap (mac_after name key ms) (q.select-replace (name, m.index_mac) key (m.value_mac) t)

-- Whichever statement fails: a first part of the batch is written, in order, so that the last
-- entry for an index counts and other keys keep their MAC, and `Ok` means that the part is the
-- whole batch.
pub put_mutation_macs-Writes :
    {q : Sql} (s : SqliteSession q) (name : String) (version : ℕ) (ms : List MutationMac)
    → (done : List MutationMac) × (rest : List MutationMac) × (ms ≡ done ++ rest)
      × ((key : String × Bytes)
          → q.select key ((put_mutation_macs name version ms s).1.mutation_macs)
            ≡ mac_after name key done (q.select key (s.mutation_macs)))
      × ((put_mutation_macs name version ms s).0 ≡ ok tt → rest ≡ [])
put_mutation_macs-Writes {q} s name version ms =
    let (done, rest, split, wrote, all) =
      prepared-Partly (λ s. s.mutation_macs) (write_mac q name) (put_mutation_mac name)
        (λ m s. statement-Attempt (λ s. s.mutation_macs) (write_mac q name m) _ s refl refl refl) ms
        s refl in
    (
      done,
      rest,
      split,
      λ key. ap (q.select key) wrote ∙ select-write_macs q name key done (s.mutation_macs),
      all,
    )
