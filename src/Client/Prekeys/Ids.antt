-- ===== src/Client/Prekeys/Ids.antt =====
-- The ids of an upload, and what the store holds under each once its prekeys are stored.
use waepic.Prelude.{
  ℕ, zero, suc, ◌+◌, ◌^◌, ◌%◌, ◌≤◌, ◌<◌, List, [], ◌∷◌, Option, some, true, false, ◌==◌, ==_refl,
  nat_eq, ◌≡◌, refl, ap, ◌∙◌, sym, ◌⊎◌, inl, inr, Bool-cases, if◌then◌else◌, if_true, if_false,
  arith, Listed,
}
use mathlib.Core.Path.{subst}
use waepic.Session.Sql.{Sql}
use waepic.Session.Schema.{SqliteSession, PrekeyRow}
use waepic.Session.Schema.Quiet.{Quiet, after, rest_succeed, insert_or_replace-Quiet}
use waepic.Session.Signal.{prekeys_table, store_prekey}
use waepic.Client.Prekeys.{Keys, pre_keys, store_all}

unwrapped : (n : ℕ) → n < 2 ^ 32 → n % 2 ^ 32 ≡ n
unwrapped n h = omega arith

apart : (a b : ℕ) → (a < b) ⊎ (b < a) → (a == b) ≡ false
apart a b h = ground arith

beyond : (i j : ℕ) → i ≤ j → (i == j) ≡ false → i + 1 ≤ j
beyond i j h k = ground arith

module _ {P : Type 0} (keys : Keys P) where
  abbrev pub row_of : ℕ → P → PrekeyRow
  row_of id kp = record { prekey_record = keys.encode_record id kp; uploaded = true }

  abbrev pub latest : ℕ → List (ℕ × P) → Option PrekeyRow → Option PrekeyRow
  latest k [] old = old
  latest k ((id, kp) ∷ rest) old = latest k rest (if id == k then some (row_of id kp) else old)

  pub select-store_all :
      {q : Sql} (k : ℕ) (entries : List (ℕ × P)) (s : SqliteSession q)
      → Quiet s
      → q.select k ((store_all keys entries s).prekeys) ≡ latest k entries (q.select k (s.prekeys))
  select-store_all k [] s h = refl
  select-store_all {q} k ((id, kp) ∷ rest) s h =
      let s1 : SqliteSession q = record (after s) {
        prekeys = q.replace id (row_of id kp) (s.prekeys);
      } in
      ap (λ x. q.select k ((store_all keys rest x.1).prekeys))
        (insert_or_replace-Quiet prekeys_table s h id (row_of id kp))
      ∙ select-store_all k rest s1 (rest_succeed s.outcomes h)
      ∙ ap (latest k rest) (q.select-replace id k (row_of id kp) (s.prekeys))

  pub store_all-Quiet :
      {q : Sql} (entries : List (ℕ × P)) (s : SqliteSession q)
      → Quiet s
      → Quiet (store_all keys entries s)
  store_all-Quiet [] s h = h
  store_all-Quiet {q} ((id, kp) ∷ rest) s h =
      let s1 = (store_prekey {q = q} id (keys.encode_record id kp) true s).1 in
      store_all-Quiet rest s1 (
        subst (λ x. Quiet (x.1)) (sym (insert_or_replace-Quiet prekeys_table s h id (row_of id kp)))
          (rest_succeed s.outcomes h))

  pub latest-outside :
      (start k i n : ℕ) (old : Option PrekeyRow)
      → start + i + n ≤ 2 ^ 32
      → (k < start + i) ⊎ (start + i + n ≤ k)
      → latest k (pre_keys keys start i n) old ≡ old
  latest-outside start k i zero old fits h = refl
  latest-outside start k i (suc n) old fits h =
      let other : ((start + i) % 2 ^ 32 == k) ≡ false =
        ap (λ (x : ℕ). x == k) (unwrapped (start + i) (omega arith))
        ∙ apart (start + i) k (elim h [ inl low ↦ inr low | inr high ↦ inl (omega arith) ]) in
      ap (latest k (pre_keys keys start (i + 1) n)) (if_false _ _ other)
      ∙ latest-outside start k (i + 1) n old (omega arith)
          (elim h [ inl low ↦ inl (omega arith) | inr high ↦ inr (omega arith) ])

  latest-first :
      (start i n : ℕ) (old : Option PrekeyRow)
      → start + i + suc n ≤ 2 ^ 32
      → latest (start + i) (pre_keys keys start i (suc n)) old
        ≡ some (row_of (start + i) (keys.generate i))
  latest-first start i n old fits =
      let small = unwrapped (start + i) (omega arith) in
      let hit : ((start + i) % 2 ^ 32 == start + i) ≡ true =
        ap (λ (x : ℕ). x == start + i) small ∙ ==_refl (start + i) in
      ap (latest (start + i) (pre_keys keys start (i + 1) n))
        (if_true _ _ hit ∙ ap (λ id. some (row_of id (keys.generate i))) small)
      ∙ latest-outside start (start + i) (i + 1) n _ (omega arith) (inl (omega arith))

  pub latest-inside :
      (start j i n : ℕ) (old : Option PrekeyRow)
      → start + i + n ≤ 2 ^ 32
      → i ≤ j
      → j < i + n
      → latest (start + j) (pre_keys keys start i n) old
        ≡ some (row_of (start + j) (keys.generate j))
  latest-inside start j i zero old fits low high = absurd (omega arith)
  latest-inside start j i (suc n) old fits low high = elim (Bool-cases (i == j)) [
    | inl same ↦
        subst
          (λ x.
            latest (start + x) (pre_keys keys start i (suc n)) old
            ≡ some (row_of (start + x) (keys.generate x)))
          ((nat_eq.beq_iff i j).0 same) (latest-first start i n old fits)
    | inr differ ↦
        latest-inside start j (i + 1) n _ (omega arith) (beyond i j low differ) (omega arith)
  ]

  pub pre_keys-Listed :
      (start j i n : ℕ)
      → start + i + n ≤ 2 ^ 32
      → i ≤ j
      → j < i + n
      → Listed (start + j, keys.generate j) (pre_keys keys start i n)
  pre_keys-Listed start j i zero fits low high = absurd (omega arith)
  pre_keys-Listed start j i (suc n) fits low high = elim (Bool-cases (i == j)) [
    | inl same ↦ inl (
        subst
          (λ x.
            ◌≡◌ {A = ℕ × P} ((start + i) % 2 ^ 32, keys.generate i) (start + x, keys.generate x))
          ((nat_eq.beq_iff i j).0 same)
          (ap (λ id. (id, keys.generate i)) (unwrapped (start + i) (omega arith))))
    | inr differ ↦
        inr (pre_keys-Listed start j (i + 1) n (omega arith) (beyond i j low differ) (omega arith))
  ]
