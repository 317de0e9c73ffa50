-- ===== src/Session/AppSync/Versions.antt =====
-- The version of a collection, read back.
use waepic.Prelude.{
  ℕ, some, String, ◌==◌, text_eq, nat_eq, ==_refl, length, ◌≡◌, ap, ◌∙◌, sym, inl, inr, Bool-cases,
  if◌then◌else◌, if_true,
}
use waepic.Prelude.Outcome.{ok, continue, pure, map_err}
use waepic.Session.Sql.{Sql}
use waepic.Session.Schema.{SqliteSession, insert_or_replace, serialization}
use waepic.Session.Schema.Quiet.{Quiet, rest_succeed, insert_or_replace-Quiet, select_row-Quiet}
use waepic.Session.AppSync.{
  Json, Defaults, HashState, get_version, set_version, state_of, version_row, app_versions_table,
  hash_array, map_of,
}

get_version-Quiet :
    {q : Sql} {M : Type 0} (json : Json M) (defaults : Defaults M) (s : SqliteSession q)
    (name : String)
    → Quiet s
    → (get_version json defaults name s).0
      ≡ ok (state_of json defaults (q.select name (s.app_versions)))
get_version-Quiet json defaults s name h =
    ap (λ x. (continue x.0 (λ row. pure (state_of json defaults row)) x.1).0)
      (select_row-Quiet app_versions_table s h name)

state_of-row :
    {M : Type 0} (json : Json M) (defaults : Defaults M) (state : HashState M) (text : String)
    → length state.hash ≡ 128
    → json.from_str text ≡ ok (state.index_value_map)
    → state_of json defaults (some (version_row state text)) ≡ state
state_of-row json defaults state text long back =
    let same : hash_array (some (state.hash)) ≡ state.hash =
      if_true _ _ (ap (λ (n : ℕ). n == 128) long ∙ ==_refl {A = ℕ} 128) in
    ap
      (λ h. record {
        version = state.version;
        hash = h;
        index_value_map = map_of json defaults (json.from_str text);
      })
      same
    ∙ ap
        (λ m. record {
          version = state.version;
          hash = state.hash;
          index_value_map = map_of json defaults m;
        })
        back

-- While the statements succeed and the JSON of the index map reads back as the map, the version
-- that was set for a name, with a hash of 128 bytes, is the one read for it, and the version of
-- another name is read as before.
pub get_version-set_version :
    {q : Sql} {M : Type 0} (json : Json M) (defaults : Defaults M) (s : SqliteSession q)
    (name other : String) (state : HashState M) (text : String)
    → Quiet s
    → length state.hash ≡ 128
    → json.to_string (state.index_value_map) ≡ ok text
    → json.from_str text ≡ ok (state.index_value_map)
    → (get_version json defaults other (set_version json name state s).1).0
      ≡ (if name == other then ok state else (get_version json defaults other s).0)
get_version-set_version {q} json defaults s name other state text h long out back =
    let row = version_row state text in
    ap
      (λ r.
        (get_version json defaults other
          (continue (map_err serialization r)
            (λ ivm. insert_or_replace app_versions_table name (version_row state ivm)) s).1).0)
      out
    ∙ ap (λ x. (get_version json defaults other x.1).0)
        (insert_or_replace-Quiet app_versions_table s h name row)
    ∙ get_version-Quiet json defaults _ other (rest_succeed s.outcomes h)
    ∙ ap (λ o. ok (state_of json defaults o)) (q.select-replace name other row (s.app_versions))
    ∙ elim (Bool-cases (name == other)) [
      | inl same ↦ rw same (ap ok (state_of-row json defaults state text long back))
      | inr differ ↦ rw differ (sym (get_version-Quiet json defaults s other h))
    ]
