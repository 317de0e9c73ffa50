-- ===== src/Client/Updates/Window/Reports.antt =====
-- Which updates report a change of the connection: none that a handler makes of a node.
use mathlib.Core.Path.{subst}
use waepic.Prelude.{
  List, [], ◌∷◌, Option, none, some, Bool, true, false, ◌||◌, ◌&&◌, String, ◌==◌, text_eq, ◌≡◌,
  refl, if_intro, arith, some_injective,
}
use waepic.Prelude.Outcome.{Result, ok, ok_injective}
use waepic.Connection.Ports.{Wire}
use waepic.Client.Error.{ClientError}
use waepic.Client.Update.{Update}
use waepic.Client.Pairing.Nodes.{then_some, or_else, child}
use waepic.Connection.Frame.{attr_is}
use waepic.Client.Handlers.Presence.{Stanzas, u64_attr}
use waepic.Client.Handlers.Notifications.{by_type}
use waepic.Client.Handlers.Failures.{
  handle_failure, by_code, numeric_code, is_conflict, is_code, handle_pair_code, code_in,
}
use waepic.Client.Handlers.Information.{Spawned, ib_children}
use waepic.Client.Updates.{is_connect_failure}

module _ {J M R H N : Type 0} where
  -- The connection was made or lost.
  abbrev pub is_change : Update J M R H N → Bool
  is_change Update.connected = true
  is_change Update.disconnected = true
  is_change _ = false

  abbrev pub Plain : Update J M R H N → Type 0
  Plain u = is_change u ≡ false

  -- Neither that, nor a `ConnectFailure`.
  abbrev pub Heard : Update J M R H N → Type 0
  Heard u = (is_change u ≡ false) × (is_connect_failure u ≡ false)

  abbrev pub Given : Option (Update J M R H N) → Type 0
  Given none = Unit
  Given (some u) = Plain u

  pub Given-then_some :
      {A : Type 0} (o : Option A) (f : A → Option (Update J M R H N))
      → ((a : A) → Given (f a))
      → Given (then_some o f)
  Given-then_some none f h = tt
  Given-then_some (some a) f h = h a

module _ (M H : Type 0) {N K J R : Type 0} (w : Wire N K) (st : Stanzas N J R) where
  pub by_type-Given : (kind : String) (n : N) → Given {M = M} {H = H} (by_type w st kind n)
  by_type-Given kind n =
      let Q : Option (Update J M R H N) → Type 0 = Given in
      if_intro Q (kind == "contacts") _ _
        (λ a.
          Given-then_some (child w "update" n) _
            λ u. Given-then_some (st.jid_attr u "jid") _ λ j. refl)
        λ a.
          if_intro Q (kind == "w:gp2") _ _ (λ b. Given-then_some (st.jid_attr n "from") _ λ j. refl)
            λ b.
              if_intro Q (kind == "picture") _ _
                (λ c. Given-then_some (st.jid_attr n "from") _ λ j. refl)
                λ c.
                  if_intro Q (kind == "w:push" || kind == "push_name") _ _
                    (λ d. Given-then_some (st.jid_attr n "from") _ λ j. refl)
                    λ d.
                      if_intro Q (kind == "disappearing_mode") _ _
                        (λ e. Given-then_some (st.jid_attr n "from") _ λ j. refl) λ e. tt

  pub by_code-Plain : (n : N) (code : Option _) → Plain {M = M} {H = H} (by_code w st n code)
  by_code-Plain n none =
      if_intro (Plain {J = J} {M = M} {R = R} {H = H} {N = N}) (w.tag n == "stream:error") _ _
        (λ a. refl) (λ a. refl)
  by_code-Plain n (some code) =
      if_intro (Plain {J = J} {M = M} {R = R} {H = H} {N = N}) (is_code 402 code) _ _ (λ a. refl)
        λ a.
          if_intro (Plain {J = J} {M = M} {R = R} {H = H} {N = N}) (is_code 405 code) _ _
            (λ b. refl) (λ b. refl)

  pub handle_failure-Plain : (n : N) → Plain {M = M} {H = H} (handle_failure w st n)
  handle_failure-Plain n =
      if_intro (Plain {J = J} {M = M} {R = R} {H = H} {N = N}) (is_conflict w n) _ _ (λ a. refl)
        (λ a. by_code-Plain n (numeric_code w n))

  pub code_in-Given : (c : N) → Given {M = M} {H = H} (code_in w st c)
  code_in-Given c =
      let code = or_else (w.attr c "code") "" in
      let Q : Option (Update J M R H N) → Type 0 = Given in
      if_intro Q (code == "") none (some (Update.pairing_code code (u64_attr w st "timeout" 120 c)))
        (λ b. tt) (λ b. refl)

  pub handle_pair_code-Given : (n : N) → Given {M = M} {H = H} (handle_pair_code w st n)
  handle_pair_code-Given n =
      let Q : Option (Update J M R H N) → Type 0 = Given in
      if_intro Q (w.tag n == "iq" && attr_is w n "type" "set") _ _
        (λ a. Given-then_some (child w "pair-code" n) _ λ c. code_in-Given c) (λ a. tt)

  pub ib_children-Given :
      (cs : List N) → Given {J = J} {M = M} {R = R} {H = H} ((ib_children w cs).0)
  ib_children-Given [] = tt
  ib_children-Given (c ∷ cs) =
      let rest = ib_children-Given cs in
      let Q : Option (Update J M R H N) × List (Spawned N) → Type 0 = λ x. Given x.0 in
      if_intro Q (w.tag c == "dirty") _ _ (λ a. rest)
        λ a.
          if_intro Q (w.tag c == "edge_routing") _ _ (λ b. rest)
            λ b.
              if_intro Q (w.tag c == "offline_sync_preview") _ _ (λ d. refl)
                λ d. if_intro Q (w.tag c == "offline") _ _ (λ e. refl) λ e. rest

module _ {J M R H N : Type 0} where
  pub given_plain :
      (o : Option (Update J M R H N))
      → Given o
      → (u : Update J M R H N)
      → ◌≡◌ {A = Result ClientError (Option (Update J M R H N))} (ok o) (ok (some u))
      → Plain u
  given_plain none h u e = ground arith
  given_plain (some v) h u e = subst Plain (some_injective (ok_injective e)) h
