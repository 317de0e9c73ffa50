-- ===== src/Client/Updates/Window/Steps.antt =====
-- What a step of the update stream hands over while the window flag is up.
use waepic.Prelude.{
  List, [], ◌∷◌, ◌++◌, Option, none, some, Bool, true, false, ◌||◌, ◌==◌, text_eq, All, ◌≡◌, refl,
  ap, sym, ◌∙◌, if_intro, arith, append_assoc, All-append,
}
use waepic.Prelude.Outcome.{Result, ok, err, continue, err≢ok}
use waepic.Connection.Ports.{Wire}
use waepic.Session.Sql.{Sql}
use waepic.Client.Error.{ClientError}
use waepic.Client.World.{World}
use waepic.Client.Update.{Update}
use waepic.Client.Pairing.Nodes.{or_else, child}
use waepic.Client.Handlers.Presence.{
  Stanzas, handle_receipt, handle_presence, handle_chatstate, state_in,
}
use waepic.Client.Handlers.Failures.{handle_failure, handle_pair_code}
use waepic.Client.Handlers.Information.{Spawned, handle_ib}
use waepic.Client.Updates.{
  updates, Stream, Handlers, hand_over, spawn, spawn_each, for_ib, held_back, is_connect_failure,
  hand_over_each, dispatch, unless_paired,
}
use waepic.Client.Updates.Window.Reports.{
  Plain, Heard, Given, Given-then_some, by_type-Given, handle_failure-Plain, handle_pair_code-Given,
  ib_children-Given, given_plain,
}

-- What `process_incoming_node` and `handle_pair_code_notification` leave alone: the window flag;
-- and the first reports no change of the connection.
pub record Behaves {q : Sql} {J D M R H N B : Type 0} (h : Handlers q J D M R H N B) : Type 0 where
  pub message_flag :
      (n : N) (t : World q J D N)
      → (h.process_incoming_node n t).1.post_pair_reconnect ≡ t.post_pair_reconnect
  pub code_flag :
      (n : N) (t : World q J D N)
      → (h.handle_pair_code_notification n t).1.post_pair_reconnect ≡ t.post_pair_reconnect
  pub plain :
      (n : N) (t : World q J D N) (us : List (Update J M R H N))
      → (h.process_incoming_node n t).0 ≡ ok (updates us)
      → All Plain us

module _ {q : Sql} {J D M R H N B : Type 0} where
  -- From `s` on, only updates that are `Heard` were handed over, and the flag is up.
  abbrev pub Windowed : Stream q J D M R H N B → Stream q J D M R H N B → Type 0
  Windowed s t =
      ((heard : List (Update J M R H N)) × (t.sent ≡ heard ++ s.sent) × All Heard heard)
      × (t.world.post_pair_reconnect ≡ true)

  pub silent :
      (s t : Stream q J D M R H N B)
      → t.sent ≡ s.sent
      → t.world.post_pair_reconnect ≡ true
      → Windowed s t
  silent s t same up = (([], same, tt), up)

  pub hears :
      (s t : Stream q J D M R H N B) (u : Update J M R H N)
      → t.sent ≡ u ∷ s.sent
      → Heard u
      → t.world.post_pair_reconnect ≡ true
      → Windowed s t
  hears s t u same there up = ((u ∷ [], same, (there, tt)), up)

  pub Windowed-trans : (s t r : Stream q J D M R H N B) → Windowed s t → Windowed t r → Windowed s r
  Windowed-trans s t r a b =
      let (xs, first, good) = a.0 in
      let (ys, second, fine) = b.0 in
      (
        (
          ys ++ xs,
          second ∙ ap (λ l. ys ++ l) first ∙ sym (append_assoc ys xs s.sent),
          All-append Heard ys xs fine good,
        ),
        b.1,
      )

  pub held_back-up :
      (u : Update J M R H N) (s : Stream q J D M R H N B)
      → s.world.post_pair_reconnect ≡ true
      → held_back u s ≡ false
      → is_connect_failure u ≡ false
  held_back-up u s up h = ground arith

  pub hand_over_each-Windowed :
      (us : List (Update J M R H N)) (s : Stream q J D M R H N B)
      → All Plain us
      → s.world.post_pair_reconnect ≡ true
      → Windowed s (hand_over_each us s)
  hand_over_each-Windowed [] s h up = silent s s refl up
  hand_over_each-Windowed (u ∷ us) s h up =
      if_intro (Windowed s) (held_back u s) _ _ (λ held. hand_over_each-Windowed us s h.1 up)
        (λ free.
          Windowed-trans s (hand_over u s) (hand_over_each us (hand_over u s))
            (hears s (hand_over u s) u refl (h.0, held_back-up u s up free) up)
            (hand_over_each-Windowed us (hand_over u s) h.1 up))

  pub spawn_each-sent :
      (ts : List (Spawned N)) (s : Stream q J D M R H N B)
      → ((spawn_each ts s).sent ≡ s.sent) × ((spawn_each ts s).world ≡ s.world)
  spawn_each-sent [] s = (refl, refl)
  spawn_each-sent (t ∷ ts) s = spawn_each-sent ts (spawn (for_ib t) s)

  -- What a dispatch gives: nothing was handed over, the flag is as it was, and the update is no
  -- change of the connection.
  abbrev pub Dispatched :
      Stream q J D M R H N B
      → Result ClientError (Option (Update J M R H N)) × Stream q J D M R H N B
      → Type 0
  Dispatched s x =
      (x.1.sent ≡ s.sent)
      × (x.1.world.post_pair_reconnect ≡ s.world.post_pair_reconnect)
      × ((u : Update J M R H N) → x.0 ≡ ok (some u) → Plain u)

  pub plainly :
      (s : Stream q J D M R H N B) (o : Option (Update J M R H N))
      → Given o
      → Dispatched s (ok o, s)
  plainly s o g = (refl, refl, given_plain o g)

module _ {q : Sql} {J D M R H N K B : Type 0} (w : Wire N K) (st : Stanzas N J R)
    (h : Handlers q J D M R H N B) (b : Behaves h) where
  pub notified :
      (n : N) (r : Result ClientError Bool) (t : World q J D N)
      → ((continue r (unless_paired w st h n) t).1.post_pair_reconnect ≡ t.post_pair_reconnect)
        × ((u : Update J M R H N)
            → (continue r (unless_paired w st h n) t).0 ≡ ok (some u)
            → Plain u)
  notified n (ok true) t = (refl, λ u e. given_plain none tt u e)
  notified n (ok false) t =
      (refl, given_plain _ (by_type-Given M H w st (or_else (w.attr n "type") "") n))
  notified n (err e) t = (refl, λ u same. absurd (err≢ok same))

  pub dispatch-Dispatched :
      (n : N) (s : Stream q J D M R H N B) → Dispatched s (dispatch w st h n s)
  dispatch-Dispatched n s =
      let Q : Result ClientError (Option (Update J M R H N)) × Stream q J D M R H N B → Type 0 =
        Dispatched s in
      let done = h.handle_pair_code_notification n s.world in
      let noticed = notified n done.0 done.1 in
      let told : Option (Update J M R H N) × List (Spawned N) = handle_ib w n in
      let there = spawn_each-sent told.1 s in
      if_intro Q (w.tag n == "receipt") _ _
        (λ a.
          plainly s (handle_receipt w st n) (Given-then_some (st.jid_attr n "from") _ λ j. refl))
        λ a.
          if_intro Q (w.tag n == "presence") _ _
            (λ b1.
              plainly s (handle_presence w st n)
                (Given-then_some (st.jid_attr n "from") _ λ j. refl))
            λ b1.
              if_intro Q (w.tag n == "chatstate") _ _
                (λ c. plainly s (handle_chatstate w st n) (
                  Given-then_some (st.jid_attr n "from") _ λ j.
                    Given-then_some (state_in w st (child w "composing" n) (child w "paused" n)) _
                      λ k. refl))
                λ c.
                  if_intro Q (w.tag n == "notification") _ _
                    (λ d. (refl, noticed.0 ∙ b.code_flag n s.world, noticed.1))
                    λ d.
                      if_intro Q (w.tag n == "success") _ _
                        (λ e. plainly s (some Update.pair_success) refl)
                        λ e.
                          if_intro Q (w.tag n == "failure" || w.tag n == "stream:error") _ _
                            (λ f.
                              plainly s (some (handle_failure w st n))
                                (handle_failure-Plain M H w st n))
                            λ f.
                              if_intro Q (w.tag n == "iq") _ _
                                (λ g.
                                  plainly s (handle_pair_code w st n)
                                    (handle_pair_code-Given M H w st n))
                                λ g.
                                  if_intro Q (w.tag n == "ib") _ _
                                    (λ i. (
                                      there.0,
                                      ap (λ x. x.post_pair_reconnect) there.1,
                                      given_plain told.0
                                          (ib_children-Given M H w st (or_else (w.children n) [])),
                                    ))
                                    (λ i. plainly s none tt)
