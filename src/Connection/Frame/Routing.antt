-- ===== src/Connection/Frame/Routing.antt =====
-- Where an incoming node goes.
use waepic.Prelude.{
  ℕ, [], ◌∷◌, ◌++◌, Option, none, some, Bool, true, false, not, ◌||◌, String, ◌≡◌, refl, ◌∙◌, ap,
  arith, ◌==◌, text_eq, if◌then◌else◌, if_true, if_false, if_intro,
}
use waepic.Prelude.Outcome.{ok, err}
use waepic.Prelude.Map.{get, get-remove}
use waepic.Connection.Error.{ConnectionError}
use waepic.Connection.Ports.{Bytes, Crypto, Transport, Wire}
use waepic.Connection.State.{Shared, Live, node, connected, broadcast}
use waepic.Connection.Frame.{
  has_child, mark_failure, hand_to, answer_waiter, other_node, is_server_request, server_request,
  route, read_node, process_incoming_frame, acknowledge,
}

or_lem : (b c : Bool) → (if c then true else b) ≡ b || c
or_lem b c = ground arith

module _ {N K : Type 0} (w : Wire N K) where
  mark_failure_lem :
      (n : N) (s : Shared N)
      → mark_failure w n s ≡ record s { logged_out = s.logged_out || w.tag n == "failure" }
  mark_failure_lem n s =
      moved (w.tag n == "failure")
      ∙ ap (λ b. record s { logged_out = b }) (or_lem s.logged_out (w.tag n == "failure"))
    where
      moved :
          (c : Bool)
          → (if c then record s { logged_out = true } else s)
            ≡ record s { logged_out = if c then true else s.logged_out }
      moved true = refl
      moved false = refl

  answer_waiter-logged_out :
      (n : N) (o : Option String) (s : Shared N) → (answer_waiter n o s).logged_out ≡ s.logged_out
  answer_waiter-logged_out n none s = refl
  answer_waiter-logged_out n (some id) s = handed (get id s.iq_waiters)
    where
      handed : (o : Option ℕ) → (hand_to id n o s).logged_out ≡ s.logged_out
      handed none = refl
      handed (some k) = refl

  marked :
      (n : N) (s t : Shared N)
      → t.logged_out ≡ s.logged_out
      → (mark_failure w n t).logged_out ≡ s.logged_out || w.tag n == "failure"
  marked n s t e =
      ap (λ (u : Shared N). u.logged_out) (mark_failure_lem n t)
      ∙ ap (λ b. b || w.tag n == "failure") e

  other_node_lem :
      (n : N) (id : String) (k : ℕ) (s : Shared N)
      → (w.tag n == "iq") ≡ true
      → w.attr n "id" ≡ some id
      → get id s.iq_waiters ≡ some k
      → other_node w n s
        ≡ broadcast
            (node n)
            (record (hand_to id n (some k) s) { logged_out = s.logged_out || w.tag n == "failure" })
  unfolding other_node
  other_node_lem n id k s q a g =
      ap (λ t. broadcast (node n) (mark_failure w n t))
        (if_true (answer_waiter n (w.attr n "id") s) s q
          ∙ ap (λ o. answer_waiter n o s) a
          ∙ ap (λ o. hand_to id n o s) g)
      ∙ ap (broadcast (node n)) (mark_failure_lem n (hand_to id n (some k) s))

module _ {C T N K : Type 0} (crypto : Crypto C) (net : Transport T) (w : Wire N K) where
  -- A node that is no request of the server and answers a waiting IQ goes to the waiter of its id alone: that waiter is answered with the node and waits no longer, every other waiter goes on waiting, nothing is sent, and the node is broadcast.
  pub route_response :
      (n : N) (id : String) (k : ℕ) (s : Live C T N)
      → is_server_request w n ≡ false
      → (w.tag n == "iq") ≡ true
      → w.attr n "id" ≡ some id
      → get id s.iq_waiters ≡ some k
      → let t = route crypto net w n s in
        (t.answers ≡ s.answers ++ (k, ok n) ∷ [])
        × ((j : String) → get j t.iq_waiters ≡ (if id == j then none else get j s.iq_waiters))
        × (t.link ≡ s.link)
        × (t.events ≡ s.events ++ node n ∷ [])
  unfolding route broadcast
  route_response n id k s p q a g =
      rw
        (if_false (server_request crypto net w n s) (record s { shared = other_node w n s.shared })
            p
          ∙ ap (λ t. record s { shared = t }) (other_node_lem w n id k s.shared q a g))
        (refl, λ j. get-remove id j s.iq_waiters, refl, refl)

  -- Logging out is remembered, and comes from a `failure` node only: after any node the flag is up if it was up before or the node's tag is `failure`.
  pub logged_out-route :
      (n : N) (s : Live C T N)
      → (route crypto net w n s).logged_out ≡ (s.logged_out || w.tag n == "failure")
  unfolding route server_request other_node broadcast
  logged_out-route n s =
      if_intro (λ (t : Live C T N). t.logged_out ≡ s.logged_out || w.tag n == "failure")
        (is_server_request w n) (server_request crypto net w n s)
        (record s { shared = other_node w n s.shared })
        (λ _. marked w n s.shared _ (
          if_intro (λ (t : Shared N). t.logged_out ≡ s.logged_out) (has_child w n "success")
            (broadcast connected s.shared) s.shared (λ _. refl) (λ _. refl)))
        (λ _. marked w n s.shared _ (
          if_intro (λ (t : Shared N). t.logged_out ≡ s.logged_out) (w.tag n == "iq")
            (answer_waiter n (w.attr n "id") s.shared) s.shared
            (λ _. answer_waiter-logged_out w n (w.attr n "id") s.shared) (λ _. refl)))

  pub route_request :
      (n : N) (s : Live C T N)
      → is_server_request w n ≡ true
      → let t = route crypto net w n s in
        (t.iq_waiters ≡ s.iq_waiters)
        × (t.answers ≡ s.answers)
        × (t.link ≡ (
            if has_child w n "pair-success"
            then s.link
            else acknowledge crypto net w (w.attr n "id") s.link))
        × (t.events
            ≡ (if has_child w n "success" then s.events ++ connected ∷ [] else s.events)
              ++ node n ∷ [])
  unfolding route server_request broadcast
  route_request n s p =
      rw
        (
          if_true (server_request crypto net w n s) (record s { shared = other_node w n s.shared })
              p,
          mark_failure_lem w n _,
        )
        (split (has_child w n "success") (has_child w n "pair-success"))
    where
      split :
          (a b : Bool)
          → ((if a then broadcast connected s.shared else s.shared).iq_waiters ≡ s.iq_waiters)
            × ((if a then broadcast connected s.shared else s.shared).answers ≡ s.answers)
            × ((if not b then acknowledge crypto net w (w.attr n "id") s.link else s.link)
                ≡ (if b then s.link else acknowledge crypto net w (w.attr n "id") s.link))
            × ((if a then broadcast connected s.shared else s.shared).events ++ node n ∷ []
                ≡ (if a then s.events ++ connected ∷ [] else s.events) ++ node n ∷ [])
      split true true = (refl, refl, refl, refl)
      split true false = (refl, refl, refl, refl)
      split false true = (refl, refl, refl, refl)
      split false false = (refl, refl, refl, refl)

  -- A frame that cannot be opened, unpacked or parsed changes nothing but the read counter.
  pub process_incoming_frame_error :
      (f : Bytes) (s : Live C T N) (e : ConnectionError)
      → (process_incoming_frame crypto net w f s).0 ≡ err e
      → let t = (process_incoming_frame crypto net w f s).1 in
        (t.shared ≡ s.shared)
        × (t.link.transport ≡ s.link.transport)
        × (t.link.noise_socket.write_counter ≡ s.link.noise_socket.write_counter)
  unfolding process_incoming_frame read_node
  process_incoming_frame_error f s e h = ground arith
