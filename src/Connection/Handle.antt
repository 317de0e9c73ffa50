-- ===== src/Connection/Handle.antt =====
-- `ConnectionHandle` of waepic-connection/src/connection.rs: the handle's own steps, before and
-- after the runner's. The command channel is the list of the commands in it, `none` once closed.
pub mod Requests
use Prim.Native.String.{◌++◌ as text_append}
use waepic.Prelude.{
  ℕ, suc, ◌+◌, ◌%◌, ◌^◌, List, [], ◌∷◌, ◌++◌, Option, none, some, Bool, false, String, ◌==◌,
  text_eq, find, if◌then◌else◌,
}
use waepic.Prelude.Outcome.{Result, ok, err, Exec, map_err}
use waepic.Prelude.Map.{insert}
use waepic.Prelude.Decimal.{decimal}
use waepic.Connection.Error.{ConnectionError, protocol, not_connected}
use waepic.Connection.Ports.{Wire}
use waepic.Connection.State.{Shared, ConnectionCommand, send_node, disconnect}
use waepic.Connection.Frame.{attr_is}

-- `wacore::request::InfoQuery`; `to` is the JID as text.
pub data InfoQueryType : Type 0 where
  get set : InfoQueryType

pub record InfoQuery (K : Type 0) : Type 0 where
  pub query_type : InfoQueryType
  pub namespace : String
  pub to : String
  pub id : Option String
  pub content : Option K

module _ {N : Type 0} where
  -- `fetch_add(1)` wraps at 2^64.
  unfoldable pub next_iq_id : Shared N → String × Shared N
  next_iq_id s = (
    text_append "waepic_" (decimal s.iq_id_counter),
    record s { iq_id_counter = (s.iq_id_counter + 1) % 2 ^ 64 },
  )

  -- `info_query.id.clone().unwrap_or_else(|| self.next_iq_id())`
  abbrev pub choose_id : Option String → Shared N → String × Shared N
  choose_id none s = next_iq_id s
  choose_id (some id) s = (id, s)

  -- `waiters.insert(iq_id, response_tx)`
  unfoldable pub register : String → ℕ → Shared N → Shared N
  register id waiter s = record s { iq_waiters = insert id waiter s.iq_waiters }

  abbrev pub post :
      ConnectionCommand N
      → ConnectionError
      → Exec (Option (List (ConnectionCommand N))) ConnectionError (Unit {0})
  post c e none = (err e, none)
  post c e (some queue) = (ok tt, some (queue ++ c ∷ []))

-- What ends a wait on a oneshot channel: the sender's value, its drop, or the deadline.
pub data Awaited {ℓ} (A : Type ℓ) : Type ℓ where
  delivered : A → Awaited A
  dropped late : Awaited A

-- The wait of `send_node` and of `send_iq`; `message` is the text of a missed deadline.
unfoldable pub awaited :
    {A : Type 0} → String → Awaited (Result ConnectionError A) → Result ConnectionError A
awaited message (delivered r) = r
awaited message dropped = err not_connected
awaited message late = err (protocol message)

module _ {N K : Type 0} (w : Wire N K) where
  abbrev pub type_str : InfoQueryType → String
  type_str get = "get"
  type_str set = "set"

  unfoldable pub build_iq_node : InfoQuery K → String → N
  build_iq_node q id =
      w.node "iq"
        (("id", id) ∷ ("xmlns", q.namespace) ∷ ("type", type_str q.query_type) ∷ ("to", q.to) ∷ [])
        q.content

  -- The part of `send_iq` before the node is sent: the id, the waiter, and the node.
  unfoldable pub begin_iq : InfoQuery K → ℕ → Shared N → N × Shared N
  unfolding register next_iq_id build_iq_node
  begin_iq q waiter s =
      let (id, s') = choose_id q.id s in (build_iq_node q id, register id waiter s')

  abbrev pub error_child : N → Option N
  error_child n = elim (w.children n) [ none ↦ none | some cs ↦ find (λ c. w.tag c == "error") cs ]

  abbrev pub child_attr : Option N → String → Option String
  child_attr none key = none
  child_attr (some c) key = w.attr c key

  abbrev pub error_text : N → String
  error_text n = elim (child_attr (error_child n) "text") [
    | some text ↦ text
    | none ↦
        text_append "error code: "
          (elim (child_attr (error_child n) "code") [ some code ↦ code | none ↦ "unknown error" ])
  ]

  -- What `send_iq` makes of the response node, `parse` being the spec's.
  unfoldable pub parse_iq : {A : Type 0} → (N → Result String A) → N → Result ConnectionError A
  parse_iq parse n =
      if attr_is w n "type" "error"
      then err (protocol (text_append "IQ error: " (error_text n)))
      else map_err (λ e. protocol (text_append "IQ parse error: " e)) (parse n)

  abbrev pub then_parse :
      {A : Type 0} → (N → Result String A) → Result ConnectionError N → Result ConnectionError A
  then_parse parse (ok n) = parse_iq parse n
  then_parse parse (err e) = err e

  abbrev pub when_sent :
      {A : Type 0}
      → Result ConnectionError (Unit {0})
      → Result ConnectionError A
      → Result ConnectionError A
  when_sent (ok _) r = r
  when_sent (err e) r = err e

  -- The result of `send_iq`, from how the send of its node and the wait for the response end.
  unfoldable pub finish_iq :
      {A : Type 0}
      → (N → Result String A)
      → Awaited (Result ConnectionError (Unit {0}))
      → Awaited (Result ConnectionError N)
      → Result ConnectionError A
  unfolding awaited parse_iq
  finish_iq parse sent response =
      when_sent (awaited "send_node timed out" sent)
        (then_parse parse (awaited "IQ timed out" response))
