-- ===== src/Client/Pairing/Nodes.antt =====
-- The IQ nodes of the pairing in waepic-client/src/client/pair.rs, and what is read out of them.
use waepic.Prelude.{
  List, [], ◌∷◌, Option, none, some, Bool, ◌&&◌, String, ◌==◌, text_eq, find, keep,
}
use waepic.Prelude.Outcome.{Result, ok, err}
use waepic.Connection.Ports.{Bytes, Wire}
use waepic.Connection.Frame.{attr_is, has_child}
use waepic.Client.Error.{ClientError, protocol}
use waepic.Client.World.{Jids}

abbrev pub then_some {ℓ} : {A B : Type ℓ} → Option A → (A → Option B) → Option B
then_some none f = none
then_some (some a) f = f a

abbrev pub or_else {ℓ} : {A : Type ℓ} → Option A → A → A
or_else none d = d
or_else (some a) d = a

abbrev pub filter_map {ℓ} : {A B : Type ℓ} → (A → Option B) → List A → List B
filter_map f [] = []
filter_map f (x ∷ xs) = let rest = filter_map f xs in elim (f x) [ none ↦ rest | some y ↦ y ∷ rest ]

module _ {N K : Type 0} (w : Wire N K) where
  -- `children().and_then(|chs| chs.iter().find(|c| c.tag == tag))`
  abbrev pub child : String → N → Option N
  child tag n = then_some (w.children n) (find (λ c. w.tag c == tag))

  abbrev pub bytes_of : N → Option Bytes
  bytes_of n = then_some (w.content n) w.bytes

  abbrev pub is_pair_device_node : N → Bool
  is_pair_device_node n =
      w.tag n == "iq" && (attr_is w n "type" "set" && has_child w n "pair-device")

  abbrev pub is_pair_success_node : N → Bool
  is_pair_success_node n =
      w.tag n == "iq" && (attr_is w n "type" "set" && has_child w n "pair-success")

  abbrev pub non_empty : List String → Option (List String)
  non_empty [] = none
  non_empty (r ∷ rs) = some (r ∷ rs)

  -- `from_utf8` is that of the standard library.
  abbrev pub refs_of : (Bytes → Option String) → Option (List N) → List String
  refs_of from_utf8 none = []
  refs_of from_utf8 (some chs) =
      filter_map from_utf8 (filter_map bytes_of (keep (λ c. w.tag c == "ref") chs))

  abbrev pub extract_pair_device_refs : (Bytes → Option String) → N → Option (List String)
  extract_pair_device_refs from_utf8 n =
      then_some (child "pair-device" n) (λ p. non_empty (refs_of from_utf8 (w.children p)))

-- What `handle_pair_success` reads out of the node.
pub record PairSuccess (J : Type 0) : Type 0 where
  pub req_id : String
  pub device_identity_bytes : Bytes
  pub business_name : String
  pub jid : J
  pub lid : J

module _ {N K J : Type 0} (w : Wire N K) (jids : Jids J) where
  abbrev pub child_attr : String → String → N → Option String
  child_attr tag key n = then_some (child w tag n) (λ c. w.attr c key)

  abbrev pub jid_attr : String → N → J
  jid_attr key n = or_else (then_some (child_attr "device" key n) jids.parse) jids.default

  abbrev pub with_identity : String → N → Option Bytes → Result ClientError (PairSuccess J)
  with_identity id n none = err (protocol "pair-success missing device-identity bytes")
  with_identity id n (some identity) = ok (record {
    req_id = id;
    device_identity_bytes = identity;
    business_name = or_else (child_attr "biz" "name" n) "";
    jid = jid_attr "jid" n;
    lid = jid_attr "lid" n;
  })

  abbrev pub with_success : String → Option N → Result ClientError (PairSuccess J)
  with_success id none = err (protocol "pair-success missing pair-success child")
  with_success id (some n) =
      with_identity id n (then_some (child w "device-identity" n) (bytes_of w))

  abbrev pub with_children : String → Option (List N) → Result ClientError (PairSuccess J)
  with_children id none = err (protocol "pair-success has no children")
  with_children id (some cs) = with_success id (find (λ c. w.tag c == "pair-success") cs)

  abbrev pub with_id : N → Option String → Result ClientError (PairSuccess J)
  with_id n none = err (protocol "pair-success missing id attribute")
  with_id n (some id) = with_children id (w.children n)

  abbrev pub read_pair_success : N → Result ClientError (PairSuccess J)
  read_pair_success n = with_id n (w.attr n "id")
