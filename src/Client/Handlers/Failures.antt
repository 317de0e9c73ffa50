-- ===== src/Client/Handlers/Failures.antt =====
-- `handle_success`, `handle_failure` and `handle_pair_code` of waepic-client/src/client/handlers.rs.
use waepic.Prelude.{
  ℕ, ℤ, pos, negsuc, Option, none, some, Bool, true, false, ◌&&◌, ◌==◌, text_eq, nat_eq,
  if◌then◌else◌,
}
use waepic.Connection.Ports.{Wire}
use waepic.Connection.Frame.{attr_is}
use waepic.Client.Pairing.Nodes.{then_some, or_else, child}
use waepic.Client.Update.{Update}
use waepic.Client.Update.Session.{from_i32}
use waepic.Client.Handlers.Numbers.{parse_i32}
use waepic.Client.Handlers.Presence.{Stanzas, u64_attr}

abbrev pub is_code : ℕ → ℤ → Bool
is_code c (pos n) = n == c
is_code c (negsuc n) = false

abbrev pub is_there : {A : Type 0} → Option A → Bool
is_there none = false
is_there (some a) = true

module _ {N K : Type 0} (w : Wire N K) where
  abbrev pub is_conflict : N → Bool
  is_conflict n = w.tag n == "stream:error" && is_there (child w "conflict" n)

  abbrev pub numeric_code : N → Option ℤ
  numeric_code n = then_some (w.attr n "code") parse_i32

module _ {N K J R M H : Type 0} (w : Wire N K) (st : Stanzas N J R) where
  abbrev pub handle_success : N → Update J M R H N
  handle_success n = Update.pair_success

  abbrev pub with_code : N → ℤ → Update J M R H N
  with_code n code =
      if is_code 402 code
      then Update.temporary_ban (record { code = code; expire = u64_attr w st "expire" 0 n })
      else if is_code 405 code
      then Update.client_outdated
      else Update.connect_failure (record {
        reason = from_i32 code;
        message = or_else (then_some (child w "text" n) st.content_as_string) "";
      })

  abbrev pub without_code : N → Update J M R H N
  without_code n =
      if w.tag n == "stream:error"
      then Update.stream_error (record { code = or_else (w.attr n "code") "" })
      else Update.logged_out

  abbrev pub by_code : N → Option ℤ → Update J M R H N
  by_code n none = without_code n
  by_code n (some code) = with_code n code

  abbrev pub handle_failure : N → Update J M R H N
  handle_failure n =
      if is_conflict w n then Update.stream_replaced else by_code n (numeric_code w n)

  abbrev pub code_in : N → Option (Update J M R H N)
  code_in c =
      let code = or_else (w.attr c "code") "" in
      if code == "" then none else some (Update.pairing_code code (u64_attr w st "timeout" 120 c))

  abbrev pub handle_pair_code : N → Option (Update J M R H N)
  handle_pair_code n =
      if w.tag n == "iq" && attr_is w n "type" "set"
      then then_some (child w "pair-code" n) code_in
      else none
