-- ===== src/Connection/Handle/Requests.antt =====
-- The ids that the handle makes, and how an IQ ends.
use text.Mathlib.TextLemmas.{append_cancel_left}
use waepic.Prelude.{String, false, ◌≡◌, arith}
use waepic.Prelude.Outcome.{Result, ok}
use waepic.Prelude.Decimal.{decimal-injective}
use waepic.Connection.Error.{ConnectionError}
use waepic.Connection.Ports.{Wire}
use waepic.Connection.State.{Shared}
use waepic.Connection.Frame.{attr_is}
use waepic.Connection.Handle.{next_iq_id, Awaited, delivered, finish_iq}

-- Two ids that the handle makes are the same only where its counter stood at the same number.
pub next_iq_id-injective :
    {N : Type 0} (s t : Shared N)
    → (next_iq_id s).0 ≡ (next_iq_id t).0
    → s.iq_id_counter ≡ t.iq_id_counter
unfolding next_iq_id
next_iq_id-injective s t e =
    decimal-injective s.iq_id_counter t.iq_id_counter (append_cancel_left "waepic_" _ _ e)

module _ {N K A : Type 0} (w : Wire N K) (parse : N → Result String A) where
  -- `send_iq` returns `Ok` only when its node was sent, a response came in time that is no error response, and the spec parses that response to the value returned.
  pub finish_iq-ok :
      (sent : Awaited (Result ConnectionError (Unit {0})))
      (response : Awaited (Result ConnectionError N)) (a : A)
      → finish_iq w parse sent response ≡ ok a
      → (n : N) × (sent ≡ delivered (ok tt))
        × (response ≡ delivered (ok n))
        × (attr_is w n "type" "error" ≡ false)
        × (parse n ≡ ok a)
  unfolding finish_iq
  finish_iq-ok sent response a h = ground arith
