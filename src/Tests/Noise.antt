-- ===== src/Tests/Noise.antt =====
-- The Noise socket and the backoff on concrete inputs.
use waepic.Prelude.{
  ℕ, ◌+◌, ◌/◌, ◌≡◌, ◌≤◌, refl, List, [], ◌∷◌, ◌++◌, some, true, false, get_elem?, arith,
}
use waepic.Prelude.Outcome.{ok}
use waepic.Connection.Ports.{Bytes}
use waepic.Connection.Backoff.{fibonacci_backoff}
use waepic.Connection.Backoff.Fibonacci.{ideal, fibonacci_backoff_bounds}
use waepic.Connection.Noise.{Link, new, encrypt_and_send, encrypt_and_frame, decrypt_with}
use waepic.Connection.Noise.Reading.{decrypt_all, decrypt_all_at, numbered}
use waepic.Connection.Noise.Writing.{
  InOrder, send_each, accepted, send_each-InOrder, failed_send_keeps_counter,
}
use waepic.Tests.Doubles.{plain, Line, line, line_journal}

abbrev pub start : Link ℕ Line
start = record { noise_socket = new 5 6; transport = record { up = true; carried = [] } }

abbrev cut : Link ℕ Line
cut = record { noise_socket = new 5 6; transport = record { up = false; carried = [] } }

abbrev payloads : List Bytes
payloads = (8 ∷ []) ∷ (9 ∷ []) ∷ []

start-InOrder : InOrder plain line line_journal start []
start-InOrder = record { counted = refl; bounded = omega arith; numbered = tt }

send_each-InOrder_example :
    InOrder plain line line_journal
      (send_each plain line payloads start)
      ([] ++ accepted plain line payloads start)
send_each-InOrder_example =
    send_each-InOrder plain line line_journal payloads start [] start-InOrder

carried_after :
    (send_each plain line payloads start).transport.carried ≡ (0 ∷ 8 ∷ []) ∷ (1 ∷ 9 ∷ []) ∷ []
unfolding send_each encrypt_and_send encrypt_and_frame
carried_after = refl

decrypt_all_at_example :
    get_elem? (decrypt_all plain ((9 ∷ []) ∷ (1 ∷ 4 ∷ []) ∷ []) (new 5 6)) 1
    ≡ some (numbered plain 6 1 (1 ∷ 4 ∷ []))
decrypt_all_at_example =
    decrypt_all_at plain ((9 ∷ []) ∷ (1 ∷ 4 ∷ []) ∷ []) 1 (1 ∷ 4 ∷ []) (new 5 6) (omega arith) refl

opened_after_a_failure : numbered plain 6 1 (1 ∷ 4 ∷ []) ≡ ok (4 ∷ [])
unfolding decrypt_with
opened_after_a_failure = refl

failed_send_keeps_counter_example :
    ((encrypt_and_send plain line (8 ∷ []) cut).1.transport
      ≡ (line.send (0 ∷ 8 ∷ []) cut.transport).1)
    × ((encrypt_and_send plain line
          (9 ∷ [])
          (encrypt_and_send plain line (8 ∷ []) cut).1).1.transport
        ≡ (line.send (0 ∷ 9 ∷ []) (encrypt_and_send plain line (8 ∷ []) cut).1.transport).1)
unfolding encrypt_and_frame
failed_send_keeps_counter_example =
    failed_send_keeps_counter plain line (8 ∷ []) (9 ∷ []) (0 ∷ 8 ∷ []) (0 ∷ 9 ∷ []) cut "line down"
      (omega arith) refl refl refl

fibonacci_backoff_bounds_example :
    (fibonacci_backoff 7 ≤ ideal 7 + ideal 7 / 10)
    × (ideal 7 ≤ fibonacci_backoff 7 + ideal 7 / 10)
    × (2 ≤ fibonacci_backoff 7)
    × (fibonacci_backoff 7 ≤ 60)
fibonacci_backoff_bounds_example = fibonacci_backoff_bounds 7

first_delays :
    (fibonacci_backoff 0 ∷ fibonacci_backoff 4 ∷ fibonacci_backoff 7 ∷ fibonacci_backoff 8 ∷ [])
    ≡ 2 ∷ 11 ∷ 40 ∷ 60 ∷ []
unfolding fibonacci_backoff
first_delays = refl
