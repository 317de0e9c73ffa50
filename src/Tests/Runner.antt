-- ===== src/Tests/Runner.antt =====
-- The runner on concrete inputs.
use waepic.Prelude.{ℕ, ◌≡◌, refl, List, [], ◌∷◌, none, some, true, arith}
use waepic.Prelude.Outcome.{ok}
use waepic.Connection.Error.{socket}
use waepic.Connection.State.{broadcast, RunnerFields, default_config, new, disconnect}
use waepic.Connection.Handshake.{
  perform_xx_handshake, recv_handshake_frame, connected, data_received, event,
}
use waepic.Connection.Lifecycle.{cleanup_connection, Episode, opened, refused, connect_once}
use waepic.Connection.Lifecycle.Dialling.{Dials, connect_once-Dials}
use waepic.Connection.ReadLoop.{turn, read_loop, command, transport_closed}
use waepic.Connection.Runner.{go_round, run}
use waepic.Connection.Runner.Ending.{IsIdle, Settles, go_round-Settles, LeavesIdle, run-LeavesIdle}
use waepic.Connection.Runner.Retrying.{Fails, backoffs, run-Fails}
use waepic.Tests.Doubles.{plain, Line, line, Element, nodes, chunks, greeting}

abbrev idle : RunnerFields ℕ Line Element
idle = new (record default_config { max_reconnect_attempts = 1 })

-- A connection that comes up, and whose transport is lost.
abbrev lost : Episode ℕ Line Element
lost = record {
  load = ok (some 1);
  dialled = opened (record { up = true; carried = [] });
  first = some connected;
  polls = event (data_received (3 ∷ [])) ∷ [];
  wakeups = transport_closed ∷ [];
}

abbrev closed_down : Episode ℕ Line Element
closed_down = record lost { wakeups = command disconnect ∷ [] }

abbrev no_network : Episode ℕ Line Element
no_network = record lost { dialled = refused "unreachable" }

idle-IsIdle : IsIdle idle
idle-IsIdle = record { flag = refl; transport = refl; socket = refl; receiver = refl }

connect_once-Dials_example :
    Dials plain line chunks greeting idle (connect_once plain line chunks greeting lost idle)
connect_once-Dials_example = connect_once-Dials plain line chunks greeting lost idle

go_round-Settles_example : Settles 0 (go_round plain line nodes chunks greeting lost 0 idle)
go_round-Settles_example = go_round-Settles plain line nodes chunks greeting lost 0 idle idle-IsIdle

abbrev script : List (Episode ℕ Line Element)
script = no_network ∷ lost ∷ closed_down ∷ []

run-LeavesIdle_example :
    LeavesIdle plain line nodes chunks greeting (run plain line nodes chunks greeting script 0 idle)
run-LeavesIdle_example = run-LeavesIdle plain line nodes chunks greeting script 0 idle idle-IsIdle

script_runs : (run plain line nodes chunks greeting script 0 idle).outcome ≡ some (ok tt)
unfolding run go_round connect_once read_loop perform_xx_handshake recv_handshake_frame turn
    broadcast cleanup_connection
script_runs = refl

no_network-Fails : Fails plain line nodes chunks greeting idle no_network
unfolding connect_once
no_network-Fails = (socket "transport connect failed: unreachable", idle, refl)

run-Fails_example :
    run plain line nodes chunks greeting (no_network ∷ no_network ∷ no_network ∷ []) 0 idle
    ≡ record {
      outcome = none;
      fields = idle;
      delays =
          backoffs plain line nodes chunks greeting 0 (no_network ∷ no_network ∷ no_network ∷ []);
    }
run-Fails_example =
    run-Fails plain line nodes chunks greeting (no_network ∷ no_network ∷ no_network ∷ []) 0 idle
      refl refl (omega arith) (no_network-Fails, (no_network-Fails, (no_network-Fails, tt)))
