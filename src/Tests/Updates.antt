-- ===== src/Tests/Updates.antt =====
-- An update stream on nodes without contents.
use waepic.Prelude.{
  ℕ, ◌+◌, List, [], ◌∷◌, none, true, false, String, ◌==◌, nat_eq, text_eq, ◌≡◌, refl, ◌↔◌, arith,
}
use waepic.Prelude.Outcome.{ok}
use waepic.Prelude.Map.{get}
use waepic.Connection.State
use waepic.Session.Sql.Log.{log}
use waepic.Client.Server.{pn}
use waepic.Client.Update.{Update}
use waepic.Client.Handlers.Presence.{Stanzas}
use waepic.Client.Handlers.Failures.{handle_failure, numeric_code}
use waepic.Client.Updates.{
  Seen, event, overflowed, Stream, Handlers, updates, run_update_stream, on_node, is_logout,
}
use waepic.Client.Updates.Flushes.{Paced, countable, run_update_stream-Paced}
use waepic.Client.Updates.Window.{run_update_stream-Windowed}
use waepic.Client.Updates.Window.Steps.{Behaves, Windowed}
use waepic.Client.Updates.Logout.{handle_failure-logout, on_node-logout}
use waepic.Tests.Doubles.{Element, element, nil}
use waepic.Tests.Pairing.{tagged, device_json, kind_peer, start, utils}

abbrev stanzas : Stanzas Element String String
stanzas = record {
  jid_attr = λ e key. tagged.attr e key;
  content_as_string = λ e. none;
  parse_receipt_type = λ t. t;
  delivered = "delivery";
  server = λ j. pn;
}

-- Messages and history syncs are texts.
abbrev echo : Handlers log String ℕ String String String Element String
echo = record {
  process_incoming_node = λ n t. (ok (updates (Update.new_message "m" ∷ [])), t);
  handle_pair_code_notification = λ n t. (ok false, t);
}

echo_plain : Behaves echo
echo_plain = record {
  message_flag = λ n t. refl;
  code_flag = λ n t. refl;
  plain = λ n t us h. ground arith;
}

abbrev quiet_stream : Stream log String ℕ String String String Element String
quiet_stream = record { world = start; sent = []; tasks = []; event_count = 0; flushes = 0 }

abbrev paired_stream : Stream log String ℕ String String String Element String
paired_stream = record quiet_stream { world = record start { post_pair_reconnect = true } }

abbrev failure : Element
failure = element "failure" [] nil

abbrev failure_515 : Element
failure_515 = element "stream:error" (("code", "515") ∷ []) nil

abbrev message : Element
message = element "message" [] nil

abbrev reconnecting : List (Seen log Element)
reconnecting =
    event (State.node failure_515)
    ∷ event State.disconnected
    ∷ event (State.node message)
    ∷ overflowed 3
    ∷ []

abbrev streamed :
    List (Seen log Element)
    → Stream log String ℕ String String String Element String
    → Stream log String ℕ String String String Element String
streamed =
    run_update_stream tagged stanzas device_json utils.shown kind_peer (element "ib" [] nil) echo

held : (streamed reconnecting paired_stream).sent ≡ Update.new_message "m" ∷ []
unfolding get
held = refl

run_update_stream-Paced_example :
    Paced (0 + countable tagged reconnecting) (streamed reconnecting quiet_stream)
run_update_stream-Paced_example =
    run_update_stream-Paced tagged stanzas device_json utils.shown kind_peer (element "ib" [] nil)
      echo reconnecting quiet_stream refl

run_update_stream-Windowed_example : Windowed paired_stream (streamed reconnecting paired_stream)
run_update_stream-Windowed_example =
    run_update_stream-Windowed tagged stanzas device_json utils.shown kind_peer
      (element "ib" [] nil) echo echo_plain reconnecting paired_stream tt refl

handle_failure-logout_example :
    (is_logout {J = String} {M = String} {R = String} {H = String} {N = Element}
        (handle_failure tagged stanzas failure)
      ≡ true)
    ↔ ((tagged.tag failure == "stream:error" ≡ false) × (numeric_code tagged failure ≡ none))
handle_failure-logout_example = handle_failure-logout String String tagged stanzas failure

on_node-logout_example :
    ((on_node tagged stanzas device_json utils.shown kind_peer
        (element "ib" [] nil)
        echo
        failure
        quiet_stream).sent
      ≡ Update.logged_out ∷ [])
    × (log.select 0 (
          (on_node tagged stanzas device_json utils.shown kind_peer
            (element "ib" [] nil)
            echo
            failure
            quiet_stream).world.session.device)
        ≡ none)
unfolding get
on_node-logout_example =
    on_node-logout tagged stanzas device_json utils.shown kind_peer (element "ib" [] nil) echo
      failure quiet_stream refl refl tt
