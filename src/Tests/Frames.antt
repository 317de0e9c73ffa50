-- ===== src/Tests/Frames.antt =====
-- Frames, the read loop, the handle and the waiters on concrete inputs.
use waepic.Prelude.{
  ℕ, ◌≡◌, refl, [], ◌∷◌, ◌++◌, none, some, false, String, ◌==◌, text_eq, if◌then◌else◌,
}
use waepic.Prelude.Outcome.{Result, ok}
use waepic.Prelude.Map
use waepic.Connection.State
use waepic.Connection.Error.{ConnectionError}
use waepic.Connection.State.{Shared, Live, node, fresh, send_node}
use waepic.Connection.Frame.{route, has_child, acknowledge}
use waepic.Connection.Frame.Routing.{route_response, route_request, logged_out-route}
use waepic.Connection.Handle.{InfoQuery, InfoQueryType, begin_iq, Awaited, delivered}
use waepic.Connection.ReadLoop.{receive}
use waepic.Connection.ReadLoop.Draining.{receive-empties}
use waepic.Connection.Waiters.{Accounts, Reach, start, begins, Reach-Accounts}
use waepic.Tests.Doubles.{
  plain, Line, line, Element, element, nil, cons, nodes, chunks, chunks-IsCounting,
}
use waepic.Tests.Noise

abbrev waiting : Live ℕ Line Element
waiting = record {
  link = Noise.start;
  shared = record (fresh {N = Element}) { iq_waiters = ("waepic_0", 4) ∷ [] };
}

abbrev response : Element
response = element "iq" (("id", "waepic_0") ∷ ("type", "result") ∷ []) nil

abbrev pairing : Element
pairing = element "iq" (("id", "9") ∷ ("type", "set") ∷ []) (cons (element "success" [] nil) nil)

route_response_example :
    let t = route plain line nodes response waiting in
    (t.answers ≡ waiting.answers ++ (4, ok response) ∷ [])
    × ((j : String)
        → Map.get j t.iq_waiters ≡ (if "waepic_0" == j then none else Map.get j waiting.iq_waiters))
    × (t.link ≡ waiting.link)
    × (t.events ≡ waiting.events ++ node response ∷ [])
unfolding Map.get
route_response_example =
    route_response plain line nodes response "waepic_0" 4 waiting refl refl refl refl

route_request_example :
    let t = route plain line nodes pairing waiting in
    (t.iq_waiters ≡ waiting.iq_waiters)
    × (t.answers ≡ waiting.answers)
    × (t.link ≡ (
        if has_child nodes pairing "pair-success"
        then waiting.link
        else acknowledge plain line nodes (some "9") waiting.link))
    × (t.events
        ≡ (if has_child nodes pairing "success"
            then waiting.events ++ State.connected ∷ []
            else waiting.events)
          ++ node pairing ∷ [])
unfolding Map.get
route_request_example = route_request plain line nodes pairing waiting refl

logged_out-route_example :
    (route plain line nodes (element "stream:error" [] nil) waiting).logged_out ≡ false
logged_out-route_example = logged_out-route plain line nodes (element "stream:error" [] nil) waiting

receive-empties_example :
    chunks.decode_frame (receive plain line nodes chunks (0 ∷ []) ([], waiting)).0 ≡ none
receive-empties_example =
    receive-empties plain line nodes chunks chunks-IsCounting (0 ∷ []) [] waiting

abbrev in_time : Awaited (Result ConnectionError Element)
in_time = delivered (ok response)

abbrev was_sent : Awaited (Result ConnectionError (Unit {0}))
was_sent = delivered (ok tt)

abbrev count_children : Element → Result String ℕ
count_children n = ok 3

abbrev query : InfoQuery (Unit {0})
query = record {
  query_type = InfoQueryType.get;
  namespace = "w:p";
  to = "s.whatsapp.net";
  id = none;
  content = none;
}

begun : Reach plain line nodes chunks (4 ∷ []) (begin_iq nodes query 4 fresh).1
unfolding Map.get
begun = begins (start refl) query 4 refl refl

Reach-Accounts_example : Accounts (4 ∷ []) (begin_iq nodes query 4 fresh).1
Reach-Accounts_example = Reach-Accounts plain line nodes chunks begun
