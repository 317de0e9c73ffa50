-- ===== src/Tests/History.antt =====
-- A history sync of two conversations, one of which has no address, and a dirty bit.
use waepic.Prelude.{
  ℕ, [], ◌∷◌, none, some, true, String, ◌==◌, text_eq, nat_eq, if◌then◌else◌, ◌≡◌, refl,
}
use waepic.Prelude.Outcome.{ok}
use waepic.Prelude.Map.{get}
use waepic.Session.Sql.Log.{log}
use waepic.Client.Server.{pn}
use waepic.Client.Handlers.Dirty.{DirtyBit, handle_dirty_child}
use waepic.Client.World.{asked, app_state_sync, clean_dirty_bits, sent, World}
use waepic.Client.Handlers.History.{
  HistoryMessage, Conversation, HistoryFormat, build_history_sync_receipt_node, handle_history_sync,
}
use waepic.Client.Handlers.History.Synced.{Reports, handle_history_sync-Reports}
use waepic.Tests.Doubles.{Element, element, nil, cons}
use waepic.Tests.Pairing.{tagged, new_device, kind_peer, start}

abbrev greeting : HistoryMessage ℕ
greeting = record {
  id = some "M1";
  from_me = none;
  participant = none;
  message_timestamp = some 5;
  message = 4;
}

abbrev anonymous : HistoryMessage ℕ
anonymous = record greeting { participant = some "" }

abbrev talk : Conversation ℕ
talk = record {
  id = "551@s";
  new_jid = none;
  name = some "";
  pinned = some 0;
  archived = none;
  mute_end_time = some 3;
  unread_count = none;
  messages = greeting ∷ anonymous ∷ [];
}

abbrev format : HistoryFormat String ℕ ℕ
format = record {
  decompress = λ b. ok b;
  decode = λ b. ok (talk ∷ record talk { id = "" } ∷ []);
  inline_payload = λ b. ok none;
  parse_jid = λ t. if t == "" then none else some t;
  server = λ j. pn;
  new_message = λ m info c. m;
  to_non_ad_string = λ j. j;
}

abbrev chunk : Element
chunk = element "ib" (("id", "H1") ∷ []) (cons (element "history_sync" [] nil) nil)

abbrev logged_in : World log String ℕ Element
logged_in = record start { device = record new_device { pn = some "551@s" } }

handle_history_sync-Reports_example :
    Reports {R = ℕ} {H = ℕ} {N = Element} format
      (1 ∷ 2 ∷ [])
      ((handle_history_sync tagged format kind_peer true chunk logged_in).0)
    × ((handle_history_sync tagged format kind_peer true {R = ℕ} {H = ℕ} chunk logged_in).1.calls
        ≡ sent (build_history_sync_receipt_node tagged format "H1" "551@s") ∷ [])
unfolding get
handle_history_sync-Reports_example =
    handle_history_sync-Reports tagged format kind_peer chunk logged_in (1 ∷ 2 ∷ []) "H1" "551@s"
      refl refl refl

abbrev bit : DirtyBit
bit = record { is_syncd_app_state = true; timestamp = some 8 }

cleaned_first :
    (handle_dirty_child kind_peer tagged
      (λ t ts. ok bit)
      (element "dirty" (("type", "syncd_app_state") ∷ []) nil)
      logged_in).calls
    ≡ asked (app_state_sync "regular")
      ∷ asked (app_state_sync "regular_high")
      ∷ asked (app_state_sync "regular_low")
      ∷ asked (app_state_sync "critical_unblock_low")
      ∷ asked (app_state_sync "critical_block")
      ∷ asked (clean_dirty_bits "syncd_app_state" (some 8))
      ∷ []
unfolding get
cleaned_first = refl
