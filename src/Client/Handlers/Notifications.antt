-- ===== src/Client/Handlers/Notifications.antt =====
-- The notifications of waepic-client/src/client/handlers.rs that become an update.
use waepic.Prelude.{
  List, [], ◌∷◌, ◌++◌, Option, none, some, true, false, ◌||◌, String, ◌==◌, text_eq, keep,
  if◌then◌else◌,
}
use waepic.Connection.Ports.{Wire}
use waepic.Client.Pairing.Nodes.{then_some, or_else, filter_map, child}
use waepic.Client.Update.{
  Update, contact_update, group_update, picture_update, push_name_update, disappearing_mode_changed,
}
use waepic.Client.Update.Contacts.{PictureUpdate}
use waepic.Client.Handlers.Numbers.{parse_u32}
use waepic.Client.Handlers.Presence.{Stanzas, u64_attr}

abbrev pub first_of : {A : Type 0} → Option A → Option A → Option A
first_of none b = b
first_of (some a) b = some a

module _ {N K : Type 0} (w : Wire N K) where
  abbrev pub picture_id_of : N → Option String
  picture_id_of n =
      then_some (first_of (child w "set" n) (child w "picture" n)) (λ c. w.attr c "id")

module _ {N K J R : Type 0} (w : Wire N K) (st : Stanzas N J R) where
  abbrev pub participants_in : Option (List N) → List J
  participants_in none = []
  participants_in (some cs) =
      filter_map (λ c. st.jid_attr c "jid") (keep (λ c. w.tag c == "participant") cs)

  -- The participants of each `add` and `remove`, in order.
  abbrev pub participants_of : List N → List J
  participants_of [] = []
  participants_of (c ∷ cs) =
      let rest = participants_of cs in
      if w.tag c == "add" || w.tag c == "remove"
      then participants_in (w.children c) ++ rest
      else rest

  abbrev pub picture_for : J → N → Option N → PictureUpdate J
  picture_for from n (some removed) = record {
    jid = from;
    author = none;
    timestamp = u64_attr w st "t" 0 n;
    removed = true;
    picture_id = none;
  }
  picture_for from n none = record {
    jid = from;
    author = none;
    timestamp = u64_attr w st "t" 0 n;
    removed = false;
    picture_id = picture_id_of w n;
  }

module _ {N K J R M H : Type 0} (w : Wire N K) (st : Stanzas N J R) where
  abbrev pub handle_contacts_notification : N → Option (Update J M R H N)
  handle_contacts_notification n = then_some (child w "update" n) λ u.
      then_some (st.jid_attr u "jid") λ jid. some (
        contact_update
          (record { jid = jid; name = w.attr u "name"; push_name = w.attr u "push_name" }))

  abbrev pub handle_group_notification : N → Option (Update J M R H N)
  handle_group_notification n = then_some (st.jid_attr n "from") λ from. some (
      group_update (record {
        jid = from;
        name = then_some (child w "subject" n) st.content_as_string;
        participants = participants_of w st (or_else (w.children n) []);
      }))

  abbrev pub handle_picture_notification : N → Option (Update J M R H N)
  handle_picture_notification n =
      then_some (st.jid_attr n "from")
        λ from. some (picture_update (picture_for w st from n (child w "remove" n)))

  abbrev pub handle_push_name_notification : N → Option (Update J M R H N)
  handle_push_name_notification n = then_some (st.jid_attr n "from") λ from. some (
      push_name_update (record {
        jid = from;
        old_push_name = "";
        new_push_name = or_else (then_some (child w "push" n) st.content_as_string) "";
      }))

  abbrev pub handle_disappearing_mode_notification : N → Option (Update J M R H N)
  handle_disappearing_mode_notification n = then_some (st.jid_attr n "from") λ from. some (
      disappearing_mode_changed (record {
        from = from;
        duration = or_else (then_some (w.attr n "duration") parse_u32) 0;
        setting_timestamp = u64_attr w st "t" 0 n;
      }))

  -- `handle_notification` after the test for the pair code.
  abbrev pub by_type : String → N → Option (Update J M R H N)
  by_type kind n =
      if kind == "contacts"
      then handle_contacts_notification n
      else if kind == "w:gp2"
      then handle_group_notification n
      else if kind == "picture"
      then handle_picture_notification n
      else if kind == "w:push" || kind == "push_name"
      then handle_push_name_notification n
      else if kind == "disappearing_mode"
      then handle_disappearing_mode_notification n
      else none
