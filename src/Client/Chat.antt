-- ===== src/Client/Chat.antt =====
-- waepic-client/src/peer: the chats, without the client that each of them holds, and `chat` of
-- client/mod.rs. `Jid` is of another crate; `server` tells which of the servers that the code names
-- an address has.
use waepic.Prelude.{Option, none, some, Bool, true, false, String, ◌≡◌, refl}
use waepic.Prelude.Outcome.{Result, ok, err}
use waepic.Client.Server.{Server}
use waepic.Client.Error.{ClientError, internal}

pub record User (J : Type 0) : Type 0 where
  pub jid : J
  pub name : Option String
  pub push_name : Option String
  pub phone_number : Option String

pub record Group (J : Type 0) : Type 0 where
  pub jid : J
  pub subject : Option String

pub record Newsletter (J : Type 0) : Type 0 where
  pub jid : J
  pub name : Option String

pub record OtherChat (J : Type 0) : Type 0 where
  pub jid : J

pub data Chat (J : Type 0) : Type 0 where
  user : User J → Chat J
  group : Group J → Chat J
  newsletter : Newsletter J → Chat J
  other : OtherChat J → Chat J

-- `Option::or_else`
abbrev pub either : Option String → Option String → Option String
either none b = b
either (some a) b = some a

module _ {J : Type 0} where
  abbrev pub new_user : J → User J
  new_user jid = record { jid = jid; name = none; push_name = none; phone_number = none }

  abbrev pub new_group : J → Group J
  new_group jid = record { jid = jid; subject = none }

  abbrev pub new_newsletter : J → Newsletter J
  new_newsletter jid = record { jid = jid; name = none }

  abbrev pub new_other : J → OtherChat J
  new_other jid = record { jid = jid }

  abbrev pub set_push_name : String → User J → User J
  set_push_name name u = record u { push_name = some name }

  abbrev pub jid_of : Chat J → J
  jid_of (user u) = u.jid
  jid_of (group g) = g.jid
  jid_of (newsletter n) = n.jid
  jid_of (other o) = o.jid

  abbrev pub name_of : Chat J → Option String
  name_of (user u) = either u.name u.push_name
  name_of (group g) = g.subject
  name_of (newsletter n) = n.name
  name_of (other o) = none

  abbrev pub is_user : Chat J → Bool
  is_user (user u) = true
  is_user (group g) = false
  is_user (newsletter n) = false
  is_user (other o) = false

  abbrev pub is_group : Chat J → Bool
  is_group (user u) = false
  is_group (group g) = true
  is_group (newsletter n) = false
  is_group (other o) = false

  abbrev pub is_newsletter : Chat J → Bool
  is_newsletter (user u) = false
  is_newsletter (group g) = false
  is_newsletter (newsletter n) = true
  is_newsletter (other o) = false

  abbrev pub displayed : (J → String) → Chat J → String
  displayed shown c = elim (name_of c) [ none ↦ shown (jid_of c) | some name ↦ name ]

  -- The address whose history is requested, or the refusal.
  abbrev pub download_history : Chat J → Result ClientError J
  download_history (user u) = ok u.jid
  download_history (group g) = ok g.jid
  download_history (newsletter n) = err (internal "cannot download newsletter history")
  download_history (other o) = ok o.jid

  abbrev pub chat_on : Server → J → Chat J
  chat_on Server.pn jid = user (new_user jid)
  chat_on Server.lid jid = user (new_user jid)
  chat_on Server.group jid = group (new_group jid)
  chat_on Server.newsletter jid = newsletter (new_newsletter jid)
  chat_on Server.unnamed jid = other (new_other jid)

  abbrev pub chat : (J → Server) → J → Chat J
  chat server jid = chat_on (server jid) jid

  jid_of-chat_on : (x : Server) (jid : J) → jid_of (chat_on x jid) ≡ jid
  jid_of-chat_on Server.pn jid = refl
  jid_of-chat_on Server.lid jid = refl
  jid_of-chat_on Server.group jid = refl
  jid_of-chat_on Server.newsletter jid = refl
  jid_of-chat_on Server.unnamed jid = refl

  pub jid_of-chat : (server : J → Server) (jid : J) → jid_of (chat server jid) ≡ jid
  jid_of-chat server jid = jid_of-chat_on (server jid) jid
