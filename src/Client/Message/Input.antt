-- ===== src/Client/Message/Input.antt =====
-- waepic-client/src/message/input_message.rs: the message that is to be sent, and its builder.
use waepic.Prelude.{Option, none, some, Bool, true, false, String}
use waepic.Client.Message.Media.{InputMedia}

pub record InputMessage : Type 0 where
  pub text : Option String
  pub reply_to : Option String
  pub silent : Bool
  pub link_preview : Bool
  pub media : Option InputMedia

-- `Default`, which is also `InputMessage::empty`
abbrev pub empty_message : InputMessage
empty_message = record {
  text = none;
  reply_to = none;
  silent = false;
  link_preview = true;
  media = none;
}

abbrev pub text_message : String → InputMessage
text_message t = record empty_message { text = some t }

abbrev pub with_media : InputMedia → InputMessage → InputMessage
with_media m msg = record msg { media = some m }

abbrev pub with_reply_to : Option String → InputMessage → InputMessage
with_reply_to id msg = record msg { reply_to = id }

abbrev pub with_silent : Bool → InputMessage → InputMessage
with_silent b msg = record msg { silent = b }

abbrev pub with_link_preview : Bool → InputMessage → InputMessage
with_link_preview b msg = record msg { link_preview = b }
