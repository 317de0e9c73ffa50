-- ===== src/Client/Message/Media.antt =====
-- waepic-client/src/message/input_media.rs. The fields of a variant are the arguments of its
-- constructor in the order of the source.
use waepic.Prelude.{Option, none, some, Bool, false, String, if◌then◌else◌}
use waepic.Connection.Ports.{Bytes}

pub data InputMedia : Type 0 where
  image video : Option String → Bytes → Option String → InputMedia
  audio : Bytes → Option String → Bool → InputMedia
  document : Bytes → Option String → Option String → InputMedia
  sticker : Bytes → Option String → InputMedia

abbrev pub new_image : Bytes → InputMedia
new_image file = image none file none

abbrev pub new_video : Bytes → InputMedia
new_video file = video none file none

abbrev pub new_audio : Bytes → InputMedia
new_audio file = audio file none false

abbrev pub new_document : Bytes → InputMedia
new_document file = document file none none

abbrev pub new_sticker : Bytes → InputMedia
new_sticker file = sticker file none

abbrev pub with_caption : String → InputMedia → InputMedia
with_caption text (image c file m) = image (some text) file m
with_caption text (video c file m) = video (some text) file m
with_caption text (audio file m p) = audio file m p
with_caption text (document file f m) = document file f m
with_caption text (sticker file m) = sticker file m

abbrev pub with_mime_type : String → InputMedia → InputMedia
with_mime_type text (image c file m) = image c file (some text)
with_mime_type text (video c file m) = video c file (some text)
with_mime_type text (audio file m p) = audio file (some text) p
with_mime_type text (document file f m) = document file f (some text)
with_mime_type text (sticker file m) = sticker file (some text)

abbrev pub with_filename : String → InputMedia → InputMedia
with_filename text (image c file m) = image c file m
with_filename text (video c file m) = video c file m
with_filename text (audio file m p) = audio file m p
with_filename text (document file f m) = document file (some text) m
with_filename text (sticker file m) = sticker file m

abbrev pub with_ptt : Bool → InputMedia → InputMedia
with_ptt ptt (image c file m) = image c file m
with_ptt ptt (video c file m) = video c file m
with_ptt ptt (audio file m p) = audio file m ptt
with_ptt ptt (document file f m) = document file f m
with_ptt ptt (sticker file m) = sticker file m

abbrev pub contents : InputMedia → Bytes
contents (image c file m) = file
contents (video c file m) = file
contents (audio file m p) = file
contents (document file f m) = file
contents (sticker file m) = file

-- `Display`
abbrev pub shown_media : InputMedia → String
shown_media (image c file m) = "image"
shown_media (video c file m) = "video"
shown_media (audio file m p) = if p then "voice note" else "audio"
shown_media (document file f m) = "document"
shown_media (sticker file m) = "sticker"
