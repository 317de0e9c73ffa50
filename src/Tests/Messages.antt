-- ===== src/Tests/Messages.antt =====
-- The builders of a message on concrete files.
use waepic.Prelude.{[], ◌∷◌, some, true, ◌≡◌, refl}
use waepic.Client.Message.Media.{
  document, new_image, new_audio, new_document, with_caption, with_mime_type, with_filename,
  with_ptt, contents, shown_media,
}
use waepic.Client.Message.Input.{text_message, with_media, with_reply_to, with_silent}

named_document :
    with_caption "c" (with_filename "f" (with_mime_type "m" (new_document (1 ∷ []))))
    ≡ document (1 ∷ []) (some "f") (some "m")
named_document = refl

voice_note : shown_media (with_ptt true (with_filename "f" (new_audio []))) ≡ "voice note"
voice_note = refl

captioned : contents (with_caption "c" (new_image (1 ∷ []))) ≡ 1 ∷ []
captioned = refl

built :
    (with_silent true
      (with_reply_to (some "M") (with_media (new_image []) (text_message "t")))).link_preview
    ≡ true
built = refl
