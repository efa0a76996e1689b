-- ===== src/Connector/Convert.antt =====
-- The conversion of a GroupMe message to Matrix: `convertMessage` of pkg/connector/handler.go.
pub mod Parts
use matrix_groupme_bridge.Prelude.{
  ℕ, zero, suc, ◌+◌, ◌<◌, ◌≡◌, refl, String, List, [], ◌∷◌, ◌++◌, Option, none, some, Bool, true,
  false, ◌==◌, ◌⊎◌, inl, inr, if◌then◌else◌, Outcome, unfinished, Run, done, panics, pure, ◌>>=◌,
  itoa,
}
use matrix_groupme_bridge.Groupme.Types.{Attachment, AttachmentType, reply, Message, type_text}
use matrix_groupme_bridge.Media.{
  Web, Content, text_content, notice_content, MediaError, error_notice, convert_attachment,
}

-- A part of a Matrix message.
pub record Part : Type 0 where
  pub id : String
  pub content : Content
  pub is_unsupported : Bool

pub record Converted : Type 0 where
  pub parts : List Part
  pub reply_to : Option String

unfoldable pub content_part : Content → Part
content_part c = record { id = ""; content = c; is_unsupported = false }

-- The part that `ErrorToNotice` makes.
unfoldable pub notice_part : MediaError → String → Part
unfolding error_notice
notice_part e kind = record {
  id = "";
  content = notice_content (error_notice e kind);
  is_unsupported = true;
}

unfoldable pub part_of : Attachment → Content ⊎ MediaError → Part
unfolding content_part notice_part
part_of a (inl content) = content_part content
part_of a (inr e) = notice_part e (type_text a.type)

unfoldable pub is_reply : AttachmentType → Bool
is_reply reply = true
is_reply _ = false

-- The last loop of `convertMessage`: each part is named by its position.
unfoldable pub numbered : ℕ → List Part → List Part
numbered i [] = []
numbered i (p ∷ ps) = (record p { id = itoa i }) ∷ numbered (i + 1) ps

unfoldable pub text_parts : String → List Part
unfolding content_part
text_parts text = if text == "" then [] else content_part (text_content text) ∷ []

module _ (web : Web) (room : String) where
  -- The loop over the attachments, with the parts and the reply so far.
  unfoldable pub convert_attachments :
      List Attachment → List Part → Option String → Run web.World (List Part × Option String)
  unfolding part_of is_reply
  convert_attachments [] parts reply_to w = done (parts, reply_to) w
  convert_attachments (a ∷ rest) parts reply_to w =
      let skipped = convert_attachments rest parts (some a.reply_id) w in
      elim (is_reply a.type) [
        | true ↦ skipped
        | false ↦ elim (convert_attachment web a room w) [
          | done c w' ↦ convert_attachments rest (parts ++ part_of a c ∷ []) reply_to w'
          | panics p ↦ panics p
          | unfinished ↦ unfinished
        ]
      ]

  unfoldable pub convert_message : Message → Run web.World Converted
  unfolding convert_attachments numbered text_parts
  convert_message m = do
    found ← convert_attachments m.attachments (text_parts m.text) none
    pure (record { parts = numbered 0 found.0; reply_to = found.1 })
