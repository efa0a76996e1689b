-- ===== src/Connector/Convert/Parts.antt =====
-- The parts of a converted message.
use matrix_groupme_bridge.Prelude.{
  ℕ, zero, suc, ◌+◌, ◌≡◌, refl, ap, ◌∙◌, String, List, [], ◌∷◌, ◌++◌, Option, none, some, ◌==◌, inl,
  inr, if◌then◌else◌, Outcome, done, Bool-cases, arith, itoa, length, length-append, map, All,
}
use mathlib.Core.List.{append_assoc, append-nil}
use matrix_groupme_bridge.Groupme.Types.{Attachment, Message}
use matrix_groupme_bridge.Media.{Web}
use matrix_groupme_bridge.Media.Notices.{IsReadable, convert_attachment-Returns}
use matrix_groupme_bridge.Connector.Convert.{
  Part, Converted, is_reply, numbered, text_parts, part_of, convert_attachments, convert_message,
}

-- The attachments that are not replies, and the last reply.
unfoldable pub content_count : List Attachment → ℕ
content_count [] = 0
content_count (a ∷ as_) = let n = content_count as_ in if is_reply a.type then n else suc n

unfoldable pub last_reply : List Attachment → Option String → Option String
last_reply [] found = found
last_reply (a ∷ as_) found = last_reply as_ (if is_reply a.type then some a.reply_id else found)

-- How many parts the text makes.
unfoldable pub text_count : String → ℕ
text_count text = if text == "" then 0 else 1

length-text_parts : (text : String) → length (text_parts text) ≡ text_count text
unfolding text_parts text_count
length-text_parts text = elim (Bool-cases (text == "")) [ inl e ↦ rw e refl | inr e ↦ rw e refl ]

-- So many texts, the numbers from one on.
unfoldable pub positions : ℕ → ℕ → List String
positions i zero = []
positions i (suc n) = itoa i ∷ positions (i + 1) n

map-numbered : (i : ℕ) (ps : List Part) → map Part.id (numbered i ps) ≡ positions i (length ps)
unfolding numbered positions
map-numbered i [] = refl
map-numbered i (p ∷ ps) = ap (λ ids. itoa i ∷ ids) (map-numbered (i + 1) ps)

module _ (web : Web) (room : String) where
  abbrev Gathers :
      List Attachment
      → List Part
      → Option String
      → Outcome web.World (List Part × Option String)
      → Type 0
  Gathers as_ parts found o =
      (got : List Part) × (w' : web.World) × (o ≡ done (parts ++ got, last_reply as_ found) w')
      × (length got ≡ content_count as_)

  convert_attachments_lem :
      (as_ : List Attachment) (parts : List Part) (found : Option String) (w : web.World)
      → All (λ a. IsReadable web a.type a.url) as_
      → Gathers as_ parts found (convert_attachments web room as_ parts found w)
  unfolding convert_attachments content_count last_reply
  convert_attachments_lem [] parts found w h = ([], w, rw (append-nil parts) refl, refl)
  convert_attachments_lem (a ∷ as_) parts found w h = elim (Bool-cases (is_reply a.type)) [
    | inl e ↦
        rw (e, convert_attachments, content_count, last_reply)
          (convert_attachments_lem as_ parts (some a.reply_id) w h.1)
    | inr e ↦
        let (c, w1, e1) = convert_attachment-Returns web room a w h.0 in
        let (got, w2, e2, l) =
          convert_attachments_lem as_ (parts ++ part_of a c ∷ []) found w1 h.1 in
        (
          part_of a c ∷ got,
          w2,
          rw (e, convert_attachments, last_reply)
              (rw e1 (
                e2
                ∙ ap (λ ps. done (ps, last_reply as_ found) w2)
                    (append_assoc parts (part_of a c ∷ []) got))),
          rw (e, content_count) (ap suc l),
        )
  ]

  -- Where every image has a URL that can be parsed, the conversion of a message returns; its parts are
  -- named by their positions from 0 on, and they are one for a text that is not empty and one for each
  -- attachment that is no reply, whether it could be converted or not; and it answers the message that
  -- the last attachment of type `reply` names.
  pub convert_message_lem :
      (m : Message) (w : web.World)
      → All (λ a. IsReadable web a.type a.url) m.attachments
      → (made : Converted) × (w' : web.World) × (convert_message web room m w ≡ done made w')
        × (map Part.id made.parts ≡ positions 0 (text_count m.text + content_count m.attachments))
        × (made.reply_to ≡ last_reply m.attachments none)
  unfolding convert_message
  convert_message_lem m w h =
      let (got, w', e, l) = convert_attachments_lem m.attachments (text_parts m.text) none w h in
      let size = length-append (text_parts m.text) got in
      (
        record {
          parts = numbered 0 (text_parts m.text ++ got);
          reply_to = last_reply m.attachments none;
        },
        w',
        rw (convert_message, e) refl,
        map-numbered 0 (text_parts m.text ++ got)
            ∙ ap (positions 0) (omega (arith, size, l, length-text_parts m.text)),
        refl,
      )
