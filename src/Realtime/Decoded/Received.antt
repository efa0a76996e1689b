-- ===== src/Realtime/Decoded/Received.antt =====
-- What the handlers make of the JSON of a GroupMe message whose numbers have been float64.
use matrix_groupme_bridge.Prelude.{
  ℕ, ◌<◌, ◌^◌, ◌≡◌, refl, ap, ◌∙◌, String, List, [], ◌∷◌, All, All-map, eqb, itoa, itoa64,
  parse_uint64, parse_uint64-itoa, Bool-cases, inl, inr, eqb_iff, sym,
}
use matrix_groupme_bridge.Prelude.Json.{arr, obj}
use matrix_groupme_bridge.Prelude.Json.Struct.{fill, write_all}
use matrix_groupme_bridge.Prelude.Json.Columns.{
  read_list, read_struct, write_items, text_column, flag_column, texts_column, int_lists_column,
  ints_json,
}
use matrix_groupme_bridge.Prelude.Json.Laws.{read_list-structs, read_number-num}
use matrix_groupme_bridge.Prelude.Json.Floats.{
  remade, remade_fields, Kept, AllSame, all_same, ◌◃◌, if-SameWritten, remade-write_items,
  remade-ints_json, same_texts, remade_fields-write_all,
}
use matrix_groupme_bridge.Prelude.Json.Floats.Moves.{
  Leaves, left, ◌▹◌, fill-remade, number_after, number-Moves, structs_after, structs_json,
  structs-Moves, text-Moves, flag-Moves, texts-Moves,
}
use matrix_groupme_bridge.Groupme.Types.{Attachment, Message, Member}
use matrix_groupme_bridge.Groupme.Types.Empty.{no_message, no_attachment}
use matrix_groupme_bridge.Groupme.Wire.{
  member_columns, attachment_columns, message_columns, type_column,
}
use matrix_groupme_bridge.Groupme.Wire.Fits.{MessageFits, AttachmentFits}
use matrix_groupme_bridge.Groupme.Wire.RoundTrip.{message_found, attachments-Read}

module _ (reprint : String → String) where
  -- The message, with what becomes of the numbers in it.
  abbrev pub received : Message → Message
  received m = record m {
    created_at = number_after reprint m.created_at 0;
    attachments = structs_after reprint attachment_columns no_attachment m.attachments [];
  }

  message-Leaves : (m : Message) → Leaves reprint m message_columns no_message (received m)
  unfolding message_columns
  message-Leaves m =
      text-Moves reprint _ _ _ refl
      ▹ text-Moves reprint _ _ _ refl
      ▹ number-Moves reprint _ _ _ refl
      ▹ text-Moves reprint _ _ _ refl
      ▹ text-Moves reprint _ _ _ refl
      ▹ text-Moves reprint _ _ _ refl
      ▹ text-Moves reprint _ _ _ refl
      ▹ text-Moves reprint _ _ _ refl
      ▹ flag-Moves reprint _ _ _ refl
      ▹ text-Moves reprint _ _ _ refl
      ▹ text-Moves reprint _ _ _ refl
      ▹ text-Moves reprint _ _ _ refl
      ▹ text-Moves reprint _ _ _ refl
      ▹ text-Moves reprint _ _ _ refl
      ▹ text-Moves reprint _ _ _ refl
      ▹ text-Moves reprint _ _ _ refl
      ▹ texts-Moves reprint _ _ _ refl
      ▹ structs-Moves reprint _ _ _ _ _ refl
      ▹ left

  pub message-received :
      (m : Message)
      → (fill message_columns (remade_fields reprint (write_all message_columns m)) no_message).0
        ≡ received m
  message-received m =
      fill-remade reprint message_columns message_columns message_found (message-Leaves m)

  abbrev IntsKept : List ℕ → Type 0
  IntsKept = All (λ n. Kept reprint (itoa64 n))

  pub record AttachmentKept (a : Attachment) : Type 0 where
    pub loci : All IntsKept a.loci
    pub charmap : All IntsKept a.charmap

  -- A message of which float64 holds every number, so that its literal is printed again as it is.
  pub record MessageKept (m : Message) : Type 0 where
    pub created_at : Kept reprint (itoa m.created_at)
    pub attachments : All AttachmentKept m.attachments

  attachment-AllSame : (a : Attachment) → AttachmentKept a → AllSame reprint a attachment_columns
  unfolding attachment_columns type_column text_column texts_column int_lists_column remade
  attachment-AllSame a h =
      if-SameWritten reprint _ _ refl
      ◃ if-SameWritten reprint _ _ (
          remade-write_items reprint ints_json a.loci
            (All-map IntsKept _ a.loci (remade-ints_json reprint) h.loci))
      ◃ if-SameWritten reprint _ _
          (remade-write_items reprint _ a.user_ids (same_texts reprint a.user_ids))
      ◃ if-SameWritten reprint _ _ refl
      ◃ if-SameWritten reprint _ _ refl
      ◃ if-SameWritten reprint _ _ refl
      ◃ if-SameWritten reprint _ _ refl
      ◃ if-SameWritten reprint _ _ refl
      ◃ if-SameWritten reprint _ _ refl
      ◃ if-SameWritten reprint _ _ refl
      ◃ if-SameWritten reprint _ _ (
          remade-write_items reprint ints_json a.charmap
            (All-map IntsKept _ a.charmap (remade-ints_json reprint) h.charmap))
      ◃ if-SameWritten reprint _ _ refl
      ◃ if-SameWritten reprint _ _ refl
      ◃ all_same

  attachments_json-Kept :
      (as_ : List Attachment)
      → All AttachmentKept as_
      → remade reprint (structs_json reprint attachment_columns no_attachment as_)
        ≡ structs_json reprint attachment_columns no_attachment as_
  unfolding remade
  attachments_json-Kept as_ h = remade-write_items reprint _ as_ (
      All-map AttachmentKept _ as_
        (λ a k.
          ap obj (remade_fields-write_all reprint attachment_columns a (attachment-AllSame a k)))
        h)

  number_after-Kept : (n : ℕ) → n < 2 ^ 64 → Kept reprint (itoa n) → number_after reprint n 0 ≡ n
  unfolding remade
  number_after-Kept n small kept = elim (Bool-cases (eqb n 0)) [
    | inl e ↦ rw e (sym ((eqb_iff n 0).0 e))
    | inr e ↦
        rw (e, kept)
          (ap (λ p. p.0)
            (read_number-num parse_uint64 "uint64" (itoa n) n 0 (parse_uint64-itoa n small)))
  ]

  attachments_after-Kept :
      (as_ : List Attachment)
      → All AttachmentFits as_
      → All AttachmentKept as_
      → structs_after reprint attachment_columns no_attachment as_ [] ≡ as_
  attachments_after-Kept [] fits kept = refl
  attachments_after-Kept (a ∷ as_) fits kept =
      ap (λ j. (read_list no_attachment (read_struct attachment_columns) j []).0)
        (attachments_json-Kept (a ∷ as_) kept)
      ∙ ap (λ p. p.0)
          (read_list-structs attachment_columns no_attachment (a ∷ as_) []
            (attachments-Read (a ∷ as_) fits))

  pub received-Kept : (m : Message) → MessageFits m → MessageKept m → received m ≡ m
  received-Kept m fits kept =
      ap (λ n. record (received m) { created_at = n })
        (number_after-Kept m.created_at fits.created_at kept.created_at)
      ∙ ap (λ as_. record m { attachments = as_ })
          (attachments_after-Kept m.attachments fits.attachments kept.attachments)

  member-AllSame : (m : Member) → AllSame reprint m member_columns
  unfolding member_columns text_column flag_column remade
  member-AllSame m =
      if-SameWritten reprint _ _ refl
      ◃ if-SameWritten reprint _ _ refl
      ◃ if-SameWritten reprint _ _ refl
      ◃ if-SameWritten reprint _ _ refl
      ◃ if-SameWritten reprint _ _ refl
      ◃ if-SameWritten reprint _ _ refl
      ◃ if-SameWritten reprint _ _ refl
      ◃ if-SameWritten reprint _ _ refl
      ◃ if-SameWritten reprint _ _ refl
      ◃ if-SameWritten reprint _ _ refl
      ◃ all_same

  -- The JSON of members has no numbers.
  pub members_json-same :
      (ms : List Member)
      → remade reprint (arr (write_items (λ v. obj (write_all member_columns v)) ms))
        ≡ arr (write_items (λ v. obj (write_all member_columns v)) ms)
  unfolding remade
  members_json-same ms = remade-write_items reprint _ ms (all_same_members ms)
    where
      all_same_members :
          (ms : List Member)
          → All
              (λ v.
                remade reprint (obj (write_all member_columns v))
                ≡ obj (write_all member_columns v))
              ms
      all_same_members [] = tt
      all_same_members (m ∷ ms) = (
        ap obj (remade_fields-write_all reprint member_columns m (member-AllSame m)),
        all_same_members ms,
      )
