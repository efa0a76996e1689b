-- ===== src/Media/Notices.antt =====
-- Which replies to a download are taken, and when the conversion of an attachment returns.
use matrix_groupme_bridge.Prelude.{
  ℕ, ◌<◌, ◌≤◌, ◌≡◌, refl, ◌↔◌, String, Option, none, some, Result, ok, err, ◌⊎◌, inl, inr, Outcome,
  done, arith, Bool-cases, false, leb, ltb, ◌||◌,
}
use matrix_groupme_bridge.Groupme.Types.{
  Attachment, AttachmentType, image, mentions, location, emoji, reply, other_type,
}
use matrix_groupme_bridge.Media.{
  MediaReply, MediaError, check_reply, is_above, Web, Content, convert_attachment, convert_image,
  download_image, get_groupme_filename,
}

-- A length within the limit, or not known.
unfoldable pub IsWithin : ℕ → Option ℕ → Type 0
IsWithin max_size none = Unit
IsWithin max_size (some n) = n ≤ max_size

is_above-false : (max_size : ℕ) (n : Option ℕ) → IsWithin max_size n → is_above max_size n ≡ false
unfolding is_above IsWithin
is_above-false max_size none h = refl
is_above-false max_size (some n) h = ground (arith, h)

within : (max_size : ℕ) (n : Option ℕ) → is_above max_size n ≡ false → IsWithin max_size n
unfolding is_above IsWithin
within max_size none h = tt
within max_size (some n) h = ground (arith, h)

taken :
    (max_size : ℕ) (got : Result MediaReply)
    → (check_reply max_size got).1 ≡ none
    → (r : MediaReply) × (got ≡ ok r)
      × (200 ≤ r.status_code)
      × (r.status_code < 300)
      × IsWithin max_size r.content_length
unfolding check_reply
taken max_size (err e) h = ground (arith, h)
taken max_size (ok r) h = elim (Bool-cases (leb 300 r.status_code || ltb r.status_code 200)) [
  | inl t ↦ absurd (ground (arith, h, t))
  | inr t ↦ elim (Bool-cases (is_above max_size r.content_length)) [
    | inl a ↦ absurd (ground (arith, h, t, a))
    | inr a ↦ (r, refl, ground (arith, t), ground (arith, t), within max_size r.content_length a)
  ]
]

-- A download is taken exactly where the server replied with a status from 200 to 299 and a length that
-- is not known or within the limit.
pub check_reply_iff :
    (max_size : ℕ) (got : Result MediaReply)
    → ((check_reply max_size got).1 ≡ none) ↔ (
        (r : MediaReply) × (got ≡ ok r)
        × (200 ≤ r.status_code)
        × (r.status_code < 300)
        × IsWithin max_size r.content_length)
unfolding check_reply
check_reply_iff max_size got = (
  taken max_size got,
  λ (r, e, a, b, l).
      let status : (leb 300 r.status_code || ltb r.status_code 200) ≡ false =
        ground (arith, a, b) in
      rw (e, status, is_above-false max_size r.content_length l) refl,
)

-- The URL of an image can be parsed.
unfoldable pub IsReadable : Web → AttachmentType → String → Type 0
IsReadable web image url = (path : String) × (web.url_path url ≡ some path)
IsReadable web mentions url = Unit
IsReadable web location url = Unit
IsReadable web emoji url = Unit
IsReadable web reply url = Unit
IsReadable web (other_type t) url = Unit

module _ (web : Web) (room : String) where
  -- A conversion that returns, and that fails with nothing but an error that has no notice of its own.
  abbrev Returns : Outcome web.World (Content ⊎ MediaError) → Type 0
  Returns o = (c : Content ⊎ MediaError) × (w : web.World) × (o ≡ done c w)

  convert_image-Returns :
      (url : String) (got : Result (web.Bytes × String)) (w : web.World)
      → ((path : String) × (web.url_path url ≡ some path))
      → Returns (convert_image web room url got w)
  unfolding convert_image get_groupme_filename
  convert_image-Returns url (err e) w h = (_, _, refl)
  convert_image-Returns url (ok (bytes, mime)) w (path, e) =
      rw (convert_image, get_groupme_filename, e) (_, _, refl)

  convert_as-Returns :
      (a : Attachment) (t : AttachmentType) (w : web.World)
      → a.type ≡ t
      → IsReadable web t a.url
      → Returns (convert_attachment web a room w)
  unfolding convert_attachment IsReadable
  convert_as-Returns a image w e h =
      rw e (
        convert_image-Returns a.url (download_image web a.url w).0 (download_image web a.url w).1 h)
  convert_as-Returns a mentions w e h = rw e (_, _, refl)
  convert_as-Returns a location w e h = rw e (_, _, refl)
  convert_as-Returns a emoji w e h = rw e (_, _, refl)
  convert_as-Returns a reply w e h = rw e (_, _, refl)
  convert_as-Returns a (other_type t) w e h = rw e (_, _, refl)

  pub convert_attachment-Returns :
      (a : Attachment) (w : web.World)
      → IsReadable web a.type a.url
      → (c : Content ⊎ MediaError) × (w' : web.World) × (convert_attachment web a room w
          ≡ done c w')
  convert_attachment-Returns a w h = convert_as-Returns a a.type w refl h
