-- ===== src/Media.antt =====
-- Downloads, file names and the conversion of attachments: pkg/util/media.go. What the HTTP client,
-- the URL parser, the image decoder and the Matrix server do is the parameter `Web`.
pub mod Notices
use matrix_groupme_bridge.Prelude.{
  ℕ, ◌<◌, ◌≤◌, ◌≡◌, refl, String, List, [], ◌∷◌, Option, none, some, Bool, true, false, ◌||◌, ◌==◌,
  ltb, leb, ◌⊎◌, inl, inr, if◌then◌else◌, Result, ok, err, Outcome, Run, done, panics, pure, panic,
  nil_pointer, ◌>>=◌, ◌⧺◌, split, itoa,
}
use text.Mathlib.Text.{starts_with}
use matrix_groupme_bridge.Prelude.Json.{Dict, insert}
use matrix_groupme_bridge.Groupme.Types.{Attachment, AttachmentType, image, type_text}

-- The reply to a download, without its body. A length of -1, which net/http gives where the length is
-- not known, is none.
pub record MediaReply : Type 0 where
  pub status_code : ℕ
  pub content_length : Option ℕ

pub record ImageReply (Bytes : Type 0) : Type 0 where
  pub content_type : String
  pub body : Result Bytes

-- `url_path` is the path of a parsed URL, none where it cannot be parsed. `image_size` is the width
-- and height of an image, zeros where it cannot be decoded. `reupload_failed` is the text of an error
-- of bridgev2.
pub record Web : Type 1 where
  pub World : Type 0
  pub Bytes : Type 0
  pub size : Bytes → ℕ
  pub url_path : String → Option String
  pub request_error : String → Option String
  pub fetch : String → Dict String → World → Result MediaReply × World
  pub get_image : String → World → Result (ImageReply Bytes) × World
  pub detect_content_type : Bytes → String
  pub image_size : Bytes → ℕ × ℕ
  pub upload : String → Bytes → String → String → World → Result (String × Option String) × World
  pub user_agent : String
  pub reupload_failed : String

-- An error that `ErrorToNotice` can tell apart.
pub data MediaError : Type 0 where
  too_large url_not_found : MediaError
  other : String → MediaError

-- The first piece of a text cut at the slashes.
unfoldable pub head_or_empty : List String → String
head_or_empty [] = ""
head_or_empty (x ∷ xs) = x

unfoldable pub fetch_destination : String → Dict String → Dict String
unfolding head_or_empty split
fetch_destination mime headers =
    let kind = head_or_empty (split b'/' mime) in
    if kind == "image"
    then insert "Sec-Fetch-Dest" "image" (insert "Accept" "image/avif,image/webp,*/*" headers)
    else if kind == "video"
    then insert "Sec-Fetch-Dest" "video" headers
    else if kind == "audio"
    then insert "Sec-Fetch-Dest" "audio" headers
    else insert "Sec-Fetch-Dest" "empty" headers

-- `addDownloadHeaders`
unfoldable pub add_download_headers : String → String → Dict String → Dict String
unfolding fetch_destination
add_download_headers user_agent mime headers = insert "User-Agent" user_agent (
    insert "Sec-Fetch-Site" "cross-site"
      (insert "Sec-Fetch-Mode" "no-cors" (fetch_destination mime (insert "Accept" "*/*" headers))))

-- A length that is not known is less than any limit.
unfoldable pub is_above : ℕ → Option ℕ → Bool
is_above max_size none = false
is_above max_size (some n) = ltb max_size n

-- What `DownloadMedia` makes of a reply: the length of the content.
unfoldable pub check_reply : ℕ → Result MediaReply → Option ℕ × Option MediaError
unfolding is_above
check_reply max_size (err e) = (some 0, some (other ("failed to send request: " ⧺ e)))
check_reply max_size (ok r) =
    if leb 300 r.status_code || ltb r.status_code 200
    then (some 0, some (other ("unexpected status code " ⧺ itoa r.status_code)))
    else if is_above max_size r.content_length
    then (r.content_length, some too_large)
    else (r.content_length, none)

-- `GetGroupmeFilename` of a path.
unfoldable pub filename_of_parts : List String → String
filename_of_parts (a ∷ b ∷ []) = b ⧺ "." ⧺ a
filename_of_parts (a ∷ b ∷ c ∷ rest) = c ⧺ "." ⧺ b
filename_of_parts _ = "."

-- `ErrorToNotice`: the notice's text.
unfoldable pub error_notice : MediaError → String → String
error_notice url_not_found kind = "Unrecognized " ⧺ kind ⧺ " attachment type"
error_notice too_large kind = "Too large attachment"
error_notice (other e) kind = "Failed to transfer attachment"

-- The content of a message event: a text, a notice or an image.
pub data Content : Type 0 where
  text_content notice_content : String → Content
  image_content :
      (body : String) (url : String) (mime : String) (size height width : ℕ) (file : Option String)
      → Content

module _ (web : Web) where
  -- `DownloadMedia`, with the headers of the request.
  unfoldable pub download_media :
      String → String → ℕ → String → web.World → (Option ℕ × Option MediaError) × web.World
  unfolding add_download_headers check_reply
  download_media mime url max_size byte_range w = elim (web.request_error url) [
    | some e ↦ ((some 0, some (other ("failed to prepare request: " ⧺ e))), w)
    | none ↦
        let headers = add_download_headers web.user_agent mime [] in
        let ranged = if byte_range == "" then headers else insert "Range" byte_range headers in
        let (reply, w') = web.fetch url ranged w in (check_reply max_size reply, w')
  ]

  -- The type that `DownloadImage` gives to a body.
  unfoldable pub mime_of : String → web.Bytes → String
  mime_of content_type body =
      if content_type == "" then web.detect_content_type body else content_type

  unfoldable pub image_of : Result (ImageReply web.Bytes) → Result (web.Bytes × String)
  unfolding mime_of
  image_of (err e) = err ("Failed to download avatar: " ⧺ e)
  image_of (ok r) = elim r.body [
    | err e ↦ err ("Failed to read downloaded image:" ⧺ e)
    | ok bytes ↦ ok (bytes, mime_of r.content_type bytes)
  ]

  unfoldable pub download_image : String → web.World → Result (web.Bytes × String) × web.World
  unfolding image_of
  download_image url w = let (reply, w') = web.get_image url w in (image_of reply, w')

  -- A URL that cannot be parsed is a nil pointer here.
  unfoldable pub get_groupme_filename : String → Run web.World String
  unfolding filename_of_parts
  get_groupme_filename url w = elim (web.url_path url) [
    | none ↦ panics nil_pointer
    | some path ↦ done (filename_of_parts (split b'.' path)) w
  ]

  unfoldable pub dimensions : String → web.Bytes → ℕ × ℕ
  dimensions mime bytes = if starts_with mime "image/" then web.image_size bytes else (0, 0)

  unfoldable pub uploaded :
      String → String → web.Bytes → Result (String × Option String) → Content ⊎ MediaError
  uploaded file_name mime bytes (err e) = inr (other (web.reupload_failed ⧺ ": " ⧺ e))
  uploaded file_name mime bytes (ok (url, file)) =
      let (width, height) = dimensions mime bytes in
      inl (image_content file_name url mime (web.size bytes) height width file)

  unfoldable pub convert_image :
      String → String → Result (web.Bytes × String) → Run web.World (Content ⊎ MediaError)
  unfolding uploaded
  convert_image room url (err e) w = done (inr (other ("failed to load media info: " ⧺ e))) w
  convert_image room url (ok (bytes, mime)) w =
      (get_groupme_filename url >>= λ file_name w'.
      let (reply, w'') = web.upload room bytes file_name mime w' in
      done (uploaded file_name mime bytes reply) w'')
        w

  -- `ConvertAttachment`: images alone are handled.
  unfoldable pub convert_attachment : Attachment → String → Run web.World (Content ⊎ MediaError)
  unfolding download_image convert_image get_groupme_filename
  convert_attachment a room w = elim a.type [
    | image ↦ let (got, w') = download_image a.url w in convert_image room a.url got w'
    | _ ↦ done (inr (other ("unable to handle groupme attachment type " ⧺ type_text a.type))) w
  ]
