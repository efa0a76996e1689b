-- ===== src/Groupme/Wire/Requests.antt =====
-- The JSON bodies of requests: the tags of the structs that the calls of pkg/groupmeclient marshal.
use matrix_groupme_bridge.Prelude.{String, List, [], ◌∷◌, Option, none, some}
use matrix_groupme_bridge.Prelude.Json.{Json, str, arr, obj, no_fields, field}
use matrix_groupme_bridge.Prelude.Json.Struct.{Column, write_all}
use matrix_groupme_bridge.Prelude.Json.Columns.{kept_text, kept_flag, write_items}
use matrix_groupme_bridge.Groupme.Http.{
  Body, no_body, group_settings, user_settings, rejoin, change_owners, message, direct_message,
  GroupSettings, UserSettings, ChangeOwnerRequest,
}
use matrix_groupme_bridge.Groupme.Wire.{message_columns}

unfoldable pub group_settings_columns : List (Column GroupSettings)
group_settings_columns =
    kept_text "name" (λ s. s.name) (λ v s. record s { name = v })
    ∷ kept_text "description" (λ s. s.description) (λ v s. record s { description = v })
    ∷ kept_text "image_url" (λ s. s.image_url) (λ v s. record s { image_url = v })
    ∷ kept_flag "office_mode" (λ s. s.office_mode) (λ v s. record s { office_mode = v })
    ∷ kept_flag "share" (λ s. s.share) (λ v s. record s { share = v })
    ∷ []

unfoldable pub user_settings_columns : List (Column UserSettings)
user_settings_columns =
    kept_text "avatar_url" (λ s. s.avatar_url) (λ v s. record s { avatar_url = v })
    ∷ kept_text "name" (λ s. s.name) (λ v s. record s { name = v })
    ∷ kept_text "email" (λ s. s.email) (λ v s. record s { email = v })
    ∷ kept_text "zip_code" (λ s. s.zip_code) (λ v s. record s { zip_code = v })
    ∷ []

unfoldable pub change_owner_columns : List (Column ChangeOwnerRequest)
change_owner_columns =
    kept_text "group_id" (λ s. s.group_id) (λ v s. record s { group_id = v })
    ∷ kept_text "owner_id" (λ s. s.owner_id) (λ v s. record s { owner_id = v })
    ∷ []

abbrev under : String → Json → Json
under tag j = obj (field tag j no_fields)

-- The value of which a request's body is the text.
unfoldable pub body_json : Body → Option Json
unfolding write_items
body_json no_body = none
body_json (group_settings gs) = some (obj (write_all group_settings_columns gs))
body_json (user_settings us) = some (obj (write_all user_settings_columns us))
body_json (rejoin group_id) = some (under "group_id" (str group_id))
body_json (change_owners reqs) =
    some (under "requests" (arr (write_items (λ r. obj (write_all change_owner_columns r)) reqs)))
body_json (message m) = some (under "message" (obj (write_all message_columns m)))
body_json (direct_message m) = some (under "direct_message" (obj (write_all message_columns m)))
