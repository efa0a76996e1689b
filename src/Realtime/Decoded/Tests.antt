-- ===== src/Realtime/Decoded/Tests.antt =====
-- Pushed JSON and the calls that it makes.
use matrix_groupme_bridge.Prelude.{
  ℕ, ◌<◌, ◌^◌, String, none, ◌≡◌, refl, [], ◌∷◌, some, true, arith, itoa, itoa64, parse_uint64,
  parse_uint64-itoa,
}
use matrix_groupme_bridge.Prelude.Json.Floats.{Kept}
use matrix_groupme_bridge.Groupme.Types.{Message}
use matrix_groupme_bridge.Groupme.Tests.{ada}
use matrix_groupme_bridge.Realtime.Calls.{created_call, members, new_nickname}
use matrix_groupme_bridge.Realtime.Decoded.{json_codec}
use matrix_groupme_bridge.Realtime.Decoded.Pushed.{
  system_json, added_json, nickname_json, created_call-added, created_call-nickname,
}
use matrix_groupme_bridge.Realtime.Tests.{blank_message}

abbrev notice : Message
notice = record blank_message { user_id = "system" }

-- Whole numbers below 2^64 print as they are, and other literals as 0.
unfoldable pub whole : String → String
whole literal = elim (parse_uint64 literal) [ none ↦ "0" | some n ↦ itoa n ]

pub whole-Kept : (n : ℕ) → n < 2 ^ 64 → Kept whole (itoa n)
unfolding whole
whole-Kept n small = rw (parse_uint64-itoa n small, whole) refl

created_call-added_example :
    created_call
      (json_codec whole)
      (system_json notice "membership.announce.added" (added_json (ada ∷ [])))
    ≡ some (members "9" (ada ∷ []) true)
created_call-added_example = created_call-added whole notice (ada ∷ []) refl

created_call-nickname_example :
    created_call
      (json_codec whole)
      (system_json notice "membership.nickname_changed" (nickname_json 7 "Countess"))
    ≡ some (new_nickname "9" "7" "Countess")
unfolding itoa64 itoa
created_call-nickname_example =
    created_call-nickname whole notice 7 "Countess" refl (omega arith) (whole-Kept 7 (omega arith))
