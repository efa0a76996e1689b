-- ===== src/Groupme/Ids/Regex.antt =====
-- The languages of regular expressions: the patterns of pkg/groupmeclient/data_types.go, and what it is
-- for a text to match one from its beginning to its end.
use Prim.Native.Char.{Char, code}
use matrix_groupme_bridge.Prelude.{
  ℕ, zero, suc, ◌≡◌, String, Bool, true, false, ◌&&◌, ◌||◌, leb, List, [], ◌∷◌, ◌⧺◌, single,
}

-- A class is a list of ranges of characters.
pub data Regex : Type 0 where
  class : List (ℕ × ℕ) → Regex
  seq : Regex → Regex → Regex
  plus : Regex → Regex
  times : ℕ → Regex → Regex

unfoldable pub in_ranges : List (ℕ × ℕ) → ℕ → Bool
in_ranges [] c = false
in_ranges ((lo, hi) ∷ ranges) c = (leb lo c && leb c hi) || in_ranges ranges c

-- One text of a language after another, at least one.
pub data Repeats (P : String → Type 0) : String → Type 0 where
  one : {s : String} → P s → Repeats P s
  more : {s : String} (a b : String) → s ≡ a ⧺ b → P a → Repeats P b → Repeats P s

unfoldable pub Times : ℕ → (String → Type 0) → String → Type 0
Times zero P s = s ≡ ""
Times (suc n) P s = (a : String) × (b : String) × (s ≡ a ⧺ b) × P a × Times n P b

unfoldable pub Matches : Regex → String → Type 0
unfolding in_ranges Times
Matches (class ranges) s = (c : Char) × (in_ranges ranges (code c) ≡ true) × (s ≡ single c)
Matches (seq r q) s = (a : String) × (b : String) × (s ≡ a ⧺ b) × Matches r a × Matches q b
Matches (plus r) s = Repeats (Matches r) s
Matches (times n r) s = Times n (Matches r) s

abbrev pub digits : List (ℕ × ℕ)
digits = (b'0', b'9') ∷ []

abbrev pub alphanumerics : List (ℕ × ℕ)
alphanumerics = (b'a', b'z') ∷ (b'A', b'Z') ∷ (b'0', b'9') ∷ []

-- ^[a-zA-Z0-9]+$
abbrev pub alphanumeric_regex : Regex
alphanumeric_regex = plus (class alphanumerics)

-- ^\+\d+ \d{10}$
abbrev pub phone_number_regex : Regex
phone_number_regex =
    seq (class ((b'+', b'+') ∷ []))
      (seq (plus (class digits)) (seq (class ((b' ', b' ') ∷ [])) (times 10 (class digits))))
