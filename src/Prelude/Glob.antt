-- ===== src/Prelude/Glob.antt =====
-- Go's `filepath.Match`, read as its documentation: `*` and `?` never match a slash, classes are
-- `[a-c]` and `[^a-c]`, a backslash quotes, and a malformed pattern matches nothing.
use Prim.Native.Nat.{ℕ}
use Prim.Native.Char.{code}
use Prim.Native.String.{String}
use mathlib.Core.Path.{◌≡◌, refl}
use mathlib.Core.Logic.{◌↔◌}
use mathlib.Core.Bool.{Bool, true, false, ◌&&◌, ◌||◌, not}
use mathlib.Core.Option.{Option, none, some}
use mathlib.Core.List.{List, [], ◌∷◌, ◌++◌}
use native.Mathlib.Omega.{arith}
use text.Mathlib.TextEquality.{Char-path}
use matrix_groupme_bridge.Prelude.Tests.{eqb, leb, if◌then◌else◌}

pub data Token : Type 0 where
  lit : ℕ → Token
  any_char star : Token
  class : Bool → List (ℕ × ℕ) → Token

-- What the next character of the pattern is read as.
pub data Mode : Type 0 where
  plain escaped class_start : Mode
  class_item class_escaped : Bool → List (ℕ × ℕ) → Mode
  after_low high_end high_escaped : Bool → List (ℕ × ℕ) → ℕ → Mode

abbrev Move : Type 0
Move = Option (Mode × List Token)

read_plain : ℕ → Move
read_plain c =
    if eqb c b'*'
    then some (plain, star ∷ [])
    else if eqb c b'?'
    then some (plain, any_char ∷ [])
    else if eqb c b'['
    then some (class_start, [])
    else if eqb c b'\\'
    then some (escaped, [])
    else some (plain, lit c ∷ [])

-- The low end of a range; a class needs one range at least.
read_item : Bool → List (ℕ × ℕ) → ℕ → Move
read_item negated [] c =
    if eqb c b'-' || eqb c b']'
    then none
    else if eqb c b'\\'
    then some (class_escaped negated [], [])
    else some (after_low negated [] c, [])
read_item negated (r ∷ rs) c =
    if eqb c b']'
    then some (plain, class negated (r ∷ rs) ∷ [])
    else if eqb c b'-'
    then none
    else if eqb c b'\\'
    then some (class_escaped negated (r ∷ rs), [])
    else some (after_low negated (r ∷ rs) c, [])

read_high : Bool → List (ℕ × ℕ) → ℕ → ℕ → Move
read_high negated rs low c =
    if eqb c b'-' || eqb c b']'
    then none
    else if eqb c b'\\'
    then some (high_escaped negated rs low, [])
    else some (class_item negated ((low, c) ∷ rs), [])

read_char : Mode → ℕ → Move
unfolding read_plain read_item read_high
read_char plain c = read_plain c
read_char escaped c = some (plain, lit c ∷ [])
read_char class_start c = if eqb c b'^' then some (class_item true [], []) else read_item false [] c
read_char (class_item negated rs) c = read_item negated rs c
read_char (class_escaped negated rs) c = some (after_low negated rs c, [])
read_char (after_low negated rs low) c =
    if eqb c b'-' then some (high_end negated rs low, []) else read_item negated ((low, low) ∷ rs) c
read_char (high_end negated rs low) c = read_high negated rs low c
read_char (high_escaped negated rs low) c = some (class_item negated ((low, c) ∷ rs), [])

emit : List Token → Option (List Token) → Option (List Token)
emit ts none = none
emit ts (some us) = some (ts ++ us)

parse : Mode → String → Option (List Token)
unfolding read_char emit
parse plain String.[] = some []
parse _ String.[] = none
parse mode (String.◌∷◌ c s) = elim (read_char mode (code c)) [
  | none ↦ none
  | some (next, ts) ↦ emit ts (parse next s)
]

in_ranges : ℕ → List (ℕ × ℕ) → Bool
in_ranges c [] = false
in_ranges c ((low, high) ∷ rs) = (leb low c && leb c high) || in_ranges c rs

matches_one : Token → ℕ → Bool
unfolding in_ranges
matches_one (lit d) c = eqb c d
matches_one any_char c = not (eqb c b'/')
matches_one star c = false
matches_one (class negated rs) c = if in_ranges c rs then not negated else negated

matches : List Token → String → Bool
unfolding matches_one
matches [] String.[] = true
matches [] (String.◌∷◌ c s) = false
matches (star ∷ ts) String.[] = matches ts String.[]
matches (star ∷ ts) (String.◌∷◌ c s) =
    let here = matches ts (String.◌∷◌ c s) in
    let later = matches (star ∷ ts) s in here || (not (eqb (code c) b'/') && later)
matches (t ∷ ts) String.[] = false
matches (t ∷ ts) (String.◌∷◌ c s) = let rest = matches ts s in matches_one t (code c) && rest

unfoldable pub glob_match : String → String → Bool
unfolding parse matches
glob_match pattern name = elim (parse plain pattern) [ none ↦ false | some ts ↦ matches ts name ]

-- No character of the text is special in a pattern.
abbrev pub is_literal : ℕ → Bool
is_literal c = not (eqb c b'*') && not (eqb c b'?') && not (eqb c b'[') && not (eqb c b'\\')

unfoldable pub literal_text : String → Bool
literal_text String.[] = true
literal_text (String.◌∷◌ c s) = let rest = literal_text s in is_literal (code c) && rest

lits : String → List Token
lits String.[] = []
lits (String.◌∷◌ c s) = lit (code c) ∷ lits s

parse_literal : (s : String) → literal_text s ≡ true → parse plain s ≡ some (lits s)
unfolding parse literal_text lits
parse_literal String.[] h = refl
parse_literal (String.◌∷◌ c s) h = ground (arith, parse_literal s (ground arith))

matches-lits_self : (s : String) → matches (lits s) s ≡ true
unfolding matches lits
matches-lits_self String.[] = refl
matches-lits_self (String.◌∷◌ c s) = ground (arith, matches-lits_self s)

matches-lits : (s t : String) → matches (lits s) t ≡ true → s ≡ t
unfolding matches lits
matches-lits String.[] String.[] h = refl
matches-lits String.[] (String.◌∷◌ d t) h = cc
matches-lits (String.◌∷◌ c s) String.[] h = cc
matches-lits (String.◌∷◌ c s) (String.◌∷◌ d t) h =
    cc (Char-path c d (ground arith), matches-lits s t (ground arith))

-- A pattern with no special character matches that text and no other.
pub glob_match-literal :
    (pattern name : String)
    → literal_text pattern ≡ true
    → (glob_match pattern name ≡ true) ↔ (pattern ≡ name)
unfolding glob_match
glob_match-literal pattern name h = (
  λ m. matches-lits pattern name (ground (arith, parse_literal pattern h)),
  λ e. rw (← e) (ground (arith, parse_literal pattern h, matches-lits_self pattern)),
)

glob_match_classes :
    (glob_match "/user/*" "/user/12" ≡ true)
    × (glob_match "/user/*" "/user/1/2" ≡ false)
    × (glob_match "/[^a-c]x" "/dx" ≡ true)
    × (glob_match "/[^a-c]x" "/bx" ≡ false)
    × (glob_match "/[a-]" "/a" ≡ false)
unfolding glob_match
glob_match_classes = (refl, refl, refl, refl, refl)
