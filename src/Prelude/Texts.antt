-- ===== src/Prelude/Texts.antt =====
-- Texts: Go's `strings.Split` by an ASCII separator, `strings.Replace` of one byte.
use Prim.Native.Nat.{ℕ}
use Prim.Native.Char.{Char, code}
use Prim.Native.String.{String, [], ◌∷◌}
use Prim.Native.String
use mathlib.Core.Path.{◌≡◌, refl}
use mathlib.Core.Bool.{Bool, true, false}
use mathlib.Core.List.{List}
use native.Mathlib.Omega.{arith}
use text.Mathlib.TextLemmas.{nil-append, cons-append}
use matrix_groupme_bridge.Prelude.Tests.{eqb, if◌then◌else◌}

infixr 65 ◌⧺◌
abbrev pub ◌⧺◌ : String → String → String
s ⧺ t = String.◌++◌ s t

abbrev pub single : Char → String
single c = c ∷ []

-- Puts a character in front of the first piece.
abbrev onto : Char → List String → List String
onto c List.[] = List.◌∷◌ (single c) List.[]
onto c (List.◌∷◌ piece pieces) = List.◌∷◌ (c ∷ piece) pieces

unfoldable pub split : ℕ → String → List String
split sep [] = List.◌∷◌ "" List.[]
split sep (c ∷ s) =
    let pieces = split sep s in if eqb (code c) sep then List.◌∷◌ "" pieces else onto c pieces

-- Every character of a text satisfies a test.
unfoldable pub all_chars : (Char → Bool) → String → Bool
all_chars p [] = true
all_chars p (c ∷ s) = let rest = all_chars p s in if p c then rest else false

abbrev pub differs : ℕ → Char → Bool
differs sep c = if eqb (code c) sep then false else true

pub split-append :
    (sep : ℕ) (a : String) (c : Char) (b : String)
    → all_chars (differs sep) a ≡ true
    → code c ≡ sep
    → split sep (a ⧺ (c ∷ b)) ≡ List.◌∷◌ a (split sep b)
unfolding split all_chars
split-append sep [] c b free e = rw nil-append (ground arith)
split-append sep (d ∷ a) c b free e =
    rw cons-append (ground (arith, split-append sep a c b (ground arith) e))

-- The same with the separator as a text of its own.
pub split-append_single :
    (sep : ℕ) (a : String) (c : Char) (b : String)
    → all_chars (differs sep) a ≡ true
    → code c ≡ sep
    → split sep (a ⧺ single c ⧺ b) ≡ List.◌∷◌ a (split sep b)
split-append_single sep a c b free e = rw (cons-append, nil-append) (split-append sep a c b free e)

pub split_single :
    (sep : ℕ) (a : String) → all_chars (differs sep) a ≡ true → split sep a ≡ List.◌∷◌ a List.[]
unfolding split all_chars
split_single sep [] free = refl
split_single sep (d ∷ a) free = ground (arith, split_single sep a (ground arith))

-- Replaces the first occurrence of one character.
unfoldable pub replace_first : ℕ → Char → String → String
replace_first old new [] = []
replace_first old new (c ∷ s) =
    let rest = replace_first old new s in if eqb (code c) old then new ∷ s else c ∷ rest

pub replace_first_none :
    (old : ℕ) (new : Char) (s : String)
    → all_chars (differs old) s ≡ true
    → replace_first old new s ≡ s
unfolding replace_first all_chars
replace_first_none old new [] h = refl
replace_first_none old new (c ∷ s) h = ground (arith, replace_first_none old new s (ground arith))
