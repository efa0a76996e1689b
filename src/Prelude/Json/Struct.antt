-- ===== src/Prelude/Json/Struct.antt =====
-- Structs with JSON tags, as encoding/json reads and writes them: a key goes to the field with that tag,
-- or else to the first field with that tag but for the case of its letters; other keys are skipped; a value
-- of another type leaves its field alone and makes an error, of which the first is returned at the end.
-- An object has each of its keys once.
use Prim.Native.Nat.{ℕ, ◌+◌}
use Prim.Native.Char.{code}
use Prim.Native.String.{String}
use mathlib.Core.Path.{◌≡◌, refl, ap, ◌∙◌}
use mathlib.Core.Bool.{Bool, true, false, ◌&&◌}
use mathlib.Core.Option.{Option, none, some}
use mathlib.Core.List.{List, [], ◌∷◌, map}
use text.Mathlib.Text.{◌==◌}
use matrix_groupme_bridge.Prelude.Tests.{if◌then◌else◌, eqb, leb}
use matrix_groupme_bridge.Prelude.Json.{Json, Fields, no_fields, field}

-- A field of the struct `S`: what is written of it, none where it is left out, and what reading a value
-- makes of the struct, with the error.
pub record Column (S : Type 0) : Type 0 where
  pub tag : String
  pub write : S → Option Json
  pub read : Json → S → S × Option String

-- The letter that stands for all cases of a letter; the long s and the Kelvin sign are cases of s and k.
abbrev folded : ℕ → ℕ
folded c =
    if leb b'A' c && leb c b'Z'
    then c + 32
    else if eqb c 0x17f
    then b's'
    else if eqb c 0x212a
    then b'k'
    else c

unfoldable pub same_folded : String → String → Bool
same_folded String.[] String.[] = true
same_folded (String.◌∷◌ c s) (String.◌∷◌ d t) =
    eqb (folded (code c)) (folded (code d)) && same_folded s t
same_folded _ _ = false

unfoldable pub first_error : Option String → Option String → Option String
first_error none later = later
first_error (some e) later = some e

abbrev pub put : String → Option Json → Fields → Fields
put tag none fs = fs
put tag (some j) fs = field tag j fs

module _ {S : Type 0} where
  unfoldable pub find : (String → Bool) → List (Column S) → Option (Column S)
  find fits [] = none
  find fits (c ∷ cs) = let later = find fits cs in if fits c.tag then some c else later

  -- The field that a key goes to.
  unfoldable pub resolve : String → List (Column S) → Option (Column S)
  unfolding find same_folded
  resolve key cs = elim (find (λ tag. key == tag) cs) [
    | some c ↦ some c
    | none ↦ find (λ tag. same_folded key tag) cs
  ]

  abbrev pub then_also : S × Option String → (S → S × Option String) → S × Option String
  then_also (t, e) f = let (u, e') = f t in (u, first_error e e')

  unfoldable pub read_value : Option (Column S) → Json → S → S × Option String
  read_value none j t = (t, none)
  read_value (some c) j t = c.read j t

  -- An object is read into a struct.
  unfoldable pub fill : List (Column S) → Fields → S → S × Option String
  unfolding resolve read_value first_error
  fill cs no_fields t = (t, none)
  fill cs (field key j fs) t = then_also (read_value (resolve key cs) j t) (λ u. fill cs fs u)

  -- A struct is written as an object, its fields in order.
  unfoldable pub write_all : List (Column S) → S → Fields
  write_all [] s = no_fields
  write_all (c ∷ cs) s = put c.tag (c.write s) (write_all cs s)

  -- Reading what a field has written, if anything, makes `u` of `t`.
  abbrev pub ReadsBack : Column S → Option Json → S → S → Type 0
  ReadsBack c none t u = t ≡ u
  ReadsBack c (some j) t u = c.read j t ≡ (u, none)

  -- What the field `c` writes of `s`, if anything, makes `u` of `t` when it is read.
  pub record Carries (c : Column S) (s t u : S) : Type 0 where
    pub reads : ReadsBack c (c.write s) t u

  -- Each of the fields is found by its tag.
  abbrev pub AllFound : List (Column S) → List (Column S) → Type 0
  AllFound all [] = Unit
  AllFound all (c ∷ cs) = (resolve c.tag all ≡ some c) × AllFound all cs

  first : List (Option (Column S)) → Option (Column S)
  first [] = none
  first (x ∷ xs) = x

  others : List (Option (Column S)) → List (Option (Column S))
  others [] = []
  others (x ∷ xs) = xs

  -- For tags that are written out, the path is the constant one.
  pub found-AllFound :
      (all cs : List (Column S)) → map (λ c. resolve c.tag all) cs ≡ map some cs → AllFound all cs
  unfolding first others
  found-AllFound all [] h = tt
  found-AllFound all (c ∷ cs) h = (ap first h, found-AllFound all cs (ap others h))

  infixr 5 ◌▸◌
  -- `Copies s cs t u`: reading in turn what the fields write of `s` makes `u` of `t`.
  pub data Copies (s : S) : List (Column S) → S → S → Type 0 where
    copied : {t : S} → Copies s [] t t
    ◌▸◌ :
        {c : Column S} {cs : List (Column S)} {t u v : S}
        → Carries c s t u
        → Copies s cs u v
        → Copies s (c ∷ cs) t v

  fill-put :
      (all : List (Column S)) (c : Column S) (o : Option Json) (fs : Fields) (t u v : S)
      → resolve c.tag all ≡ some c
      → ReadsBack c o t u
      → fill all fs u ≡ (v, none)
      → fill all (put c.tag o fs) t ≡ (v, none)
  unfolding fill
  fill-put all c none fs t u v found e rest = ap (fill all fs) e ∙ rest
  fill-put all c (some j) fs t u v found e rest =
      ap (λ r. then_also (read_value r j t) (fill all fs)) found
      ∙ ap (λ p. then_also p (fill all fs)) e
      ∙ rest

  pub fill-write_all :
      (all : List (Column S)) {s : S} (cs : List (Column S)) {t v : S}
      → AllFound all cs
      → Copies s cs t v
      → fill all (write_all cs s) t ≡ (v, none)
  unfolding fill write_all
  fill-write_all all [] found copied = refl
  fill-write_all all {s} (c ∷ cs) (here, found) (◌▸◌ {t = t} {u = u} {v = v} e rest) =
      fill-put all c (c.write s) (write_all cs s) t u v here e.reads
        (fill-write_all all cs found rest)

  -- A key that goes to no field is skipped.
  pub fill_skip :
      (cs : List (Column S)) (key : String) (j : Json) (fs : Fields) (t : S)
      → resolve key cs ≡ none
      → fill cs (field key j fs) t ≡ fill cs fs t
  unfolding fill
  fill_skip cs key j fs t miss = ap (λ c. then_also (read_value c j t) (fill cs fs)) miss

put_missed :
    {T : Type 0} (other : List (Column T)) (tag : String) (o : Option Json) (fs : Fields) (t : T)
    → resolve tag other ≡ none
    → fill other (put tag o fs) t ≡ fill other fs t
put_missed other tag none fs t miss = refl
put_missed other tag (some j) fs t miss = fill_skip other tag j fs t miss

-- The keys of one struct that another skips.
abbrev pub AllMissed : {S T : Type 0} → List (Column T) → List (Column S) → Type 0
AllMissed other [] = Unit
AllMissed other (c ∷ cs) = (resolve c.tag other ≡ none) × AllMissed other cs

pub missed-AllMissed :
    {S T : Type 0} (other : List (Column T)) (cs : List (Column S))
    → map (λ c. resolve c.tag other) cs ≡ map (λ c. none) cs
    → AllMissed other cs
unfolding first others
missed-AllMissed other [] h = tt
missed-AllMissed other (c ∷ cs) h = (ap first h, missed-AllMissed other cs (ap others h))

pub fill-write_all_missed :
    {S T : Type 0} (other : List (Column T)) (cs : List (Column S)) (s : S) (t : T)
    → AllMissed other cs
    → fill other (write_all cs s) t ≡ (t, none)
unfolding fill write_all
fill-write_all_missed other [] s t missed = refl
fill-write_all_missed other (c ∷ cs) s t (miss, missed) =
    put_missed other c.tag (c.write s) _ t miss ∙ fill-write_all_missed other cs s t missed
