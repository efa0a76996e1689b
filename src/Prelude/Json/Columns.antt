-- ===== src/Prelude/Json/Columns.antt =====
-- The kinds of struct fields, by the type of the field and by omitempty.
use Prim.Native.Nat.{ℕ}
use Prim.Native.String.{String}
use mathlib.Core.Bool.{Bool, true, false, not}
use mathlib.Core.Option.{Option, none, some}
use mathlib.Core.List.{List, [], ◌∷◌}
use text.Mathlib.Text.{◌==◌}
use matrix_groupme_bridge.Prelude.Tests.{if◌then◌else◌, eqb}
use matrix_groupme_bridge.Prelude.Results.{Result, ok, err}
use matrix_groupme_bridge.Prelude.Texts.{◌⧺◌}
use matrix_groupme_bridge.Prelude.Numerals.{itoa, itoa64, parse_uint64, parse_int64}
use matrix_groupme_bridge.Prelude.Json.{
  Json, Items, Fields, null, bool, num, str, arr, obj, no_items, item, no_fields, field, set_field,
}
use matrix_groupme_bridge.Prelude.Json.Struct.{Column, fill, write_all, first_error}

abbrev kind_name : Json → String
kind_name null = "null"
kind_name (bool b) = "bool"
kind_name (num n) = "number"
kind_name (str s) = "string"
kind_name (arr xs) = "array"
kind_name (obj fs) = "object"

-- The error of encoding/json for a value of another type, without the field's name.
unfoldable pub mismatch : Json → String → String
mismatch j type = "json: cannot unmarshal " ⧺ kind_name j ⧺ " into Go value of type " ⧺ type

-- The readers of values: null leaves a text, a truth value, a number or a struct alone, and makes a slice
-- or a map nil.
unfoldable pub read_text : Json → String → String × Option String
read_text null old = (old, none)
read_text (str s) old = (s, none)
read_text j old = (old, some (mismatch j "string"))

unfoldable pub read_flag : Json → Bool → Bool × Option String
read_flag null old = (old, none)
read_flag (bool b) old = (b, none)
read_flag j old = (old, some (mismatch j "bool"))

-- A number is parsed by the given function: strconv.ParseInt or ParseUint at the field's type.
unfoldable pub read_number : (String → Option ℕ) → String → Json → ℕ → ℕ × Option String
read_number parse type null old = (old, none)
read_number parse type (num literal) old = elim (parse literal) [
  | some n ↦ (n, none)
  | none ↦ (old, some (mismatch (num literal) type))
]
read_number parse type j old = (old, some (mismatch j type))

-- What a call of Unmarshal into a fresh value gives, where an error is looked at.
abbrev pub verdict : {A : Type 0} → A × Option String → Result A
verdict (a, none) = ok a
verdict (a, some e) = err e

-- A map takes the entries into the map that is there; a nil map is made first.
unfoldable pub merged : Fields → Fields → Fields
merged old no_fields = old
merged no_fields new = new
merged old (field key j new) = merged (set_field key j old) new

unfoldable pub read_map : Json → Fields → Fields × Option String
unfolding merged
read_map null old = (no_fields, none)
read_map (obj fs) old = (merged old fs, none)
read_map j old = (old, some (mismatch j "map[string]interface {}"))

module _ {A : Type 0} (zero : A) (read : Json → A → A × Option String) where
  -- The elements of an array, each read into a zero value.
  unfoldable pub read_items : Items → List A × Option String
  unfolding first_error
  read_items no_items = ([], none)
  read_items (item j js) =
      let (a, e) = read j zero in let (more, e') = read_items js in (a ∷ more, first_error e e')

  unfoldable pub read_list : Json → List A → List A × Option String
  unfolding read_items
  read_list null old = ([], none)
  read_list (arr js) old = read_items js
  read_list j old = (old, some (mismatch j "[]"))

unfoldable pub write_items {ℓ} : {A : Type ℓ} → (A → Json) → List A → Items
write_items write [] = no_items
write_items write (a ∷ rest) = item (write a) (write_items write rest)

abbrev pub no_entries : Fields → Bool
no_entries no_fields = true
no_entries (field key j fs) = false

-- A struct within a struct.
unfoldable pub read_struct : {S : Type 0} → List (Column S) → Json → S → S × Option String
unfolding fill
read_struct cs null old = (old, none)
read_struct cs (obj fs) old = fill cs fs old
read_struct cs j old = (old, some (mismatch j "struct"))

-- The value of a field, put back into the struct.
abbrev pub into : {S V : Type 0} → (V → S → S) → S → V × Option String → S × Option String
into set t (v, e) = (set v t, e)

-- A field that is always written.
abbrev pub kept :
    {S V : Type 0}
    → String
    → (S → V)
    → (V → S → S)
    → (V → Json)
    → (Json → V → V × Option String)
    → Column S
kept tag get set write read = record {
  tag = tag;
  write = λ s. some (write (get s));
  read = λ j t. into set t (read j (get t));
}

-- A field with omitempty.
abbrev pub omitting :
    {S V : Type 0}
    → String
    → (S → V)
    → (V → S → S)
    → (V → Bool)
    → (V → Json)
    → (Json → V → V × Option String)
    → Column S
omitting tag get set is_empty write read = record {
  tag = tag;
  write = λ s. if is_empty (get s) then none else some (write (get s));
  read = λ j t. into set t (read j (get t));
}

abbrev pub Texts : Type 0
Texts = List String

abbrev pub IntLists : Type 0
IntLists = List (List ℕ)

abbrev pub ints_json : List ℕ → Json
ints_json xs = arr (write_items (λ n. num (itoa64 n)) xs)

abbrev pub read_ints : Json → List ℕ → List ℕ × Option String
read_ints = read_list 0 (read_number parse_int64 "int")

abbrev pub read_int_lists : Json → IntLists → IntLists × Option String
read_int_lists = read_list [] read_ints

abbrev pub is_nil : {A : Type 0} → List A → Bool
is_nil [] = true
is_nil (x ∷ xs) = false

module _ {S : Type 0} (tag : String) where
  -- `string`, with omitempty and without.
  unfoldable pub text_column : (S → String) → (String → S → S) → Column S
  unfolding read_text
  text_column get set = omitting tag get set (λ v. v == "") str read_text

  unfoldable pub kept_text : (S → String) → (String → S → S) → Column S
  unfolding read_text
  kept_text get set = kept tag get set str read_text

  -- `bool`
  unfoldable pub flag_column : (S → Bool) → (Bool → S → S) → Column S
  unfolding read_flag
  flag_column get set = omitting tag get set not bool read_flag

  unfoldable pub kept_flag : (S → Bool) → (Bool → S → S) → Column S
  unfolding read_flag
  kept_flag get set = kept tag get set bool read_flag

  -- A number, by the functions that parse and print its type.
  unfoldable pub numeric_column :
      (String → Option ℕ) → String → (ℕ → String) → (S → ℕ) → (ℕ → S → S) → Column S
  unfolding read_number
  numeric_column parse type print get set =
      omitting tag get set (λ n. eqb n 0) (λ n. num (print n)) (read_number parse type)

  -- `int`, by its pattern
  unfoldable pub int_column : (S → ℕ) → (ℕ → S → S) → Column S
  unfolding numeric_column
  int_column = numeric_column parse_int64 "int" itoa64

  -- `uint64` and `uint`
  unfoldable pub number_column : (S → ℕ) → (ℕ → S → S) → Column S
  unfolding numeric_column
  number_column = numeric_column parse_uint64 "uint64" itoa

  -- `[]string`
  unfoldable pub texts_column : (S → Texts) → (Texts → S → S) → Column S
  unfolding read_list write_items read_text
  texts_column get set =
      omitting tag get set is_nil (λ xs. arr (write_items str xs)) (read_list "" read_text)

  -- `[][]int`
  unfoldable pub int_lists_column : (S → IntLists) → (IntLists → S → S) → Column S
  unfolding read_list write_items read_number
  int_lists_column get set =
      omitting tag get set is_nil (λ xss. arr (write_items ints_json xss)) read_int_lists

  -- `map[string]any`
  unfoldable pub map_column : (S → Fields) → (Fields → S → S) → Column S
  unfolding read_map
  map_column get set = omitting tag get set no_entries obj read_map

module _ {S T : Type 0} (tag : String) (cs : List (Column T)) where
  -- A struct, for which omitempty does nothing.
  unfoldable pub struct_column : (S → T) → (T → S → S) → Column S
  unfolding read_struct write_all
  struct_column get set = kept tag get set (λ v. obj (write_all cs v)) (read_struct cs)

  -- A slice of structs, of which the elements that are missing are `zero`.
  unfoldable pub structs_column : T → (S → List T) → (List T → S → S) → Column S
  unfolding read_list write_items read_struct write_all
  structs_column zero get set =
      omitting tag get set is_nil (λ xs. arr (write_items (λ v. obj (write_all cs v)) xs))
        (read_list zero (read_struct cs))
