-- ===== src/Prelude/Json/Laws.antt =====
-- Each kind of struct field reads back what it writes.
use Prim.Native.Nat.{ℕ, ◌<◌, ◌^◌}
use Prim.Native.String.{String}
use mathlib.Core.Path.{◌≡◌, refl, ap, sym, ◌∙◌}
use mathlib.Core.Logic.{inl, inr}
use mathlib.Core.Bool.{Bool, true, false, not}
use mathlib.Core.Option.{Option, none, some}
use mathlib.Core.List.{List, [], ◌∷◌}
use text.Mathlib.Text.{◌==◌}
use text.Mathlib.TextEquality.{eq_iff}
use matrix_groupme_bridge.Prelude.Tests.{if◌then◌else◌, eqb, eqb_iff, Bool-cases}
use matrix_groupme_bridge.Prelude.Lists.{All, All-map}
use matrix_groupme_bridge.Prelude.Numerals.{
  itoa, itoa64, parse_uint64, parse_int64, parse_uint64-itoa, parse_int64-itoa64,
}
use matrix_groupme_bridge.Prelude.Json.{Json, Fields, bool, num, str, arr, obj, no_fields, field}
use matrix_groupme_bridge.Prelude.Json.Struct.{Column, ReadsBack, Carries, fill, write_all}
use matrix_groupme_bridge.Prelude.Json.Columns.{
  omitting, into, is_nil, no_entries, Texts, read_text, read_flag, read_number, read_items,
  read_list, read_map, read_struct, merged, write_items, text_column, kept_text, flag_column,
  kept_flag, numeric_column, number_column, int_column, int_lists_column, IntLists, ints_json,
  read_ints, read_int_lists, texts_column, map_column, struct_column, structs_column,
}

module _ {S V : Type 0} (tag : String) (get : S → V) (set : V → S → S) (s t : S) where
  -- A field with omitempty, of which the empty value is the zero value and stands in `t`.
  omitting-ReadsBack :
      (is_empty : V → Bool) (write : V → Json) (read : Json → V → V × Option String) (zero : V)
      → (is_empty (get s) ≡ true → get s ≡ zero)
      → read (write (get s)) (get t) ≡ (get s, none)
      → t ≡ set zero t
      → ReadsBack
          (omitting tag get set is_empty write read)
          (if is_empty (get s) then none else some (write (get s)))
          t
          (set (get s) t)
  omitting-ReadsBack is_empty write read zero empty reads blank =
      elim (Bool-cases (is_empty (get s))) [
        | inl e ↦ rw e (blank ∙ ap (λ v. set v t) (sym (empty e)))
        | inr e ↦ rw e (ap (into set t) reads)
      ]

module _ {S : Type 0} (tag : String) (get : S → String) (set : String → S → S) {s t : S} where
  pub text-Carries : t ≡ set "" t → Carries (text_column tag get set) s t (set (get s) t)
  unfolding text_column
  text-Carries blank = record {
    reads =
        omitting-ReadsBack tag get set s t (λ v. v == "") str read_text "" ((eq_iff (get s) "").0)
          refl blank;
  }

  pub kept_text-Carries : Carries (kept_text tag get set) s t (set (get s) t)
  unfolding kept_text
  kept_text-Carries = record { reads = refl }

empty_flag : (b : Bool) → not b ≡ true → b ≡ false
empty_flag true e = cc e
empty_flag false e = refl

module _ {S : Type 0} (tag : String) (get : S → Bool) (set : Bool → S → S) {s t : S} where
  pub flag-Carries : t ≡ set false t → Carries (flag_column tag get set) s t (set (get s) t)
  unfolding flag_column
  flag-Carries blank = record {
    reads =
        omitting-ReadsBack tag get set s t not bool read_flag false (empty_flag (get s)) refl blank;
  }

  pub kept_flag-Carries : Carries (kept_flag tag get set) s t (set (get s) t)
  unfolding kept_flag
  kept_flag-Carries = record { reads = refl }

pub read_number-num :
    (parse : String → Option ℕ) (type literal : String) (n old : ℕ)
    → parse literal ≡ some n
    → read_number parse type (num literal) old ≡ (n, none)
unfolding read_number
read_number-num parse type literal n old e = rw (e, read_number)

module _ {S : Type 0} (tag : String) where
  pub numeric-Carries :
      (parse : String → Option ℕ) (type : String) (print : ℕ → String) (get : S → ℕ)
      (set : ℕ → S → S) {s t : S}
      → parse (print (get s)) ≡ some (get s)
      → t ≡ set 0 t
      → Carries (numeric_column tag parse type print get set) s t (set (get s) t)
  unfolding numeric_column
  numeric-Carries parse type print get set {s} {t} prints blank = record {
    reads =
        omitting-ReadsBack tag get set s t (λ n. eqb n 0) (λ n. num (print n))
          (read_number parse type) 0 ((eqb_iff (get s) 0).0)
          (read_number-num parse type (print (get s)) (get s) (get t) prints) blank;
  }

  pub int-Carries :
      (get : S → ℕ) (set : ℕ → S → S) {s t : S}
      → get s < 2 ^ 64
      → t ≡ set 0 t
      → Carries (int_column tag get set) s t (set (get s) t)
  unfolding int_column
  int-Carries get set {s} small blank =
      numeric-Carries parse_int64 "int" itoa64 get set (parse_int64-itoa64 (get s) small) blank

  pub number-Carries :
      (get : S → ℕ) (set : ℕ → S → S) {s t : S}
      → get s < 2 ^ 64
      → t ≡ set 0 t
      → Carries (number_column tag get set) s t (set (get s) t)
  unfolding number_column
  number-Carries get set {s} small blank =
      numeric-Carries parse_uint64 "uint64" itoa get set (parse_uint64-itoa (get s) small) blank

empty_list : {A : Type 0} (xs : List A) → is_nil xs ≡ true → xs ≡ []
empty_list [] e = refl
empty_list (x ∷ xs) e = cc e

module _ {A : Type 0} (zero : A) (read : Json → A → A × Option String) (write : A → Json) where
  read_items-write_items :
      (xs : List A)
      → All (λ a. read (write a) zero ≡ (a, none)) xs
      → read_items zero read (write_items write xs) ≡ (xs, none)
  unfolding read_items write_items
  read_items-write_items [] h = refl
  read_items-write_items (x ∷ xs) (h, hs) = rw (h, read_items-write_items xs hs) refl

reads_texts : (xs : Texts) → All (λ a. read_text (str a) "" ≡ (a, none)) xs
unfolding read_text
reads_texts [] = tt
reads_texts (x ∷ xs) = (refl, reads_texts xs)

module _ {S : Type 0} (tag : String) (get : S → Texts) (set : Texts → S → S) {s t : S} where
  pub texts-Carries : t ≡ set [] t → Carries (texts_column tag get set) s t (set (get s) t)
  unfolding texts_column
  texts-Carries blank = record {
    reads =
        omitting-ReadsBack tag get set s t is_nil (λ xs. arr (write_items str xs))
          (read_list "" read_text) [] (empty_list (get s))
          (read_items-write_items "" read_text str (get s) (reads_texts (get s))) blank;
  }

abbrev pub AllInts : List ℕ → Type 0
AllInts = All (λ n. n < 2 ^ 64)

reads_ints : (xs : List ℕ) → AllInts xs → read_ints (ints_json xs) [] ≡ (xs, none)
unfolding read_list
reads_ints xs h =
    read_items-write_items 0 (read_number parse_int64 "int") (λ n. num (itoa64 n)) xs
      (All-map (λ n. n < 2 ^ 64) _ xs
        (λ n small. read_number-num parse_int64 "int" (itoa64 n) n 0 (parse_int64-itoa64 n small))
        h)

reads_int_lists :
    (xss : IntLists) → All AllInts xss → All (λ xs. read_ints (ints_json xs) [] ≡ (xs, none)) xss
reads_int_lists xss h = All-map AllInts _ xss reads_ints h

module _ {S : Type 0} (tag : String) (get : S → IntLists) (set : IntLists → S → S) {s t : S} where
  pub int_lists-Carries :
      All AllInts (get s)
      → t ≡ set [] t
      → Carries (int_lists_column tag get set) s t (set (get s) t)
  unfolding int_lists_column
  int_lists-Carries small blank = record {
    reads =
        omitting-ReadsBack tag get set s t is_nil (λ xss. arr (write_items ints_json xss))
          read_int_lists [] (empty_list (get s))
          (read_items-write_items [] read_ints ints_json (get s) (reads_int_lists (get s) small))
          blank;
  }

empty_map : (fs : Fields) → no_entries fs ≡ true → fs ≡ no_fields
empty_map no_fields e = refl
empty_map (field key j fs) e = cc e

pub merged-no_fields : (fs : Fields) → merged no_fields fs ≡ fs
unfolding merged
merged-no_fields no_fields = refl
merged-no_fields (field key j fs) = refl

module _ {S : Type 0} (tag : String) (get : S → Fields) (set : Fields → S → S) {s t : S} where
  pub map-Carries :
      get t ≡ no_fields → t ≡ set no_fields t → Carries (map_column tag get set) s t (set (get s) t)
  unfolding map_column
  map-Carries fresh blank = record {
    reads =
        omitting-ReadsBack tag get set s t no_entries obj read_map no_fields (empty_map (get s))
          (ap (λ old. (merged old (get s), none)) fresh
            ∙ ap (λ fs. (fs, none)) (merged-no_fields (get s)))
          blank;
  }

pub read_list-structs :
    {T : Type 0} (cs : List (Column T)) (zero : T) (xs old : List T)
    → All (λ v. fill cs (write_all cs v) zero ≡ (v, none)) xs
    → read_list zero (read_struct cs) (arr (write_items (λ v. obj (write_all cs v)) xs)) old
      ≡ (xs, none)
unfolding read_list read_struct
read_list-structs cs zero xs old reads =
    read_items-write_items zero (read_struct cs) (λ v. obj (write_all cs v)) xs reads

module _ {S T : Type 0} (tag : String) (cs : List (Column T)) where
  pub struct-Carries :
      (get : S → T) (set : T → S → S) {s t : S}
      → fill cs (write_all cs (get s)) (get t) ≡ (get s, none)
      → Carries (struct_column tag cs get set) s t (set (get s) t)
  unfolding struct_column
  struct-Carries get set {s} {t} reads = record { reads = ap (into set t) reads }

  pub structs-Carries :
      (zero : T) (get : S → List T) (set : List T → S → S) {s t : S}
      → All (λ v. fill cs (write_all cs v) zero ≡ (v, none)) (get s)
      → t ≡ set [] t
      → Carries (structs_column tag cs zero get set) s t (set (get s) t)
  unfolding structs_column
  structs-Carries zero get set {s} {t} reads blank = record {
    reads =
        omitting-ReadsBack tag get set s t is_nil
          (λ xs. arr (write_items (λ v. obj (write_all cs v)) xs)) (read_list zero (read_struct cs))
          [] (empty_list (get s)) (read_list-structs cs zero (get s) (get t) reads) blank;
  }
