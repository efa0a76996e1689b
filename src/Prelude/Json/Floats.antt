-- ===== src/Prelude/Json/Floats.antt =====
-- What json.Marshal makes of a value that was decoded into an interface{}: its numbers are float64, of which
-- the printing of the parsed literal is a parameter.
pub mod Moves
use Prim.Native.Nat.{ℕ}
use Prim.Native.String.{String}
use mathlib.Core.Path.{◌≡◌, refl, ap, ◌∙◌}
use mathlib.Core.Logic.{inl, inr}
use mathlib.Core.Bool.{Bool, true, false, not}
use mathlib.Core.Option.{Option, none, some}
use mathlib.Core.List.{List, [], ◌∷◌}
use text.Mathlib.Text.{◌==◌}
use matrix_groupme_bridge.Prelude.Tests.{if◌then◌else◌, eqb, Bool-cases}
use matrix_groupme_bridge.Prelude.Lists.{All, All-map}
use matrix_groupme_bridge.Prelude.Numerals.{itoa, itoa64, parse_uint64}
use matrix_groupme_bridge.Prelude.Json.{
  Json, Items, Fields, null, bool, num, str, arr, obj, no_items, item, no_fields, field,
}
use matrix_groupme_bridge.Prelude.Json.Struct.{
  Column, Carries, ReadsBack, AllFound, AllMissed, fill, fill_skip, write_all, put, read_value,
  then_also, resolve,
}
use matrix_groupme_bridge.Prelude.Json.Columns.{
  read_number, read_list, read_struct, number_column, numeric_column, structs_column, omitting,
  is_nil, Texts, write_items, ints_json, text_column, flag_column, texts_column,
}
use matrix_groupme_bridge.Prelude.Json.Laws.{text-Carries, flag-Carries, texts-Carries}

module _ (reprint : String → String) where
  unfoldable mutual
    pub remade : Json → Json
    remade null = null
    remade (bool b) = bool b
    remade (num literal) = num (reprint literal)
    remade (str s) = str s
    remade (arr xs) = arr (remade_items xs)
    remade (obj fs) = obj (remade_fields fs)

    pub remade_items : Items → Items
    remade_items no_items = no_items
    remade_items (item j js) = item (remade j) (remade_items js)

    pub remade_fields : Fields → Fields
    remade_fields no_fields = no_fields
    remade_fields (field key j fs) = field key (remade j) (remade_fields fs)

  -- A number's literal that prints again as it is.
  abbrev pub Kept : String → Type 0
  Kept literal = reprint literal ≡ literal

  -- What a field has written is made again as it is.
  abbrev pub SameWritten : Option Json → Type 0
  SameWritten none = Unit
  SameWritten (some j) = remade j ≡ j

  pub if-SameWritten :
      (b : Bool) (j : Json) → remade j ≡ j → SameWritten (if b then none else some j)
  if-SameWritten true j e = tt
  if-SameWritten false j e = e

  pub remade-write_items :
      {A : Type 0} (write : A → Json) (xs : List A)
      → All (λ a. remade (write a) ≡ write a) xs
      → remade (arr (write_items write xs)) ≡ arr (write_items write xs)
  unfolding remade remade_items write_items
  remade-write_items write xs h = ap arr (go xs h)
    where
      go :
          (xs : List _)
          → All (λ a. remade (write a) ≡ write a) xs
          → remade_items (write_items write xs) ≡ write_items write xs
      go [] h = refl
      go (x ∷ xs) (h, hs) = rw (h, go xs hs) refl

  pub remade-ints_json :
      (ns : List ℕ) → All (λ n. Kept (itoa64 n)) ns → remade (ints_json ns) ≡ ints_json ns
  unfolding remade
  remade-ints_json ns h =
      remade-write_items _ ns (All-map (λ n. Kept (itoa64 n)) _ ns (λ n e. ap num e) h)

  pub same_texts : (xs : Texts) → All (λ t. remade (str t) ≡ str t) xs
  unfolding remade
  same_texts [] = tt
  same_texts (x ∷ xs) = (refl, same_texts xs)

  module _ {S : Type 0} where
    infixr 5 ◌◃◌
    -- Every field of `s` is written as what is made again as it is.
    pub data AllSame (s : S) : List (Column S) → Type 0 where
      all_same : AllSame s []
      ◌◃◌ :
          {c : Column S} {cs : List (Column S)}
          → SameWritten (c.write s)
          → AllSame s cs
          → AllSame s (c ∷ cs)

    pub remade_fields-write_all :
        (cs : List (Column S)) (s : S)
        → AllSame s cs
        → remade_fields (write_all cs s) ≡ write_all cs s
    unfolding remade_fields write_all
    remade_fields-write_all [] s all_same = refl
    remade_fields-write_all (c ∷ cs) s (h ◃ hs) =
        same_put c.tag (c.write s) h ∙ ap (put c.tag (c.write s)) (remade_fields-write_all cs s hs)
      where
        same_put :
            (tag : String) (o : Option Json)
            → SameWritten o
            → remade_fields (put tag o (write_all cs s))
              ≡ put tag o (remade_fields (write_all cs s))
        same_put tag none e = refl
        same_put tag (some j) e = ap (λ x. field tag x (remade_fields (write_all cs s))) e
