-- ===== src/Prelude/Json/Floats/Moves.antt =====
-- Reading a struct from what is made again of what its fields wrote.
use Prim.Native.Nat.{ℕ}
use Prim.Native.String.{String}
use mathlib.Core.Path.{◌≡◌, refl, ap, ◌∙◌}
use mathlib.Core.Logic.{inl, inr}
use mathlib.Core.Bool.{Bool, false, not}
use mathlib.Core.Option.{Option, none, some}
use mathlib.Core.List.{List, [], ◌∷◌}
use text.Mathlib.Text.{◌==◌}
use matrix_groupme_bridge.Prelude.Tests.{if◌then◌else◌, eqb, Bool-cases}
use matrix_groupme_bridge.Prelude.Numerals.{itoa, parse_uint64}
use matrix_groupme_bridge.Prelude.Json.{Json, Fields, num, str, arr, obj}
use matrix_groupme_bridge.Prelude.Json.Struct.{
  Column, Carries, ReadsBack, AllFound, AllMissed, fill, fill_skip, write_all, put, read_value,
  then_also, resolve,
}
use matrix_groupme_bridge.Prelude.Json.Columns.{
  read_number, read_list, read_struct, number_column, numeric_column, structs_column, omitting,
  is_nil, Texts, write_items, text_column, flag_column, texts_column,
}
use matrix_groupme_bridge.Prelude.Json.Laws.{text-Carries, flag-Carries, texts-Carries}
use matrix_groupme_bridge.Prelude.Json.Floats.{
  remade, remade_fields, SameWritten, if-SameWritten, remade-write_items, same_texts,
}

module _ (reprint : String → String) where
  module _ {S : Type 0} where
    -- Reading what is made again of what a field wrote, if anything, makes `u` of `t`, errors not looked at.
    abbrev pub Leads : Column S → Option Json → S → S → Type 0
    Leads c none t u = t ≡ u
    Leads c (some j) t u = (c.read (remade reprint j) t).0 ≡ u

    pub record Moves (c : Column S) (s t u : S) : Type 0 where
      pub leads : Leads c (c.write s) t u

    Leads-same :
        (c : Column S) (o : Option Json) (t u : S)
        → SameWritten reprint o
        → ReadsBack c o t u
        → Leads c o t u
    Leads-same c none t u e reads = reads
    Leads-same c (some j) t u e reads = ap (λ x. (c.read x t).0) e ∙ ap (λ p. p.0) reads

    pub Carries-Moves :
        {c : Column S} {s t u : S}
        → Carries c s t u
        → SameWritten reprint (c.write s)
        → Moves c s t u
    Carries-Moves {c} {s} h e = record { leads = Leads-same c (c.write s) _ _ e h.reads }

    infixr 5 ◌▹◌
    -- `Leaves s cs t v`: reading in turn what is made again of what the fields write of `s` makes `v` of `t`.
    pub data Leaves (s : S) : List (Column S) → S → S → Type 0 where
      left : {t : S} → Leaves s [] t t
      ◌▹◌ :
          {c : Column S} {cs : List (Column S)} {t u v : S}
          → Moves c s t u
          → Leaves s cs u v
          → Leaves s (c ∷ cs) t v

    fill-put_remade :
        (all : List (Column S)) (c : Column S) (o : Option Json) (fs : Fields) (t u v : S)
        → resolve c.tag all ≡ some c
        → Leads c o t u
        → (fill all (remade_fields reprint fs) u).0 ≡ v
        → (fill all (remade_fields reprint (put c.tag o fs)) t).0 ≡ v
    unfolding fill remade_fields
    fill-put_remade all c none fs t u v found e rest =
        ap (λ x. (fill all (remade_fields reprint fs) x).0) e ∙ rest
    fill-put_remade all c (some j) fs t u v found e rest =
        ap
          (λ r.
            (then_also (read_value r (remade reprint j) t) (fill all (remade_fields reprint fs))).0)
          found
        ∙ ap (λ x. (fill all (remade_fields reprint fs) x).0) e
        ∙ rest

    pub fill-remade :
        (all : List (Column S)) {s : S} (cs : List (Column S)) {t v : S}
        → AllFound all cs
        → Leaves s cs t v
        → (fill all (remade_fields reprint (write_all cs s)) t).0 ≡ v
    unfolding fill write_all remade_fields
    fill-remade all [] found left = refl
    fill-remade all {s} (c ∷ cs) (here, found) (◌▹◌ {t = t} {u = u} {v = v} e rest) =
        fill-put_remade all c (c.write s) (write_all cs s) t u v here e.leads
          (fill-remade all cs found rest)

  -- What is made again of a struct that another one skips.
  pub fill-remade_missed :
      {S T : Type 0} (other : List (Column T)) (cs : List (Column S)) (s : S) (t : T)
      → AllMissed other cs
      → fill other (remade_fields reprint (write_all cs s)) t ≡ (t, none)
  unfolding fill write_all remade_fields
  fill-remade_missed other [] s t missed = refl
  fill-remade_missed other (c ∷ cs) s t (miss, missed) =
      skipped (c.write s) ∙ fill-remade_missed other cs s t missed
    where
      skipped :
          (o : Option Json)
          → fill other (remade_fields reprint (put c.tag o (write_all cs s))) t
            ≡ fill other (remade_fields reprint (write_all cs s)) t
      skipped none = refl
      skipped (some j) =
          fill_skip other c.tag (remade reprint j) (remade_fields reprint (write_all cs s)) t miss

  -- A field with omitempty of any kind: what becomes of it depends on no other field.
  pub omitting-Moves :
      {S V : Type 0} (tag : String) (get : S → V) (set : V → S → S) (is_empty : V → Bool)
      (write : V → Json) (read : Json → V → V × Option String) {s t : S}
      → t ≡ set (get t) t
      → Moves (omitting tag get set is_empty write read) s t (
          set
            (if is_empty (get s) then get t else (read (remade reprint (write (get s))) (get t)).0)
            t)
  omitting-Moves tag get set is_empty write read {s} {t} same = record {
    leads = elim (Bool-cases (is_empty (get s))) [ inl e ↦ rw e same | inr e ↦ rw e refl ];
  }

  module _ {S : Type 0} (tag : String) where
    pub text-Moves :
        (get : S → String) (set : String → S → S) {s t : S}
        → t ≡ set "" t
        → Moves (text_column tag get set) s t (set (get s) t)
    unfolding text_column remade
    text-Moves get set {s} blank =
        Carries-Moves (text-Carries tag get set blank) (if-SameWritten reprint (get s == "") _ refl)

    pub flag-Moves :
        (get : S → Bool) (set : Bool → S → S) {s t : S}
        → t ≡ set false t
        → Moves (flag_column tag get set) s t (set (get s) t)
    unfolding flag_column remade
    flag-Moves get set {s} blank =
        Carries-Moves (flag-Carries tag get set blank) (if-SameWritten reprint (not (get s)) _ refl)

    pub texts-Moves :
        (get : S → Texts) (set : Texts → S → S) {s t : S}
        → t ≡ set [] t
        → Moves (texts_column tag get set) s t (set (get s) t)
    unfolding texts_column
    texts-Moves get set {s} blank = Carries-Moves (texts-Carries tag get set blank) (
        if-SameWritten reprint (is_nil (get s)) _
          (remade-write_items reprint str (get s) (same_texts reprint (get s))))

  -- What becomes of a number, and of a slice of structs.
  abbrev pub number_after : ℕ → ℕ → ℕ
  number_after n old =
      if eqb n 0
      then old
      else (read_number parse_uint64 "uint64" (remade reprint (num (itoa n))) old).0

  pub number-Moves :
      {S : Type 0} (tag : String) (get : S → ℕ) (set : ℕ → S → S) {s t : S}
      → t ≡ set (get t) t
      → Moves (number_column tag get set) s t (set (number_after (get s) (get t)) t)
  unfolding number_column numeric_column
  number-Moves tag get set same =
      omitting-Moves tag get set (λ n. eqb n 0) (λ n. num (itoa n))
        (read_number parse_uint64 "uint64") same

  module _ {T : Type 0} (cs : List (Column T)) (zero : T) where
    abbrev pub structs_json : List T → Json
    structs_json xs = arr (write_items (λ v. obj (write_all cs v)) xs)

    abbrev pub structs_after : List T → List T → List T
    structs_after xs old =
        if is_nil xs
        then old
        else (read_list zero (read_struct cs) (remade reprint (structs_json xs)) old).0

    pub structs-Moves :
        {S : Type 0} (tag : String) (get : S → List T) (set : List T → S → S) {s t : S}
        → t ≡ set (get t) t
        → Moves (structs_column tag cs zero get set) s t (set (structs_after (get s) (get t)) t)
    unfolding structs_column
    structs-Moves tag get set same =
        omitting-Moves tag get set is_nil structs_json (read_list zero (read_struct cs)) same
