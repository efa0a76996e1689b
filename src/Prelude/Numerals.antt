-- ===== src/Prelude/Numerals.antt =====
-- Numbers as texts: Go's `strconv.Itoa`, `ParseUint` and `ParseInt` in base ten and 64 bits.
use Prim.Native.Nat.{ℕ, zero, suc, ◌+◌, ◌-◌, ◌*◌, ◌/◌, ◌%◌, ◌^◌, ◌<◌, ◌≤◌}
use Prim.Native.Char.{Char, code}
use Prim.Native.String.{String, [], ◌∷◌}
use mathlib.Core.Path.{◌≡◌, refl, ap, sym, ◌∙◌}
use mathlib.Core.Bool.{true, ◌&&◌}
use mathlib.Core.Option.{Option, none, some}
use mathlib.Core.Logic.{inl, inr}
use native.Mathlib.Omega.{arith}
use native.Mathlib.Nat.{pow-suc}
use matrix_groupme_bridge.Prelude.Tests.{eqb, ltb, leb, if◌then◌else◌, Bool-cases}

abbrev pub digit : ℕ → Char
digit d =
    if eqb d 0
    then "0"
    else if eqb d 1
    then "1"
    else if eqb d 2
    then "2"
    else if eqb d 3
    then "3"
    else if eqb d 4
    then "4"
    else if eqb d 5
    then "5"
    else if eqb d 6
    then "6"
    else if eqb d 7
    then "7"
    else if eqb d 8
    then "8"
    else "9"

-- `strconv.Itoa` of a number below 10 ^ fuel, the digits put in front of `acc`.
digits_onto : ℕ → ℕ → String → String
digits_onto zero n acc = acc
digits_onto (suc fuel) n acc =
    let more = digits_onto fuel (n / 10) (digit (n % 10) ∷ acc) in
    if ltb n 10 then digit (n % 10) ∷ acc else more

-- 20 digits hold every 64-bit number.
unfoldable pub itoa : ℕ → String
unfolding digits_onto
itoa n = digits_onto 20 n ""

-- The number that a run of digits continues.
read_onto : ℕ → String → ℕ
read_onto n [] = n
read_onto n (c ∷ s) = read_onto (n * 10 + (code c - 48)) s

code_of_digit : (d : ℕ) → d < 10 → code (digit d) ≡ 48 + d
code_of_digit zero h = refl
code_of_digit (suc zero) h = refl
code_of_digit (suc (suc zero)) h = refl
code_of_digit (suc (suc (suc zero))) h = refl
code_of_digit (suc (suc (suc (suc zero)))) h = refl
code_of_digit (suc (suc (suc (suc (suc zero))))) h = refl
code_of_digit (suc (suc (suc (suc (suc (suc zero)))))) h = refl
code_of_digit (suc (suc (suc (suc (suc (suc (suc zero))))))) h = refl
code_of_digit (suc (suc (suc (suc (suc (suc (suc (suc zero)))))))) h = refl
code_of_digit (suc (suc (suc (suc (suc (suc (suc (suc (suc zero))))))))) h = refl
code_of_digit (suc (suc (suc (suc (suc (suc (suc (suc (suc (suc d)))))))))) h = absurd (omega arith)

code-digit : (d : ℕ) → d < 10 → code (digit d) - 48 ≡ d
code-digit d h = omega (arith, code_of_digit d h)

-- One more digit in front, read after `m`.
read_digit :
    (m n : ℕ) (acc : String) → m ≡ n / 10 → read_onto m (digit (n % 10) ∷ acc) ≡ read_onto n acc
unfolding read_onto
read_digit m n acc e =
    ap (λ (k : ℕ). read_onto k acc) (omega (arith, code-digit (n % 10) (omega arith), e))

digits_onto-read :
    (fuel n : ℕ) (acc : String)
    → n < 10 ^ fuel
    → read_onto 0 (digits_onto fuel n acc) ≡ read_onto n acc
unfolding digits_onto
digits_onto-read zero n acc h = ap (λ (k : ℕ). read_onto k acc) (omega arith)
digits_onto-read (suc fuel) n acc h = elim (Bool-cases (ltb n 10)) [
  | inl last ↦ rw last (read_digit 0 n acc (ground arith))
  | inr more ↦ rw more (
      digits_onto-read fuel (n / 10) _ (omega (arith, pow-suc 10 fuel))
      ∙ read_digit (n / 10) n acc refl)
]

-- `strconv.Itoa` of an int, by its pattern: the patterns from 2 ^ 63 on are negative.
unfoldable pub itoa64 : ℕ → String
itoa64 n = if ltb n (2 ^ 63) then itoa n else "-" ∷ itoa (2 ^ 64 - n)

pub itoa64-below : (n : ℕ) → n < 2 ^ 63 → itoa64 n ≡ itoa n
unfolding itoa64
itoa64-below n h = ground arith

-- Different numbers of at most 20 digits are printed differently.
pub itoa-injective : (m n : ℕ) → m < 10 ^ 20 → n < 10 ^ 20 → itoa m ≡ itoa n → m ≡ n
unfolding itoa read_onto
itoa-injective m n hm hn e =
    sym (digits_onto-read 20 m "" hm) ∙ ap (λ s. read_onto 0 s) e ∙ digits_onto-read 20 n "" hn

-- `strconv.ParseUint` of a text, in base ten and 64 bits, after the number `n`; none where it fails.
parse_onto : ℕ → String → Option ℕ
parse_onto n [] = if ltb n (2 ^ 64) then some n else none
parse_onto n (c ∷ s) =
    let rest = parse_onto (n * 10 + (code c - 48)) s in
    if leb b'0' (code c) && leb (code c) b'9' then rest else none

unfoldable pub parse_uint64 : String → Option ℕ
unfolding parse_onto
parse_uint64 [] = none
parse_uint64 (c ∷ s) = parse_onto 0 (c ∷ s)

parse_digit :
    (m n : ℕ) (acc : String) → m ≡ n / 10 → parse_onto m (digit (n % 10) ∷ acc) ≡ parse_onto n acc
unfolding parse_onto
parse_digit m n acc e =
    let same = code_of_digit (n % 10) (omega arith) in
    let next : m * 10 + (code (digit (n % 10)) - 48) ≡ n = omega (arith, same, e) in
    rw next (ground (arith, same))

digits_onto-parse :
    (fuel n : ℕ) (acc : String)
    → n < 10 ^ fuel
    → parse_onto 0 (digits_onto fuel n acc) ≡ parse_onto n acc
unfolding digits_onto
digits_onto-parse zero n acc h = ap (λ (k : ℕ). parse_onto k acc) (omega arith)
digits_onto-parse (suc fuel) n acc h = elim (Bool-cases (ltb n 10)) [
  | inl last ↦ rw last (parse_digit 0 n acc (ground arith))
  | inr more ↦ rw more (
      digits_onto-parse fuel (n / 10) _ (omega (arith, pow-suc 10 fuel))
      ∙ parse_digit (n / 10) n acc refl)
]

digits_onto-cons :
    (fuel n : ℕ) (c : Char) (acc : String)
    → (d : Char) × (more : String) × (digits_onto fuel n (c ∷ acc) ≡ d ∷ more)
unfolding digits_onto
digits_onto-cons zero n c acc = (c, acc, refl)
digits_onto-cons (suc fuel) n c acc = elim (Bool-cases (ltb n 10)) [
  | inl last ↦ (digit (n % 10), c ∷ acc, rw last)
  | inr more ↦ rw more (digits_onto-cons fuel (n / 10) (digit (n % 10)) (c ∷ acc))
]

digits_onto_some :
    (fuel n : ℕ) → (d : Char) × (more : String) × (digits_onto (suc fuel) n "" ≡ d ∷ more)
unfolding digits_onto
digits_onto_some fuel n = elim (Bool-cases (ltb n 10)) [
  | inl last ↦ (digit (n % 10), "", rw last)
  | inr more ↦ rw more (digits_onto-cons fuel (n / 10) (digit (n % 10)) "")
]

parse_uint64-digits :
    (s : String) {d : Char} {more : String} → s ≡ d ∷ more → parse_uint64 s ≡ parse_onto 0 s
unfolding parse_uint64
parse_uint64-digits [] e = absurd (cc e)
parse_uint64-digits (c ∷ s) e = refl

parse_onto_end : (n : ℕ) → n < 2 ^ 64 → parse_onto n "" ≡ some n
unfolding parse_onto
parse_onto_end n h = ground arith

parse_digits :
    (fuel n : ℕ)
    → n < 10 ^ suc fuel
    → n < 2 ^ 64
    → parse_uint64 (digits_onto (suc fuel) n "") ≡ some n
parse_digits fuel n h small =
    let (d, more, e) = digits_onto_some fuel n in
    parse_uint64-digits _ e ∙ digits_onto-parse (suc fuel) n "" h ∙ parse_onto_end n small

-- What is printed is parsed again.
pub parse_uint64-itoa : (n : ℕ) → n < 2 ^ 64 → parse_uint64 (itoa n) ≡ some n
unfolding itoa
parse_uint64-itoa n h = parse_digits 19 n (omega arith) h

-- `strconv.ParseInt`, as a pattern: a minus sign stands before the size of a negative number.
signed : Option ℕ → Option ℕ
signed none = none
signed (some n) = if leb n (2 ^ 63) then some ((2 ^ 64 - n) % 2 ^ 64) else none

unsigned : Option ℕ → Option ℕ
unsigned none = none
unsigned (some n) = if ltb n (2 ^ 63) then some n else none

unfoldable pub parse_int64 : String → Option ℕ
unfolding parse_uint64 signed unsigned
parse_int64 [] = none
parse_int64 (c ∷ s) =
    if eqb (code c) b'-' then signed (parse_uint64 s) else unsigned (parse_uint64 (c ∷ s))

minus_refused : (c : Char) (s : String) → eqb (code c) b'-' ≡ true → parse_uint64 (c ∷ s) ≡ none
unfolding parse_uint64 parse_onto
minus_refused c s e = ground arith

unsigned_small : (n : ℕ) → n < 2 ^ 63 → unsigned (some n) ≡ some n
unfolding unsigned
unsigned_small n h = ground arith

parse_int64_unsigned :
    (s : String) (n : ℕ) → parse_uint64 s ≡ some n → n < 2 ^ 63 → parse_int64 s ≡ some n
unfolding parse_int64
parse_int64_unsigned [] n e h = e
parse_int64_unsigned (c ∷ s) n e h = elim (Bool-cases (eqb (code c) b'-')) [
  | inl minus ↦ absurd (cc (e, minus_refused c s minus))
  | inr plain ↦ rw (plain, e) (unsigned_small n h)
]

signed_small : (n : ℕ) → n ≤ 2 ^ 63 → signed (some n) ≡ some ((2 ^ 64 - n) % 2 ^ 64)
unfolding signed
signed_small n h = ground arith

parse_int64_signed :
    (s : String) (n : ℕ)
    → parse_uint64 s ≡ some n
    → n ≤ 2 ^ 63
    → parse_int64 ("-" ∷ s) ≡ some ((2 ^ 64 - n) % 2 ^ 64)
unfolding parse_int64
parse_int64_signed s n e h = ap signed e ∙ signed_small n h

-- What is printed is parsed again.
pub parse_int64-itoa64 : (n : ℕ) → n < 2 ^ 64 → parse_int64 (itoa64 n) ≡ some n
unfolding itoa64
parse_int64-itoa64 n h = elim (Bool-cases (ltb n (2 ^ 63))) [
  | inl small ↦ rw small (parse_int64_unsigned (itoa n) n (parse_uint64-itoa n h) (ground arith))
  | inr large ↦ rw large (
      parse_int64_signed (itoa (2 ^ 64 - n)) (2 ^ 64 - n)
        (parse_uint64-itoa (2 ^ 64 - n) (ground arith)) (ground arith)
      ∙ ap some (ground arith))
]
