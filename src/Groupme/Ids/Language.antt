-- ===== src/Groupme/Ids/Language.antt =====
-- `ID.Valid` and `PhoneNumber.Valid` accept the languages of their regular expressions.
use Prim.Native.Char.{Char, code}
use mathlib.Core.Path.{fun_ext, subst}
use text.Mathlib.TextLemmas.{nil-append, cons-append}
use matrix_groupme_bridge.Prelude.{
  ℕ, zero, suc, ◌≡◌, refl, sym, ◌∙◌, ap, ◌↔◌, String, Bool, true, eqb, eqb_iff, Bool-cases, inl,
  inr, [], ◌∷◌, ◌⧺◌, single, all_chars, arith,
}
use matrix_groupme_bridge.Groupme.Ids.{
  is_digit, is_alphanumeric, id_valid, exact_digits, country_digits, first_digit, phone_valid,
}
use matrix_groupme_bridge.Groupme.Ids.Regex.{
  in_ranges, Repeats, one, more, Times, Matches, digits, alphanumerics, alphanumeric_regex,
  phone_number_regex,
}

-- The texts of one character that a test accepts.
abbrev Single : (ℕ → Bool) → String → Type 0
Single p s = (c : Char) × (p (code c) ≡ true) × (s ≡ single c)

split_first : (c : Char) (s : String) → String.◌∷◌ c s ≡ single c ⧺ s
split_first c s = sym (cons-append c "" s ∙ ap (λ t. String.◌∷◌ c t) (nil-append s))

module _ (p : ℕ → Bool) where
  abbrev all : String → Bool
  all s = all_chars (λ c. p (code c)) s

  all-Repeats :
      (c : Char) (s : String) → all (String.◌∷◌ c s) ≡ true → Repeats (Single p) (String.◌∷◌ c s)
  unfolding all_chars
  all-Repeats c String.[] h = one (c, ground arith, refl)
  all-Repeats c (String.◌∷◌ d s) h =
      more (single c) (String.◌∷◌ d s) (split_first c _) (c, ground arith, refl)
        (all-Repeats d s (ground arith))

  Repeats-all : {s : String} → Repeats (Single p) s → all s ≡ true
  unfolding all_chars
  Repeats-all (one (c, h, e)) = rw e (ground arith)
  Repeats-all (more a b e (c, h, e') r) =
      rw (e ∙ ap (λ t. t ⧺ b) e' ∙ sym (split_first c b)) (rw (h, Repeats-all r))

in_alphanumeric : (c : ℕ) → is_alphanumeric c ≡ in_ranges alphanumerics c
unfolding is_alphanumeric is_digit in_ranges
in_alphanumeric c = ground arith

in_digits : (c : ℕ) → is_digit c ≡ in_ranges digits c
unfolding is_digit in_ranges
in_digits c = ground arith

id_valid_only : (s : String) → id_valid s ≡ true → Matches alphanumeric_regex s
unfolding id_valid Matches
id_valid_only String.[] h = cc h
id_valid_only (String.◌∷◌ c s) h =
    all-Repeats (in_ranges alphanumerics) c s
      (subst (λ p. all p (String.◌∷◌ c s) ≡ true) (fun_ext in_alphanumeric) h)

Repeats-nonempty : (p : ℕ → Bool) {s : String} → Repeats (Single p) s → s ≡ "" → ⊥
Repeats-nonempty p (one (c, h, e)) e' = cc (e, e')
Repeats-nonempty p (more a b e (c, h, q) r) e' =
    cc (split_first c b ∙ ap (λ t. t ⧺ b) (sym q) ∙ sym e ∙ e')

id_valid_enough : (s : String) → Matches alphanumeric_regex s → id_valid s ≡ true
unfolding id_valid Matches
id_valid_enough String.[] r = absurd (Repeats-nonempty (in_ranges alphanumerics) r refl)
id_valid_enough (String.◌∷◌ c s) r =
    subst (λ p. all p (String.◌∷◌ c s) ≡ true) (sym (fun_ext in_alphanumeric))
      (Repeats-all (in_ranges alphanumerics) r)

-- `ID.Valid` accepts just the texts that match ^[a-zA-Z0-9]+$.
pub id_valid_iff : (s : String) → (id_valid s ≡ true) ↔ Matches alphanumeric_regex s
unfolding id_valid Matches
id_valid_iff s = (id_valid_only s, id_valid_enough s)

exact_digits-Times : (n : ℕ) (s : String) → exact_digits n s ≡ true → Times n (Single is_digit) s
unfolding exact_digits Times
exact_digits-Times zero String.[] h = refl
exact_digits-Times zero (String.◌∷◌ c s) h = cc h
exact_digits-Times (suc n) String.[] h = cc h
exact_digits-Times (suc n) (String.◌∷◌ c s) h =
    (single c, s, split_first c s, (c, ground arith, refl), exact_digits-Times n s (ground arith))

Times-exact_digits : (n : ℕ) (s : String) → Times n (Single is_digit) s → exact_digits n s ≡ true
unfolding exact_digits Times
Times-exact_digits zero s e = rw e refl
Times-exact_digits (suc n) s (a, b, e, (c, d, e'), t) =
    rw (e ∙ ap (λ t. t ⧺ b) e' ∙ sym (split_first c b)) (rw (d, Times-exact_digits n b t) refl)

-- \d* \d{10}$
country_digits-split :
    (s : String)
    → country_digits s ≡ true
    → (a : String) × (c : Char) × (b : String) × (s ≡ a ⧺ String.◌∷◌ c b)
      × (all is_digit a ≡ true)
      × (code c ≡ b' ')
      × (exact_digits 10 b ≡ true)
unfolding country_digits all_chars
country_digits-split String.[] h = cc h
country_digits-split (String.◌∷◌ d s) h = elim (Bool-cases (eqb (code d) b' ')) [
  | inl e ↦ (
    "",
    d,
    s,
    sym (nil-append _),
    refl,
    omega (arith, (eqb_iff (code d) b' ').0 e),
    ground (arith, h, e),
  )
  | inr e ↦
      let (a, c, b, q, digits, space, ten) = country_digits-split s (ground (arith, h, e)) in
      (
        String.◌∷◌ d a,
        c,
        b,
        ap (λ t. String.◌∷◌ d t) q ∙ sym (cons-append d a _),
        ground (arith, h, e, digits),
        space,
        ten,
      )
]

first_digit-country_digits : (s : String) → first_digit s ≡ true → country_digits s ≡ true
unfolding first_digit country_digits is_digit
first_digit-country_digits String.[] h = cc h
first_digit-country_digits (String.◌∷◌ c s) h = ground (arith, h)

-- \d+ and then \d* \d{10}$
Repeats-first_digit :
    {a : String} (t : String)
    → Repeats (Single is_digit) a
    → country_digits t ≡ true
    → first_digit (a ⧺ t) ≡ true
unfolding first_digit
Repeats-first_digit t (one (c, h, e)) k = rw (e, sym (split_first c t)) (ground (arith, h, k))
Repeats-first_digit t (more a b e (c, h, e') r) k =
    rw (e, e', sym (split_first c b), cons-append)
      (ground (arith, h, first_digit-country_digits (b ⧺ t) (Repeats-first_digit t r k)))

-- The texts of the phone numbers' pattern, over a test for digits.
abbrev Phone : (ℕ → Bool) → String → Type 0
Phone p s =
    (a : String) × (t : String) × (s ≡ a ⧺ t)
    × Single (in_ranges ((b'+', b'+') ∷ [])) a
    × ((b : String) × (u : String) × (t ≡ b ⧺ u)
        × Repeats (Single p) b
        × ((c : String) × (v : String) × (u ≡ c ⧺ v)
            × Single (in_ranges ((b' ', b' ') ∷ [])) c
            × Times 10 (Single p) v))

in_one : (k c : ℕ) → (in_ranges ((k, k) ∷ []) c ≡ true) ↔ (c ≡ k)
unfolding in_ranges
in_one k c = ground arith

first_digit-split :
    (s : String)
    → first_digit s ≡ true
    → (b : String) × (u : String) × (s ≡ b ⧺ u)
      × Repeats (Single is_digit) b
      × ((c : String) × (v : String) × (u ≡ c ⧺ v)
          × Single (in_ranges ((b' ', b' ') ∷ [])) c
          × Times 10 (Single is_digit) v)
unfolding first_digit all_chars
first_digit-split String.[] h = cc h
first_digit-split (String.◌∷◌ d s) h =
    let (a, c, b, q, all_digits, space, ten) = country_digits-split s (ground (arith, h)) in
    (
      String.◌∷◌ d a,
      String.◌∷◌ c b,
      ap (λ t. String.◌∷◌ d t) q ∙ sym (cons-append d a _),
      all-Repeats is_digit d a (ground (arith, h, all_digits)),
      (
        single c,
        b,
        split_first c b,
        (c, (in_one b' ' (code c)).1 space, refl),
        exact_digits-Times 10 b ten,
      ),
    )

phone_valid_only : (s : String) → phone_valid s ≡ true → Phone is_digit s
unfolding phone_valid
phone_valid_only String.[] h = cc h
phone_valid_only (String.◌∷◌ c s) h = (
  single c,
  s,
  split_first c s,
  (c, (in_one b'+' (code c)).1 ((eqb_iff (code c) b'+').0 (ground (arith, h))), refl),
  first_digit-split s (ground (arith, h)),
)

phone_valid_enough : (s : String) → Phone is_digit s → phone_valid s ≡ true
unfolding phone_valid country_digits
phone_valid_enough s (a, t, e, (x, plus_sign, ea), (b, u, et, r, (c, v, eu, (y, space, ec), ten))) =
    let country : country_digits u ≡ true =
      rw (eu, ec, sym (split_first y v), country_digits, (in_one b' ' (code y)).0 space)
        (Times-exact_digits 10 v ten) in
    rw (e, ea, sym (split_first x t), phone_valid, (in_one b'+' (code x)).0 plus_sign, et)
      (Repeats-first_digit u r country)

-- `PhoneNumber.Valid` accepts just the texts that match ^\+\d+ \d{10}$.
pub phone_valid_iff : (s : String) → (phone_valid s ≡ true) ↔ Matches phone_number_regex s
unfolding Matches
phone_valid_iff s =
    subst (λ p. (phone_valid s ≡ true) ↔ Phone p s) (fun_ext in_digits)
      (phone_valid_only s, phone_valid_enough s)
