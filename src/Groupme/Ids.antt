-- ===== src/Groupme/Ids.antt =====
-- Identifiers, phone numbers and status codes: pkg/groupmeclient/data_types.go.
pub mod Regex
pub mod Language
use Prim.Native.String.{[], ◌∷◌}
use Prim.Native.Char.{code}
use matrix_groupme_bridge.Prelude.{
  ℕ, zero, suc, String, Bool, true, false, ◌&&◌, ◌||◌, eqb, leb, if◌then◌else◌, all_chars,
}

unfoldable pub is_digit : ℕ → Bool
is_digit c = leb b'0' c && leb c b'9'

unfoldable pub is_alphanumeric : ℕ → Bool
unfolding is_digit
is_alphanumeric c = is_digit c || (leb b'a' c && leb c b'z') || (leb b'A' c && leb c b'Z')

-- `ID.Valid`: ^[a-zA-Z0-9]+$
unfoldable pub id_valid : String → Bool
unfolding is_alphanumeric
id_valid [] = false
id_valid (c ∷ s) = all_chars (λ d. is_alphanumeric (code d)) (c ∷ s)

-- \d{n}$
unfoldable pub exact_digits : ℕ → String → Bool
unfolding is_digit
exact_digits zero [] = true
exact_digits zero (c ∷ s) = false
exact_digits (suc n) [] = false
exact_digits (suc n) (c ∷ s) = let rest = exact_digits n s in is_digit (code c) && rest

-- \d* \d{10}$
unfoldable pub country_digits : String → Bool
unfolding exact_digits
country_digits [] = false
country_digits (c ∷ s) =
    let rest = country_digits s in
    if eqb (code c) b' ' then exact_digits 10 s else (is_digit (code c) && rest)

-- \d+ \d{10}$
unfoldable pub first_digit : String → Bool
unfolding country_digits
first_digit [] = false
first_digit (c ∷ s) = is_digit (code c) && country_digits s

-- `PhoneNumber.Valid`: ^\+\d+ \d{10}$
unfoldable pub phone_valid : String → Bool
unfolding first_digit
phone_valid [] = false
phone_valid (c ∷ s) = eqb (code c) b'+' && first_digit s

-- `HTTPStatusCode.String`: a code that is not in the table has the empty description.
unfoldable pub status_text : ℕ → String
status_text code =
    if eqb code 200
    then "success"
    else if eqb code 201
    then "resource was created successfully"
    else if eqb code 204
    then "resource was deleted successfully"
    else if eqb code 304
    then "no new data to return"
    else if eqb code 400
    then "invalid format or data specified in the request"
    else if eqb code 401
    then "authentication credentials missing or incorrect"
    else if eqb code 403
    then "request refused due to update limits"
    else if eqb code 404
    then "URI is invalid or resource does not exist"
    else if eqb code 420
    then "application is being rate limited"
    else if eqb code 500
    then "something unexpected occurred"
    else if eqb code 502
    then "GroupMe is down or being upgraded"
    else if eqb code 503
    then "servers are overloaded, try again later"
    else ""
