-- ===== src/TokenName.antt =====
-- common.go: which token identifiers are valid.
pub mod Spec
use k_chain_vm_common_go.Common.{
  ℕ, ◌+◌, ◌-◌, Bool, true, false, not, ◌&&◌, ◌||◌, List, [], ◌∷◌, Option, none, some, Bytes, ltb,
  leb, ◌==◌, if◌then◌else◌, length, take, drop, get_or,
}

abbrev pub ticker_min_length : ℕ
ticker_min_length = 3

abbrev pub ticker_max_length : ℕ
ticker_max_length = 10

abbrev pub additional_random_chars_length : ℕ
additional_random_chars_length = 6

abbrev pub identifier_min_length : ℕ
identifier_min_length = ticker_min_length + additional_random_chars_length + 1

abbrev pub identifier_max_length : ℕ
identifier_max_length = ticker_max_length + additional_random_chars_length + 1

-- The loop of isTickerValid.
abbrev pub ticker_chars_valid : Bytes → Bool
ticker_chars_valid [] = true
ticker_chars_valid (ch ∷ ticker_name) =
    let is_big_character = leb b'A' ch && leb ch b'Z' in
    let is_number = leb b'0' ch && leb ch b'9' in
    let is_readable = is_big_character || is_number in
    if not is_readable then false else ticker_chars_valid ticker_name

unfoldable pub is_ticker_valid : Bytes → Bool
is_ticker_valid ticker_name =
    if ltb (length ticker_name) ticker_min_length || ltb ticker_max_length (length ticker_name)
    then false
    else ticker_chars_valid ticker_name

-- The loop of randomCharsAreValid.
abbrev pub all_random_chars_valid : Bytes → Bool
all_random_chars_valid [] = true
all_random_chars_valid (ch ∷ chars) =
    let is_small_character = leb b'a' ch && leb ch b'f' in
    let is_number = leb b'0' ch && leb ch b'9' in
    let is_readable = is_small_character || is_number in
    if not is_readable then false else all_random_chars_valid chars

unfoldable pub random_chars_are_valid : Bytes → Bool
random_chars_are_valid chars =
    if not (length chars == additional_random_chars_length)
    then false
    else all_random_chars_valid chars

-- ValidateToken; the slices are within the length that was tested.
unfoldable pub validate_token : Bytes → Bool
unfolding is_ticker_valid random_chars_are_valid
validate_token token_id =
    let token_id_len = length token_id in
    if ltb token_id_len identifier_min_length || ltb identifier_max_length token_id_len
    then false
    else (let ticker_len = token_id_len - additional_random_chars_length in
        if not (is_ticker_valid (take (ticker_len - 1) token_id))
        then false
        else if not (get_or token_id (ticker_len - 1) 0 == b'-')
        then false
        else if not (random_chars_are_valid (drop ticker_len token_id))
        then false
        else true)
