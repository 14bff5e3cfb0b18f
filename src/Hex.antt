-- ===== src/Hex.antt =====
-- encoding/hex as the program uses it: EncodeToString and DecodeString.
pub mod RoundTrip
use k_chain_vm_common_go.Common.{
  ℕ, ◌+◌, ◌-◌, ◌*◌, ◌/◌, ◌%◌, Bool, ◌&&◌, List, [], ◌∷◌, Option, none, some, Bytes, leb, ltb,
  if◌then◌else◌,
}

-- The character of a hexadecimal digit.
unfoldable pub hex_char : ℕ → ℕ
hex_char d = if ltb d 10 then b'0' + d else b'a' + (d - 10)

-- The digit of a character, of either case.
unfoldable pub hex_digit : ℕ → Option ℕ
hex_digit c =
    if leb b'0' c && leb c b'9'
    then some (c - b'0')
    else if leb b'a' c && leb c b'f'
    then some (c - b'a' + 10)
    else if leb b'A' c && leb c b'F'
    then some (c - b'A' + 10)
    else none

-- hex.EncodeToString
unfoldable pub encode_to_string : Bytes → Bytes
encode_to_string [] = []
encode_to_string (b ∷ bs) = hex_char (b / 16) ∷ hex_char (b % 16) ∷ encode_to_string bs

abbrev pub decode_pair : Option ℕ → Option ℕ → Option Bytes → Option Bytes
decode_pair (some h) (some l) (some rest) = some ((h * 16 + l) ∷ rest)
decode_pair _ _ _ = none

-- hex.DecodeString; `none` for a character that is no digit and for an odd length.
unfoldable pub decode_string : Bytes → Option Bytes
decode_string [] = some []
decode_string (h ∷ []) = none
decode_string (h ∷ l ∷ s) = decode_pair (hex_digit h) (hex_digit l) (decode_string s)
