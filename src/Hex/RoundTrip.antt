-- ===== src/Hex/RoundTrip.antt =====
-- Decoding what was encoded, and what an encoded text is made of.
use k_chain_vm_common_go.Common.{
  ℕ, ◌/◌, ◌%◌, ◌<◌, ◌≡◌, ◌≢◌, refl, [], ◌∷◌, some, Bytes, arith, All, AreBytes,
}
use k_chain_vm_common_go.Hex.{hex_char, hex_digit, encode_to_string, decode_string}

hex_digit-hex_char : (d : ℕ) → d < 16 → hex_digit (hex_char d) ≡ some d
unfolding hex_digit hex_char
hex_digit-hex_char d h = ground arith

pub decode_string-encode_to_string :
    (bs : Bytes) → AreBytes bs → decode_string (encode_to_string bs) ≡ some bs
unfolding decode_string encode_to_string
decode_string-encode_to_string [] h = refl
decode_string-encode_to_string (b ∷ bs) h =
    rw
      (
        hex_digit-hex_char (b / 16) (omega arith),
        hex_digit-hex_char (b % 16) (omega arith),
        decode_string-encode_to_string bs h.1,
      )
      (ground arith)

hex_char_ne_at : (d : ℕ) → d < 16 → hex_char d ≢ b'@'
unfolding hex_char
hex_char_ne_at d h = ground arith

-- No character of an encoded text is the separator.
pub encode_to_string-lacks_at :
    (bs : Bytes) → AreBytes bs → All (λ c. c ≢ b'@') (encode_to_string bs)
unfolding encode_to_string
encode_to_string-lacks_at [] h = tt
encode_to_string-lacks_at (b ∷ bs) h = (
  hex_char_ne_at (b / 16) (omega arith),
  (hex_char_ne_at (b % 16) (omega arith), encode_to_string-lacks_at bs h.1),
)
