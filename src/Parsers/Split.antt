-- ===== src/Parsers/Split.antt =====
-- Splitting a text that was joined with the separator, and decoding what was encoded.
use mathlib.Core.List.{append_assoc}
use k_chain_vm_common_go.Common.{
  ◌≡◌, ◌≢◌, refl, List, [], ◌∷◌, ◌++◌, map, Bytes, arith, All, AreBytes, split_on,
}
use k_chain_vm_common_go.Hex.{encode_to_string}
use k_chain_vm_common_go.Hex.RoundTrip.{decode_string-encode_to_string, encode_to_string-lacks_at}
use k_chain_vm_common_go.Parsers.{
  parsed, split, tokenize, decode_token, decode_tokens, at_separator_char,
}

-- No character of the text is the separator.
abbrev pub LacksAt : Bytes → Type 0
LacksAt = All (λ c. c ≢ at_separator_char)

-- Tokens with the separator between them.
abbrev pub joined : Bytes → List Bytes → Bytes
joined t [] = t
joined t (u ∷ us) = t ++ (at_separator_char ∷ joined u us)

split_lem : (t : Bytes) → LacksAt t → split t ≡ t ∷ []
unfolding split split_on
split_lem [] h = refl
split_lem (c ∷ t) h = ground (arith, split_lem t h.1, h.0)

split-append : (t s : Bytes) → LacksAt t → split (t ++ (at_separator_char ∷ s)) ≡ t ∷ split s
unfolding split split_on
split-append [] s h = refl
split-append (c ∷ t) s h = ground (arith, split-append t s h.1, h.0)

pub split-joined :
    (t : Bytes) (us : List Bytes) → LacksAt t → All LacksAt us → split (joined t us) ≡ t ∷ us
split-joined t [] h hs = split_lem t h
split-joined t (u ∷ us) h hs = rw (split-append t (joined u us) h, split-joined u us hs.0 hs.1) refl

pub tokenize-joined :
    (t : Bytes) (us : List Bytes)
    → t ≢ []
    → LacksAt t
    → All LacksAt us
    → tokenize (joined t us) ≡ parsed (t ∷ us)
unfolding tokenize
tokenize-joined [] us ne h hs = absurd (ne refl)
tokenize-joined (c ∷ t) us ne h hs = rw (split-joined (c ∷ t) us h hs) (ground arith)

pub decode_token-encode_to_string :
    (bs : Bytes) → AreBytes bs → decode_token (encode_to_string bs) ≡ parsed bs
unfolding decode_token
decode_token-encode_to_string bs h = ground (arith, decode_string-encode_to_string bs h)

pub decode_tokens-map :
    (args : List Bytes)
    → All AreBytes args
    → decode_tokens (map encode_to_string args) ≡ parsed args
unfolding decode_tokens
decode_tokens-map [] h = refl
decode_tokens-map (a ∷ args) h =
    rw (decode_token-encode_to_string a h.0, decode_tokens-map args h.1) refl

pub map-LacksAt : (args : List Bytes) → All AreBytes args → All LacksAt (map encode_to_string args)
map-LacksAt [] h = tt
map-LacksAt (a ∷ args) h = (encode_to_string-lacks_at a h.0, map-LacksAt args h.1)

pub encode_to_string_ne_nil : (bs : Bytes) → bs ≢ [] → encode_to_string bs ≢ []
unfolding encode_to_string
encode_to_string_ne_nil [] ne h = ne refl
encode_to_string_ne_nil (b ∷ bs) ne h = cc

pub joined-append : (s t : Bytes) (us : List Bytes) → joined (s ++ t) us ≡ s ++ joined t us
joined-append s t [] = refl
joined-append s t (u ∷ us) = append_assoc s t (at_separator_char ∷ joined u us)
