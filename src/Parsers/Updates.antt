-- ===== src/Parsers/Updates.antt =====
-- Storage updates written as a text and read back.
use mathlib.Core.List.{append_assoc}
use k_chain_vm_common_go.Common.{
  ◌%◌, ◌≡◌, ◌≢◌, refl, ◌∙◌, List, [], ◌∷◌, ◌++◌, Bytes, arith, All, AreBytes, length,
}
use k_chain_vm_common_go.Hex.{encode_to_string}
use k_chain_vm_common_go.Hex.RoundTrip.{encode_to_string-lacks_at}
use k_chain_vm_common_go.Parsers.{
  parsed, StorageUpdate, trim_leading_separator_char, require_num_tokens_is_even, decode_updates,
  get_storage_updates, create_data_from, create_data_from_storage_update, at_separator,
}
use k_chain_vm_common_go.Parsers.Split.{
  LacksAt, joined, tokenize-joined, decode_token-encode_to_string, encode_to_string_ne_nil,
}

-- Keys and values are bytes.
abbrev pub AreUpdates : List StorageUpdate → Type 0
AreUpdates = All (λ u. AreBytes u.offset × AreBytes u.storage_data)

abbrev tokens_of : List StorageUpdate → List Bytes
tokens_of [] = []
tokens_of (u ∷ us) = encode_to_string u.offset ∷ encode_to_string u.storage_data ∷ tokens_of us

create_data_from-joined :
    (s : Bytes) (u : StorageUpdate) (us : List StorageUpdate)
    → create_data_from s (u ∷ us)
      ≡ s ++ joined (encode_to_string u.offset) (encode_to_string u.storage_data ∷ tokens_of us)
unfolding create_data_from
create_data_from-joined s u [] = simp append_assoc
create_data_from-joined s u (v ∷ us) =
    create_data_from-joined
      (s
        ++ encode_to_string u.offset
        ++ at_separator
        ++ encode_to_string u.storage_data
        ++ at_separator)
      v us
    ∙ simp append_assoc

tokens_of-LacksAt : (us : List StorageUpdate) → AreUpdates us → All LacksAt (tokens_of us)
tokens_of-LacksAt [] h = tt
tokens_of-LacksAt (u ∷ us) h = (
  encode_to_string-lacks_at u.offset h.0.0,
  (encode_to_string-lacks_at u.storage_data h.0.1, tokens_of-LacksAt us h.1),
)

decode_updates-tokens_of :
    (us : List StorageUpdate) → AreUpdates us → decode_updates (tokens_of us) ≡ parsed us
unfolding decode_updates
decode_updates-tokens_of [] h = refl
decode_updates-tokens_of (u ∷ us) h =
    rw
      (
        decode_token-encode_to_string u.offset h.0.0,
        decode_token-encode_to_string u.storage_data h.0.1,
        decode_updates-tokens_of us h.1,
      )
      refl

length-tokens_of : (us : List StorageUpdate) → length (tokens_of us) % 2 ≡ 0
length-tokens_of [] = refl
length-tokens_of (u ∷ us) = omega (arith, length-tokens_of us)

require_even : (us : List StorageUpdate) → require_num_tokens_is_even (tokens_of us) ≡ parsed tt
unfolding require_num_tokens_is_even
require_even us = rw (length-tokens_of us) refl

trim-joined :
    (t : Bytes) (us : List Bytes)
    → t ≢ []
    → LacksAt t
    → trim_leading_separator_char (joined t us) ≡ joined t us
unfolding trim_leading_separator_char
trim-joined [] us ne h = absurd (ne refl)
trim-joined (c ∷ t) [] ne h = ground (arith, h.0)
trim-joined (c ∷ t) (u ∷ us) ne h = ground (arith, h.0)

-- A list of updates whose first key is not empty is read back from the text that is created of it.
pub get_storage_updates-create_data :
    (u : StorageUpdate) (us : List StorageUpdate)
    → u.offset ≢ []
    → AreUpdates (u ∷ us)
    → get_storage_updates (create_data_from_storage_update (u ∷ us)) ≡ parsed (u ∷ us)
unfolding get_storage_updates create_data_from_storage_update
get_storage_updates-create_data u us ne h =
    let t : Bytes = encode_to_string u.offset in
    let ts : List Bytes = encode_to_string u.storage_data ∷ tokens_of us in
    let lacks : LacksAt t = encode_to_string-lacks_at u.offset h.0.0 in
    let filled : t ≢ [] = encode_to_string_ne_nil u.offset ne in
    ground (
      arith,
      create_data_from-joined [] u us,
      trim-joined t ts filled lacks,
      tokenize-joined t ts filled lacks (tokens_of-LacksAt (u ∷ us) h).1,
      require_even (u ∷ us),
      decode_updates-tokens_of (u ∷ us) h,
    )
