-- ===== src/Builder/RoundTrip.antt =====
-- What the parsers read of the texts that the builder writes.
use mathlib.Core.List.{append_assoc, append-nil}
use k_chain_vm_common_go.Common.{
  ℕ, ◌≡◌, ◌≢◌, refl, ◌∙◌, sym, ap, List, [], ◌∷◌, ◌++◌, map, Bytes, codes, arith, All, AreBytes,
}
use k_chain_vm_common_go.Common.Int.{pos}
use k_chain_vm_common_go.Numbers.{set_bytes, nat_bytes, int_bytes}
use k_chain_vm_common_go.Numbers.RoundTrip.{set_bytes-nat_bytes, nat_bytes-AreBytes}
use k_chain_vm_common_go.Hex.{encode_to_string}
use k_chain_vm_common_go.Hex.RoundTrip.{encode_to_string-lacks_at}
use k_chain_vm_common_go.Metadata.{CodeMetadata, code_metadata_to_bytes}
use k_chain_vm_common_go.Metadata.RoundTrip.{code_metadata_round_trip, code_metadata-AreBytes}
use k_chain_vm_common_go.Env.{Core}
use k_chain_vm_common_go.Parsers.{
  parsed, parse_data, parse_function, parse_arguments, parse_deploy_data, parse_code, parse_vm_type,
  parse_code_metadata,
}
use k_chain_vm_common_go.Parsers.Split.{
  LacksAt, joined, tokenize-joined, joined-append, decode_token-encode_to_string, decode_tokens-map,
  map-LacksAt, encode_to_string_ne_nil,
}
use k_chain_vm_common_go.Builder.{
  TxDataBuilder, new_builder, append_elements, to_string, func, bytes, str, int64, transfer_dcdt,
}

-- The arguments appended one after the other by Bytes.
abbrev pub with_arguments : List Bytes → TxDataBuilder → TxDataBuilder
with_arguments [] b = b
with_arguments (a ∷ args) b = with_arguments args (bytes a b)

append_elements-joined :
    (s : Bytes) (es : List Bytes) → append_elements (codes "@") s es ≡ joined s es
unfolding append_elements
append_elements-joined s [] = refl
append_elements-joined s (e ∷ es) =
    append_elements-joined (s ++ codes "@" ++ e) es
    ∙ joined-append (s ++ codes "@") e es
    ∙ append_assoc s (codes "@") (joined e es)

with_arguments-elements :
    (args : List Bytes) (b : TxDataBuilder)
    → with_arguments args b ≡ record b { elements = b.elements ++ map encode_to_string args }
unfolding bytes
with_arguments-elements [] b =
    ap (λ (es : List Bytes). record b { elements = es }) (sym (append-nil b.elements))
with_arguments-elements (a ∷ args) b =
    with_arguments-elements args (bytes a b)
    ∙ ap (λ (es : List Bytes). record b { elements = es })
        (append_assoc b.elements (encode_to_string a ∷ []) (map encode_to_string args))

to_string-with_arguments :
    (f : Bytes) (args : List Bytes)
    → to_string (with_arguments args (func f new_builder)) ≡ joined f (map encode_to_string args)
unfolding to_string func new_builder
to_string-with_arguments f args =
    ap to_string (with_arguments-elements args (func f new_builder))
    ∙ append_elements-joined f (map encode_to_string args)

-- A function name without `@` that is not empty, and any arguments of bytes, are read back from the text that
-- the builder writes of them.
pub parse_data-to_string :
    (f : Bytes) (args : List Bytes)
    → f ≢ []
    → LacksAt f
    → All AreBytes args
    → parse_data (to_string (with_arguments args (func f new_builder))) ≡ parsed (f, args)
unfolding parse_data parse_function parse_arguments
parse_data-to_string f args ne h bs = ground (
  arith,
  to_string-with_arguments f args,
  tokenize-joined f (map encode_to_string args) ne h (map-LacksAt args bs),
  decode_tokens-map args bs,
)

-- Where the name of the transfer function is not empty and has no `@`, the text of a transfer of
-- a value that is not negative is read back as that function with the token and the value's bytes,
-- and those bytes are read as the value.
pub parse_data-transfer_dcdt :
    (core : Core) (token : Bytes) (n : ℕ)
    → core.built_in_function_dcdt_transfer ≢ []
    → LacksAt core.built_in_function_dcdt_transfer
    → AreBytes token
    → (parse_data (to_string (transfer_dcdt core token (pos n) new_builder))
        ≡ parsed (core.built_in_function_dcdt_transfer, token ∷ nat_bytes n ∷ []))
      × (set_bytes (nat_bytes n) ≡ n)
unfolding transfer_dcdt str int64 bytes int_bytes
parse_data-transfer_dcdt core token n ne h bs = (
  parse_data-to_string core.built_in_function_dcdt_transfer (token ∷ nat_bytes n ∷ []) ne h
      (bs, (nat_bytes-AreBytes n, tt)),
  set_bytes-nat_bytes n,
)

parse_code-encode_to_string : (c : Bytes) → AreBytes c → parse_code (encode_to_string c) ≡ parsed c
unfolding parse_code
parse_code-encode_to_string c b = rw (decode_token-encode_to_string c b) refl

parse_vm_type-encode_to_string :
    (c : Bytes) → c ≢ [] → AreBytes c → parse_vm_type (encode_to_string c) ≡ parsed c
unfolding parse_vm_type encode_to_string
parse_vm_type-encode_to_string [] ne b = absurd (ne refl)
parse_vm_type-encode_to_string (x ∷ c) ne b =
    ground (arith, decode_token-encode_to_string (x ∷ c) b)

parse_code_metadata-encode_to_string :
    (k : CodeMetadata)
    → parse_code_metadata (encode_to_string (code_metadata_to_bytes k)) ≡ parsed k
unfolding parse_code_metadata
parse_code_metadata-encode_to_string k =
    rw
      (
        decode_token-encode_to_string (code_metadata_to_bytes k) (code_metadata-AreBytes k),
        code_metadata_round_trip k,
      )
      refl

-- The code, the virtual machine's type, the metadata and the arguments of a deployment, the first
-- two not empty, are read back from the text that the builder writes of them.
pub parse_deploy_data-to_string :
    (code vm_type : Bytes) (m : CodeMetadata) (args : List Bytes)
    → code ≢ []
    → vm_type ≢ []
    → AreBytes code
    → AreBytes vm_type
    → All AreBytes args
    → parse_deploy_data (
        to_string (
          with_arguments
            (vm_type ∷ code_metadata_to_bytes m ∷ args)
            (func (encode_to_string code) new_builder)))
      ≡ parsed (record { code = code; vm_type = vm_type; code_metadata = m; arguments = args })
unfolding parse_deploy_data
parse_deploy_data-to_string code vm_type m args nc nv bc bv bs = ground (
  arith,
  to_string-with_arguments (encode_to_string code) (vm_type ∷ code_metadata_to_bytes m ∷ args),
  tokenize-joined (encode_to_string code)
      (map encode_to_string (vm_type ∷ code_metadata_to_bytes m ∷ args))
      (encode_to_string_ne_nil code nc) (encode_to_string-lacks_at code bc)
      (map-LacksAt (vm_type ∷ code_metadata_to_bytes m ∷ args)
        (bv, (code_metadata-AreBytes m, bs))),
  parse_code-encode_to_string code bc,
  parse_vm_type-encode_to_string vm_type nv bv,
  parse_code_metadata-encode_to_string m,
  decode_tokens-map args bs,
)
