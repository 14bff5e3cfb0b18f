-- ===== src/Parsers.antt =====
-- parsers/tokenize.go, callArgsParser.go, deployArgsParser.go and storageUpdatesParser.go: texts of
-- hexadecimal arguments between `@`.
pub mod Split
pub mod Updates
use k_chain_vm_common_go.Common.{
  ℕ, ◌%◌, Bool, true, false, not, List, [], ◌∷◌, ◌++◌, Option, none, some, Bytes, ◌==◌, ltb,
  if◌then◌else◌, length, get_or, drop, split_on,
}
use k_chain_vm_common_go.Hex.{encode_to_string, decode_string}
use k_chain_vm_common_go.Metadata.{CodeMetadata, code_metadata_from_bytes}

-- parsers/errors.go
pub data ParseError : Type 0 where
  tokenize_failed invalid_deploy_arguments nil_function invalid_data_string : ParseError
  invalid_vm_type invalid_code invalid_code_metadata : ParseError

pub data Parsed (A : Type 0) : Type 0 where
  parsed : A → Parsed A
  rejected : ParseError → Parsed A

infixl 5 ◌>>=◌
abbrev ◌>>=◌ : {A B : Type 0} → Parsed A → (A → Parsed B) → Parsed B
◌>>=◌ (parsed a) f = f a
◌>>=◌ (rejected x) f = rejected x

-- `return err` under `if err != nil`, with an error of its own.
abbrev pub or_reject : {A : Type 0} → ParseError → Parsed A → Parsed A
or_reject x (parsed a) = parsed a
or_reject x (rejected y) = rejected x

abbrev pub at_separator : Bytes
at_separator = b'@' ∷ []

abbrev pub at_separator_char : ℕ
at_separator_char = b'@'

abbrev pub min_num_call_arguments : ℕ
min_num_call_arguments = 1

abbrev pub min_num_deploy_arguments : ℕ
min_num_deploy_arguments = 3

abbrev pub start_index_of_constructor_arguments : ℕ
start_index_of_constructor_arguments = 3

-- strings.Split(data, atSeparator)
unfoldable pub split : Bytes → List Bytes
unfolding split_on
split = split_on at_separator_char

unfoldable pub tokenize : Bytes → Parsed (List Bytes)
unfolding split
tokenize text =
    let tokens = split text in
    if length tokens == 0
    then rejected tokenize_failed
    else if length (get_or tokens 0 []) == 0
    then rejected tokenize_failed
    else parsed tokens

unfoldable pub decode_token : Bytes → Parsed Bytes
unfolding decode_string
decode_token token = elim (decode_string token) [
  | none ↦ rejected tokenize_failed
  | some decoded ↦ parsed decoded
]

unfoldable pub trim_leading_separator_char : Bytes → Bytes
trim_leading_separator_char [] = []
trim_leading_separator_char (c ∷ s) = if c == at_separator_char then s else c ∷ s

unfoldable pub require_num_tokens_is_even : List Bytes → Parsed (Unit {0})
require_num_tokens_is_even tokens =
    if length tokens % 2 == 0 then parsed tt else rejected invalid_data_string

-- The loop of both parseArguments.
unfoldable pub decode_tokens : List Bytes → Parsed (List Bytes)
unfolding decode_token
decode_tokens [] = parsed []
decode_tokens (token ∷ tokens) = do
  argument ← decode_token token
  arguments ← decode_tokens tokens
  parsed (argument ∷ arguments)

-- (*callArgsParser).parseFunction
unfoldable pub parse_function : List Bytes → Parsed Bytes
parse_function [] = rejected nil_function
parse_function (function ∷ _) = parsed function

-- (*callArgsParser).parseArguments
unfoldable pub parse_arguments : List Bytes → Parsed (List Bytes)
unfolding decode_tokens
parse_arguments tokens = decode_tokens (drop min_num_call_arguments tokens)

-- (*callArgsParser).ParseData
unfoldable pub parse_data : Bytes → Parsed (Bytes × List Bytes)
unfolding tokenize parse_function parse_arguments
parse_data text = do
  tokens ← tokenize text
  function ← parse_function tokens
  arguments ← parse_arguments tokens
  parsed (function, arguments)

-- (*callArgsParser).ParseArguments; strings.Split gives at least one token.
unfoldable pub parse_data_arguments : Bytes → Parsed (List Bytes)
unfolding split parse_arguments
parse_data_arguments text = do
  let tokens = split text
  parsed_args ← parse_arguments tokens
  parsed (get_or tokens 0 [] ∷ parsed_args)

pub record DeployArgs : Type 0 where
  pub code : Bytes
  pub vm_type : Bytes
  pub code_metadata : CodeMetadata
  pub arguments : List Bytes

-- (*deployArgsParser).parseCode
unfoldable pub parse_code : Bytes → Parsed Bytes
unfolding decode_token
parse_code code_hex = or_reject invalid_code (decode_token code_hex)

-- (*deployArgsParser).parseVMType
unfoldable pub parse_vm_type : Bytes → Parsed Bytes
unfolding decode_token
parse_vm_type [] = rejected invalid_vm_type
parse_vm_type (c ∷ s) = or_reject invalid_vm_type (decode_token (c ∷ s))

-- (*deployArgsParser).parseCodeMetadata
unfoldable pub parse_code_metadata : Bytes → Parsed CodeMetadata
unfolding decode_token code_metadata_from_bytes
parse_code_metadata code_metadata_hex = do
  code_metadata_bytes ← or_reject invalid_code_metadata (decode_token code_metadata_hex)
  parsed (code_metadata_from_bytes code_metadata_bytes)

-- (*deployArgsParser).ParseData; the indices are below the number of tokens that was tested.
unfoldable pub parse_deploy_data : Bytes → Parsed DeployArgs
unfolding tokenize parse_code parse_vm_type parse_code_metadata decode_tokens
parse_deploy_data text = do
  tokens ← tokenize text
  if ltb (length tokens) min_num_deploy_arguments then rejected invalid_deploy_arguments else do
    code ← parse_code (get_or tokens 0 [])
    vm_type ← parse_vm_type (get_or tokens 1 [])
    code_metadata ← parse_code_metadata (get_or tokens 2 [])
    arguments ← decode_tokens (drop start_index_of_constructor_arguments tokens)
    parsed (record {
      code = code;
      vm_type = vm_type;
      code_metadata = code_metadata;
      arguments = arguments;
    })

-- vmcommon.StorageUpdate, with the fields that the parser sets.
pub record StorageUpdate : Type 0 where
  pub offset : Bytes
  pub storage_data : Bytes

-- The loop of GetStorageUpdates; the number of tokens was tested to be even.
unfoldable pub decode_updates : List Bytes → Parsed (List StorageUpdate)
unfolding decode_token
decode_updates (offset_hex ∷ value_hex ∷ tokens) = do
  offset ← decode_token offset_hex
  value ← decode_token value_hex
  updates ← decode_updates tokens
  parsed (record { offset = offset; storage_data = value } ∷ updates)
decode_updates _ = parsed []

-- (*storageUpdatesParser).GetStorageUpdates
unfoldable pub get_storage_updates : Bytes → Parsed (List StorageUpdate)
unfolding trim_leading_separator_char tokenize require_num_tokens_is_even decode_updates
get_storage_updates text = do
  tokens ← tokenize (trim_leading_separator_char text)
  _ ← require_num_tokens_is_even tokens
  decode_updates tokens

-- (*storageUpdatesParser).CreateDataFromStorageUpdate, from the text so far.
unfoldable pub create_data_from : Bytes → List StorageUpdate → Bytes
unfolding encode_to_string
create_data_from text [] = text
create_data_from text (u ∷ []) =
    text ++ encode_to_string u.offset ++ at_separator ++ encode_to_string u.storage_data
create_data_from text (u ∷ v ∷ us) =
    create_data_from
      (text
        ++ encode_to_string u.offset
        ++ at_separator
        ++ encode_to_string u.storage_data
        ++ at_separator)
      (v ∷ us)

unfoldable pub create_data_from_storage_update : List StorageUpdate → Bytes
unfolding create_data_from
create_data_from_storage_update = create_data_from []
