-- ===== src/Tests/Texts.antt =====
-- Texts, names, addresses and packed flags at concrete inputs.
use k_chain_vm_common_go.Common.{
  ◌≡◌, ◌<◌, ◌↔◌, true, false, List, [], ◌∷◌, ◌++◌, some, Bytes, codes, arith, length, take,
  replicate,
}
use k_chain_vm_common_go.Common.Int.{pos}
use k_chain_vm_common_go.Numbers.{set_bytes, nat_bytes}
use k_chain_vm_common_go.Hex.{encode_to_string, decode_string}
use k_chain_vm_common_go.Hex.RoundTrip.{decode_string-encode_to_string}
use k_chain_vm_common_go.Metadata.{
  GlobalMetadata, global_metadata_from_bytes, global_metadata_to_bytes, UserMetadata,
  user_metadata_from_bytes, user_metadata_to_bytes, CodeMetadata, code_metadata_from_bytes,
  code_metadata_to_bytes,
}
use k_chain_vm_common_go.Metadata.RoundTrip.{metadata_round_trips}
use k_chain_vm_common_go.Address.{is_smart_contract_address, is_allowed_to_save_under_key}
use k_chain_vm_common_go.Address.Properties.{address_tests_iff}
use k_chain_vm_common_go.Parsers.{
  parsed, parse_data, parse_deploy_data, StorageUpdate, get_storage_updates,
  create_data_from_storage_update,
}
use k_chain_vm_common_go.Parsers.Updates.{get_storage_updates-create_data}
use k_chain_vm_common_go.Builder.{new_builder, to_string, func, transfer_dcdt}
use k_chain_vm_common_go.Builder.RoundTrip.{
  with_arguments, parse_data-to_string, parse_data-transfer_dcdt, parse_deploy_data-to_string,
}
use k_chain_vm_common_go.Tests.Bank.{core}

abbrev arguments : List Bytes
arguments = (1 ∷ 255 ∷ []) ∷ [] ∷ []

parse_data-to_string_example :
    parse_data (to_string (with_arguments arguments (func (codes "f") new_builder)))
    ≡ parsed (codes "f", arguments)
parse_data-to_string_example =
    parse_data-to_string (codes "f") arguments (λ p. cc) (ground arith) (ground arith)

parse_data-transfer_dcdt_example :
    (parse_data (to_string (transfer_dcdt core (codes "T") (pos 300) new_builder))
      ≡ parsed (core.built_in_function_dcdt_transfer, codes "T" ∷ nat_bytes 300 ∷ []))
    × (set_bytes (nat_bytes 300) ≡ 300)
parse_data-transfer_dcdt_example =
    parse_data-transfer_dcdt core (codes "T") 300 (λ p. cc) (ground arith) (ground arith)

abbrev metadata : CodeMetadata
metadata = record {
  payable = true;
  payable_by_sc = false;
  upgradeable = true;
  readable = false;
  guarded = true;
}

parse_deploy_data-to_string_example :
    parse_deploy_data (
      to_string (
        with_arguments
          ((5 ∷ 0 ∷ []) ∷ code_metadata_to_bytes metadata ∷ arguments)
          (func (encode_to_string (9 ∷ [])) new_builder)))
    ≡ parsed (record {
      code = 9 ∷ [];
      vm_type = 5 ∷ 0 ∷ [];
      code_metadata = metadata;
      arguments = arguments;
    })
parse_deploy_data-to_string_example =
    parse_deploy_data-to_string (9 ∷ []) (5 ∷ 0 ∷ []) metadata arguments (λ p. cc) (λ p. cc)
      (ground arith) (ground arith) (ground arith)

abbrev update : StorageUpdate
update = record { offset = 7 ∷ []; storage_data = [] }

get_storage_updates-create_data_example :
    get_storage_updates (create_data_from_storage_update (update ∷ update ∷ []))
    ≡ parsed (update ∷ update ∷ [])
get_storage_updates-create_data_example =
    get_storage_updates-create_data update (update ∷ []) (λ p. cc) (ground arith)

decode_string-encode_to_string_example :
    decode_string (encode_to_string (171 ∷ 0 ∷ [])) ≡ some (171 ∷ 0 ∷ [])
decode_string-encode_to_string_example =
    decode_string-encode_to_string (171 ∷ 0 ∷ []) (ground arith)

abbrev settings : GlobalMetadata
settings = record { paused = true; limited_transfer = false; burn_role_for_all = true }

abbrev frozen_user : UserMetadata
frozen_user = record { frozen = true }

metadata_round_trips_example :
    (global_metadata_from_bytes (global_metadata_to_bytes settings) ≡ settings)
    × (user_metadata_from_bytes (user_metadata_to_bytes frozen_user) ≡ frozen_user)
    × (code_metadata_from_bytes (code_metadata_to_bytes metadata) ≡ metadata)
metadata_round_trips_example = metadata_round_trips settings frozen_user metadata

abbrev contract : Bytes
contract = replicate 8 0 ++ (5 ∷ 0 ∷ 1 ∷ 2 ∷ [])

address_tests_iff_example :
    ((is_smart_contract_address contract ≡ true)
      ↔ ((10 < length contract) × (take 8 contract ≡ replicate 8 0)))
    × ((is_allowed_to_save_under_key core (codes "NdcdtT") ≡ false)
        ↔ ((rest : Bytes) × (codes "NdcdtT" ≡ core.protected_key_prefix ++ rest)))
address_tests_iff_example = address_tests_iff contract core (codes "NdcdtT")
