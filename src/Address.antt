-- ===== src/Address.antt =====
-- address.go: which addresses are smart contracts, the system account or on the metachain, and
-- which keys may be written.
pub mod Properties
use k_chain_vm_common_go.Common.{
  ℕ, ◌+◌, ◌-◌, Bool, true, false, not, ◌&&◌, List, [], ◌∷◌, Option, none, some, Bytes, bytes_equal,
  leb, ltb, ◌==◌, if◌then◌else◌, length, take, drop, replicate,
}
use k_chain_vm_common_go.Env.{Core}

-- SystemAccountAddress
abbrev pub system_account_address : Bytes
system_account_address = replicate 32 255

abbrev pub num_init_characters_for_sc_address : ℕ
num_init_characters_for_sc_address = 10

abbrev pub vm_type_len : ℕ
vm_type_len = 2

abbrev pub meta_chain_shard_identifier : ℕ
meta_chain_shard_identifier = 255

abbrev pub num_init_characters_for_on_metachain_sc : ℕ
num_init_characters_for_on_metachain_sc = 15

abbrev pub num_init_characters_for_system_account_address : ℕ
num_init_characters_for_system_account_address = 30

-- IsSystemAccountAddress
unfoldable pub is_system_account_address : Bytes → Bool
is_system_account_address address =
    if ltb (length address) num_init_characters_for_system_account_address
    then false
    else bytes_equal (take num_init_characters_for_system_account_address address)
        (take num_init_characters_for_system_account_address system_account_address)

-- IsEmptyAddress
unfoldable pub is_empty_address : Bytes → Bool
is_empty_address address = bytes_equal address (replicate (length address) 0)

-- IsSmartContractAddress
unfoldable pub is_smart_contract_address : Bytes → Bool
is_smart_contract_address rcv_address =
    if leb (length rcv_address) num_init_characters_for_sc_address
    then false
    else if is_empty_address rcv_address
    then true
    else let num_of_zeros = num_init_characters_for_sc_address - vm_type_len in
      bytes_equal (take num_of_zeros rcv_address) (replicate num_of_zeros 0)

all_metachain : Bytes → Bool
all_metachain [] = true
all_metachain (b ∷ bs) = if b == meta_chain_shard_identifier then all_metachain bs else false

-- IsMetachainIdentifier
unfoldable pub is_metachain_identifier : Bytes → Bool
unfolding all_metachain
is_metachain_identifier identifier =
    if length identifier == 0 then false else all_metachain identifier

-- IsSmartContractOnMetachain
unfoldable pub is_smart_contract_on_metachain : Bytes → Bytes → Bool
is_smart_contract_on_metachain identifier rcv_address =
    if leb (length rcv_address)
      (num_init_characters_for_sc_address + num_init_characters_for_on_metachain_sc)
    then false
    else if not (is_metachain_identifier identifier)
    then false
    else if not (is_smart_contract_address rcv_address)
    then false
    else bytes_equal
        (take num_init_characters_for_on_metachain_sc
          (drop num_init_characters_for_sc_address rcv_address))
        (replicate num_init_characters_for_on_metachain_sc 0)

-- IsAllowedToSaveUnderKey
unfoldable pub is_allowed_to_save_under_key : Core → Bytes → Bool
is_allowed_to_save_under_key c key =
    let prefix_len = length c.protected_key_prefix in
    if ltb (length key) prefix_len
    then true
    else not (bytes_equal (take prefix_len key) c.protected_key_prefix)

-- ParseVMTypeFromContractAddress; `none` is ErrInvalidVMType.
unfoldable pub parse_vm_type_from_contract_address : Bytes → Option Bytes
parse_vm_type_from_contract_address contract_address =
    if ltb (length contract_address) num_init_characters_for_sc_address
    then none
    else some (
        take vm_type_len (drop (num_init_characters_for_sc_address - vm_type_len) contract_address))
