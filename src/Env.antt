-- ===== src/Env.antt =====
-- What the built-in functions take from outside the repository: the constants of k-chain-core-go,
-- the account's data handler, the accounts adapter, the marshaller, the flags and the shards.
pub mod Laws
use k_chain_vm_common_go.Common.{
  ℕ, ◌≡◌, refl, Bool, true, false, List, [], ◌∷◌, ◌++◌, Option, none, some, Bytes, ◌==◌,
  if◌then◌else◌,
}
use k_chain_vm_common_go.Errors.{HostError, Result}
use k_chain_vm_common_go.Vm.{DigitalToken}

-- The constants of k-chain-core-go.
pub record Core : Type 0 where
  pub protected_key_prefix : Bytes
  pub dcdt_key_identifier : Bytes
  pub dcdt_role_identifier : Bytes
  pub dcdt_nft_latest_nonce_identifier : Bytes
  pub dcdt_sc_address : Bytes
  pub metachain_shard_id : ℕ
  pub fungible : ℕ
  pub non_fungible : ℕ
  pub max_royalty : ℕ
  pub max_len_for_dcdt_issue_mint : ℕ
  pub min_len_arguments_dcdt_transfer : ℕ
  pub min_len_arguments_dcdt_nft_transfer : ℕ
  pub built_in_function_dcdt_transfer : Bytes
  pub built_in_function_dcdt_nft_transfer : Bytes
  pub built_in_function_multi_dcdt_nft_transfer : Bytes
  pub built_in_function_dcdt_nft_create : Bytes
  pub built_in_function_dcdt_nft_burn : Bytes
  pub built_in_function_dcdt_nft_add_quantity : Bytes
  pub built_in_function_dcdt_nft_add_uri : Bytes
  pub built_in_function_dcdt_nft_update_attributes : Bytes
  pub built_in_function_dcdt_local_mint : Bytes
  pub built_in_function_dcdt_local_burn : Bytes
  pub built_in_function_dcdt_burn : Bytes
  pub dcdt_role_local_mint : Bytes
  pub dcdt_role_local_burn : Bytes
  pub dcdt_role_transfer : Bytes
  pub dcdt_role_nft_create : Bytes
  pub dcdt_role_nft_burn : Bytes
  pub dcdt_role_nft_add_quantity : Bytes
  pub dcdt_role_nft_add_uri : Bytes
  pub dcdt_role_nft_update_attributes : Bytes
  pub dcdt_role_nft_create_multi_shard : Bytes

-- builtInFunctions/flags.go
pub data Flag : Type 0 where
  global_mint_burn_flag dcdt_transfer_role_flag check_function_argument_flag : Flag
  check_correct_token_id_for_transfer_role_flag fix_async_callback_check_flag : Flag
  save_to_system_account_flag check_frozen_collection_flag send_always_flag : Flag
  value_length_check_flag check_transfer_flag dcdt_nft_improvement_v1_flag : Flag
  fix_old_token_liquidity_flag wipe_single_nft_liquidity_decrease_flag : Flag
  always_save_token_meta_data_flag set_guardian_flag : Flag
  consistent_tokens_values_length_check_flag change_username_flag : Flag
  auto_balance_data_tries_flag sc_to_sc_log_event_flag : Flag
  fix_gas_remaining_for_save_key_value_flag : Flag
  is_change_owner_address_cross_shard_through_sc_flag migrate_data_trie_flag : Flag

-- What AccountsAdapter.LoadAccount gives: an error, a user account, or an account of another type,
-- at which the assertion to UserAccountHandler fails.
pub data Loaded (A : Type 0) : Type 0 where
  failed : HostError → Loaded A
  user_account : A → Loaded A
  other_account : Loaded A

-- `A` is a user account, `D` the accounts that the adapter has persisted.
pub record Env (A D : Type 0) : Type 0 where
  pub core : Core
  pub open core use *
  pub address_bytes : A → Bytes
  pub retrieve_value : A → Bytes → Bytes × Option HostError
  pub save_key_value : A → Bytes → Bytes → Option HostError × A
  pub load_account : D → Bytes → Loaded A
  pub save_account : D → A → Option HostError × D
  pub marshal_token : DigitalToken → Result Bytes
  pub unmarshal_token : DigitalToken → Bytes → Result DigitalToken
  pub marshal_roles : List Bytes → Result Bytes
  pub unmarshal_roles : List Bytes → Bytes → Result (List Bytes)
  pub is_flag_enabled : Flag → Bool
  pub compute_id : Bytes → ℕ
  pub same_shard : Bytes → Bytes → Bool
  pub self_id : ℕ
  pub number_of_shards : ℕ

-- The objects that the calls share: user accounts by reference, and the persisted accounts.
pub record World (A D : Type 0) : Type 0 where
  pub accounts : ℕ → A
  pub db : D

-- Two references may be one account: a write through either is seen through both.
unfoldable pub set_account : {A D : Type 0} → ℕ → A → World A D → World A D
set_account p a w = record w { accounts = λ q. if p == q then a else w.accounts q }

unfoldable pub base_dcdt_key_prefix : Core → Bytes
base_dcdt_key_prefix c = c.protected_key_prefix ++ c.dcdt_key_identifier

-- append(e.keyPrefix, tokenID...)
abbrev pub dcdt_token_key : Core → Bytes → Bytes
dcdt_token_key c token_id = base_dcdt_key_prefix c ++ token_id
