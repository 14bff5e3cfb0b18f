-- ===== src/Tests/Runs.antt =====
-- What a run at concrete inputs computes through, under one name.
use k_chain_vm_common_go.Common.{bytes_equal, dec_lt}
use native.Mathlib.Decide.{dec_le}
use native.Mathlib.Bridge.{IsLe}
use k_chain_vm_common_go.Common.Int.{◌+ℤ◌, ◌-ℤ◌}
use k_chain_vm_common_go.Common.Order.{lt_wf}
use k_chain_vm_common_go.Numbers.{set_bytes, nat_bytes, int_bytes, sub_u64, safe_sub_u64}
use k_chain_vm_common_go.Vm.{format_log_data_for_call}
use k_chain_vm_common_go.Env.{set_account, base_dcdt_key_prefix}
use k_chain_vm_common_go.Address.{
  is_empty_address, is_smart_contract_address, is_system_account_address,
}
use k_chain_vm_common_go.Hex.{encode_to_string, hex_char}
use k_chain_vm_common_go.Metadata.{
  user_metadata_from_bytes, user_metadata_to_bytes, global_metadata_from_bytes,
  global_metadata_to_bytes,
}
use k_chain_vm_common_go.Logs.{
  add_dcdt_entry_for_transfer_in_vm_output, add_dcdt_entry_in_vm_output,
  add_output_transfer_to_vm_output, compute_gas_remaining,
}
use k_chain_vm_common_go.Balance.{
  are_properties_empty, get_dcdt_data_from_key, save_dcdt_data, check_froze_and_pause,
  add_to_dcdt_balance,
}
use k_chain_vm_common_go.Local.{
  check_basic_dcdt_arguments, check_input_arguments_for_local_action, process_local_mint,
  is_allowed_to_burn, process_local_burn, process_burn,
}
use k_chain_vm_common_go.Payable.{
  must_verify_payable, check_payable, determine_is_sc_call_after, payable_check,
}
use k_chain_vm_common_go.Roles.{
  role_key_prefix, get_nonce_key, does_role_exist, delete_role, delete_roles, compute_start_nonce,
  get_dcdt_roles_for_acnt, check_allowed_to_execute, role_handler, save_latest_nonce,
  save_roles_to_account, process_roles,
}
use k_chain_vm_common_go.Settings.{
  transfer_addresses_key_prefix, toggled, get_system_account, get_global_metadata, is_paused,
  is_limited_transfer, is_burn_for_all, is_sender_or_destination_with_transfer_role,
  settings_handler, toggle_setting, process_global_settings,
}
use k_chain_vm_common_go.Transfer.{
  check_transfer, check_limited_transfer, debit_sender, credit_destination, output_on_destination,
  output_cross_shard, process_transfer,
}
use k_chain_vm_common_go.Numbers.{to_u64}
use k_chain_vm_common_go.Common.{split_on}
use k_chain_vm_common_go.Logs.{extract_token_identifier_and_nonce_dcdt_wipe}
use k_chain_vm_common_go.Freeze.{
  remove_liquidity, wipe_if_applicable, toggle_freeze, process_freeze_wipe,
}
use k_chain_vm_common_go.TokenName.{is_ticker_valid, random_chars_are_valid, validate_token}
use k_chain_vm_common_go.Address.{is_allowed_to_save_under_key}
use k_chain_vm_common_go.KeyValue.{
  check_arguments_for_save_key_value, save_key_value_pair, save_key_value_pairs,
  subtract_gas_from_vm_output, process_save_key_value,
}
use k_chain_vm_common_go.TokenStorage.Handler.{storage_handler}
use k_chain_vm_common_go.TokenStorage.{
  compute_dcdt_nft_token_key, load_system_account, get_system_account_with_options,
  get_dcdt_digital_token_data_from_system_account, get_dcdt_meta_data_from_system_account,
  get_with_options, get_dcdt_nft_token_on_destination, get_with_custom_system_account,
  get_dcdt_nft_token_on_sender, marshal_and_save_data, check_collection_is_frozen_for_account,
  check_frozen_pause_properties,
}
use k_chain_vm_common_go.TokenStorage.Saving.{
  add_to_liquidity_system_acc, save_metadata_if_required, set_reserved_to_nil_for_old_token,
  token_on_system_account, save_dcdt_meta_data_to_system_account, save_dcdt_nft_token,
}
use k_chain_vm_common_go.Nft.{check_dcdt_nft_create_burn_add_input}
use k_chain_vm_common_go.Nft.Quantity.{
  is_allowed_to_burn_nft, change_quantity, check_nft_burn, process_nft_burn, check_nft_add_quantity,
  process_nft_add_quantity,
}
use k_chain_vm_common_go.Nft.Data.{
  get_gas_cost_for_uri_store, save_changed_meta_data, process_nft_add_uri,
  process_nft_update_attributes,
}
use k_chain_vm_common_go.Nft.Create.{
  get_account, get_latest_nonce, account_with_roles, save_created, check_nft_create,
  process_nft_create,
}
use k_chain_vm_common_go.Nft.Transfer.{
  add_nft_transfer_to_vm_output, add_nft_to_destination, call_after, fourth_argument,
  create_nft_output_transfers, check_nft_transfer, move_to_destination, finish_nft_transfer,
  send_nft, process_nft_transfer_on_sender_shard, process_nft_transfer_on_destination,
  process_nft_transfer,
}
use k_chain_vm_common_go.TokenStorage.Sent.{was_already_sent}
use k_chain_vm_common_go.Logs.{hex_arguments}

unfoldable pub runs : Unit {0}
unfolding bytes_equal dec_lt dec_le IsLe ◌+ℤ◌ ◌-ℤ◌ lt_wf set_bytes nat_bytes int_bytes sub_u64
    safe_sub_u64 format_log_data_for_call set_account base_dcdt_key_prefix is_empty_address
    is_smart_contract_address is_system_account_address encode_to_string hex_char
    user_metadata_from_bytes user_metadata_to_bytes global_metadata_from_bytes
    global_metadata_to_bytes add_dcdt_entry_for_transfer_in_vm_output add_dcdt_entry_in_vm_output
    add_output_transfer_to_vm_output compute_gas_remaining are_properties_empty
    get_dcdt_data_from_key save_dcdt_data check_froze_and_pause add_to_dcdt_balance
    check_basic_dcdt_arguments check_input_arguments_for_local_action process_local_mint
    is_allowed_to_burn process_local_burn process_burn must_verify_payable check_payable
    determine_is_sc_call_after payable_check role_key_prefix get_nonce_key does_role_exist
    delete_role delete_roles compute_start_nonce get_dcdt_roles_for_acnt check_allowed_to_execute
    role_handler save_latest_nonce save_roles_to_account process_roles transfer_addresses_key_prefix
    toggled get_system_account get_global_metadata is_paused is_limited_transfer is_burn_for_all
    is_sender_or_destination_with_transfer_role settings_handler toggle_setting
    process_global_settings check_transfer check_limited_transfer debit_sender credit_destination
    output_on_destination output_cross_shard process_transfer to_u64 split_on
    extract_token_identifier_and_nonce_dcdt_wipe remove_liquidity wipe_if_applicable toggle_freeze
    process_freeze_wipe is_ticker_valid random_chars_are_valid validate_token
    is_allowed_to_save_under_key check_arguments_for_save_key_value save_key_value_pair
    save_key_value_pairs subtract_gas_from_vm_output process_save_key_value
    compute_dcdt_nft_token_key load_system_account get_system_account_with_options
    get_dcdt_digital_token_data_from_system_account get_dcdt_meta_data_from_system_account
    get_with_options get_dcdt_nft_token_on_destination get_with_custom_system_account
    get_dcdt_nft_token_on_sender marshal_and_save_data check_collection_is_frozen_for_account
    check_frozen_pause_properties add_to_liquidity_system_acc save_metadata_if_required
    set_reserved_to_nil_for_old_token token_on_system_account save_dcdt_meta_data_to_system_account
    save_dcdt_nft_token storage_handler check_dcdt_nft_create_burn_add_input is_allowed_to_burn_nft
    change_quantity check_nft_burn process_nft_burn check_nft_add_quantity process_nft_add_quantity
    get_gas_cost_for_uri_store save_changed_meta_data process_nft_add_uri
    process_nft_update_attributes get_account get_latest_nonce account_with_roles save_created
    check_nft_create process_nft_create add_nft_transfer_to_vm_output add_nft_to_destination
    call_after fourth_argument create_nft_output_transfers check_nft_transfer move_to_destination
    finish_nft_transfer send_nft process_nft_transfer_on_sender_shard
    process_nft_transfer_on_destination process_nft_transfer was_already_sent hex_arguments
runs = tt
