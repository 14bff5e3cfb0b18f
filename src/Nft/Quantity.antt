-- ===== src/Nft/Quantity.antt =====
-- builtInFunctions/dcdtNFTBurn.go and dcdtNFTAddQuantity.go.
use k_chain_vm_common_go.Common.{
  ℕ, ◌==◌, false, ◌&&◌, [], ◌∷◌, Option, Bytes, ltb, if◌then◌else◌, length,
}
use k_chain_vm_common_go.Common.Int.{ℤ, pos, ◌+ℤ◌, ◌-ℤ◌}
use k_chain_vm_common_go.Numbers.{set_bytes, to_u64, sub_u64}
use k_chain_vm_common_go.Errors.{
  Result, ok, invalid_arguments, nft_does_not_have_metadata, invalid_nft_quantity,
}
use k_chain_vm_common_go.Exec.{Exec, pure, gets, lift, reads, fail_if, index, ◌>>=◌, ◌>>◌}
use k_chain_vm_common_go.Vm.{ContractCallInput, VmOutput, DigitalToken}
use k_chain_vm_common_go.Env.{Env, World, dcdt_token_key, value_length_check_flag}
use k_chain_vm_common_go.Logs.{add_dcdt_entry_in_vm_output, new_output}
use k_chain_vm_common_go.Balance.{is_negative}
use k_chain_vm_common_go.Nft.{NftFunction, deref, check_dcdt_nft_create_burn_add_input}

abbrev pub max_len_for_add_nft_quantity : ℕ
max_len_for_add_nft_quantity = 32

module _ {A D : Type 0} (e : Env A D) (f : NftFunction (World A D)) where
  -- (*dcdtNFTBurn).isAllowedToBurn
  unfoldable pub is_allowed_to_burn_nft : Option ℕ → Bytes → World A D → Result (Unit {0})
  is_allowed_to_burn_nft acnt_snd token_id w =
      if f.settings.is_burn_for_all w (dcdt_token_key e.core token_id)
      then ok tt
      else f.roles.check_allowed_to_execute w acnt_snd token_id e.dcdt_role_nft_burn

  -- The quantity of a token changed by a value: the token is saved, and then the liquidity.
  unfoldable pub change_quantity :
      ℕ → ContractCallInput → Bytes → ℕ → DigitalToken → ℤ → Exec (World A D) (Unit {0})
  change_quantity snd vm_input key nonce dcdt_data value = do
    address ← gets (λ w. e.address_bytes (w.accounts snd))
    _ ←
        f.storage.save_dcdt_nft_token address snd key nonce
          (record dcdt_data { value = dcdt_data.value +ℤ value }) false
          vm_input.return_call_after_error
    f.storage.add_to_liquidity_system_acc key nonce value

  -- The steps of (*dcdtNFTBurn).ProcessBuiltinFunction that come before the change: they give the
  -- input, the account, the token, its nonce, the data and the quantity.
  unfoldable pub check_nft_burn :
      Option ℕ
      → Option ContractCallInput
      → Exec (World A D) (ContractCallInput × ℕ × Bytes × ℕ × DigitalToken × ℕ)
  check_nft_burn acnt_snd input = do
    vm_input ← lift (check_dcdt_nft_create_burn_add_input e acnt_snd input f.func_gas_cost)
    fail_if (ltb (length vm_input.arguments) 3) invalid_arguments
    token_id ← index vm_input.arguments 0
    reads (is_allowed_to_burn_nft acnt_snd token_id)
    nonce_bytes ← index vm_input.arguments 1
    let nonce = to_u64 (set_bytes nonce_bytes)
    snd ← deref acnt_snd
    dcdt_data ←
        reads
          (λ w. f.storage.get_dcdt_nft_token_on_sender w snd (dcdt_token_key e.core token_id) nonce)
    fail_if (nonce == 0) nft_does_not_have_metadata
    quantity_bytes ← index vm_input.arguments 2
    let quantity_to_burn = set_bytes quantity_bytes
    fail_if (is_negative (dcdt_data.value -ℤ pos quantity_to_burn)) invalid_nft_quantity
    pure (vm_input, snd, token_id, nonce, dcdt_data, quantity_to_burn)

  -- (*dcdtNFTBurn).ProcessBuiltinFunction
  unfoldable pub process_nft_burn : Option ℕ → Option ContractCallInput → Exec (World A D) VmOutput
  process_nft_burn acnt_snd input = do
    (vm_input, snd, token_id, nonce, dcdt_data, quantity) ← check_nft_burn acnt_snd input
    change_quantity snd vm_input (dcdt_token_key e.core token_id) nonce dcdt_data
        (pos 0 -ℤ pos quantity)
    pure (
        add_dcdt_entry_in_vm_output e.built_in_function_dcdt_nft_burn token_id nonce (pos quantity)
          (vm_input.caller_addr ∷ []) (new_output (sub_u64 vm_input.gas_provided f.func_gas_cost)))

  -- The same for (*dcdtNFTAddQuantity).ProcessBuiltinFunction.
  unfoldable pub check_nft_add_quantity :
      Option ℕ
      → Option ContractCallInput
      → Exec (World A D) (ContractCallInput × ℕ × Bytes × ℕ × DigitalToken × ℕ)
  check_nft_add_quantity acnt_snd input = do
    vm_input ← lift (check_dcdt_nft_create_burn_add_input e acnt_snd input f.func_gas_cost)
    fail_if (ltb (length vm_input.arguments) 3) invalid_arguments
    token_id ← index vm_input.arguments 0
    reads (λ w. f.roles.check_allowed_to_execute w acnt_snd token_id e.dcdt_role_nft_add_quantity)
    nonce_bytes ← index vm_input.arguments 1
    let nonce = to_u64 (set_bytes nonce_bytes)
    snd ← deref acnt_snd
    dcdt_data ←
        reads
          (λ w. f.storage.get_dcdt_nft_token_on_sender w snd (dcdt_token_key e.core token_id) nonce)
    fail_if (nonce == 0) nft_does_not_have_metadata
    quantity_bytes ← index vm_input.arguments 2
    fail_if
        (e.is_flag_enabled value_length_check_flag
          && ltb max_len_for_add_nft_quantity (length quantity_bytes))
        invalid_arguments
    pure (vm_input, snd, token_id, nonce, dcdt_data, set_bytes quantity_bytes)

  -- (*dcdtNFTAddQuantity).ProcessBuiltinFunction
  unfoldable pub process_nft_add_quantity :
      Option ℕ → Option ContractCallInput → Exec (World A D) VmOutput
  process_nft_add_quantity acnt_snd input = do
    (vm_input, snd, token_id, nonce, dcdt_data, quantity) ← check_nft_add_quantity acnt_snd input
    change_quantity snd vm_input (dcdt_token_key e.core token_id) nonce dcdt_data (pos quantity)
    pure (
        add_dcdt_entry_in_vm_output e.built_in_function_dcdt_nft_add_quantity token_id nonce
          (pos quantity) (vm_input.caller_addr ∷ [])
          (new_output (sub_u64 vm_input.gas_provided f.func_gas_cost)))
