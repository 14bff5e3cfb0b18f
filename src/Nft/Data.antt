-- ===== src/Nft/Data.antt =====
-- builtInFunctions/dcdtNFTAddUri.go and updateNFTAttributes.go.
use k_chain_vm_common_go.Common.{
  ℕ, ◌+◌, ◌*◌, ◌%◌, ◌==◌, true, not, List, [], ◌∷◌, ◌++◌, Option, none, some, Bytes, ltb, length,
  drop,
}
use k_chain_vm_common_go.Common.Int.{pos}
use k_chain_vm_common_go.Numbers.{u64_mod, set_bytes, to_u64, sub_u64}
use k_chain_vm_common_go.Errors.{
  Result, ok, err, invalid_arguments, nft_does_not_have_metadata, not_enough_gas, runtime_panic,
}
use k_chain_vm_common_go.Exec.{Exec, pure, gets, lift, reads, fail_if, index, ◌>>=◌, ◌>>◌}
use k_chain_vm_common_go.Vm.{ContractCallInput, VmOutput, DigitalToken, MetaData}
use k_chain_vm_common_go.Env.{Env, World, dcdt_token_key}
use k_chain_vm_common_go.Logs.{add_dcdt_entry_in_vm_output, new_output}
use k_chain_vm_common_go.Nft.{NftFunction, deref, check_dcdt_nft_create_burn_add_input}

abbrev pub total_length : List Bytes → ℕ
total_length [] = 0
total_length (b ∷ bs) = length b + total_length bs

-- The metadata of a token, changed; none panics.
abbrev pub change_meta_data : (MetaData → MetaData) → DigitalToken → Result DigitalToken
change_meta_data change dcdt_data = elim dcdt_data.token_meta_data [
  | none ↦ err runtime_panic
  | some m ↦ ok (record dcdt_data { token_meta_data = some (change m) })
]

module _ {A D : Type 0} (e : Env A D) (f : NftFunction (World A D)) where
  -- getGasCostForURIStore
  unfoldable pub get_gas_cost_for_uri_store : ContractCallInput → ℕ
  get_gas_cost_for_uri_store vm_input =
      total_length (drop 2 vm_input.arguments) * f.gas_config.store_per_byte % u64_mod

  -- What both functions do after their first checks: the gas, the nonce, the token with its metadata
  -- changed, saved with all fields. It gives the gas that remains and the nonce.
  unfoldable pub save_changed_meta_data :
      Option ℕ → ContractCallInput → Bytes → ℕ → (MetaData → MetaData) → Exec (World A D) (ℕ × ℕ)
  save_changed_meta_data acnt_snd vm_input token_id gas_cost_for_store change = do
    fail_if (ltb vm_input.gas_provided ((f.func_gas_cost + gas_cost_for_store) % u64_mod))
        not_enough_gas
    let key = dcdt_token_key e.core token_id
    nonce_bytes ← index vm_input.arguments 1
    let nonce = to_u64 (set_bytes nonce_bytes)
    fail_if (nonce == 0) nft_does_not_have_metadata
    snd ← deref acnt_snd
    dcdt_data ← reads (λ w. f.storage.get_dcdt_nft_token_on_sender w snd key nonce)
    changed ← lift (change_meta_data change dcdt_data)
    address ← gets (λ w. e.address_bytes (w.accounts snd))
    _ ←
        f.storage.save_dcdt_nft_token address snd key nonce changed true
          vm_input.return_call_after_error
    pure (sub_u64 (sub_u64 vm_input.gas_provided f.func_gas_cost) gas_cost_for_store, nonce)

  -- (*dcdtNFTAddUri).ProcessBuiltinFunction
  unfoldable pub process_nft_add_uri :
      Option ℕ → Option ContractCallInput → Exec (World A D) VmOutput
  process_nft_add_uri acnt_snd input = do
    vm_input ← lift (check_dcdt_nft_create_burn_add_input e acnt_snd input f.func_gas_cost)
    fail_if (ltb (length vm_input.arguments) 3) invalid_arguments
    token_id ← index vm_input.arguments 0
    reads (λ w. f.roles.check_allowed_to_execute w acnt_snd token_id e.dcdt_role_nft_add_uri)
    let uris = drop 2 vm_input.arguments
    (gas, nonce) ←
        save_changed_meta_data acnt_snd vm_input token_id (get_gas_cost_for_uri_store vm_input)
          (λ m. record m { uris = m.uris ++ uris })
    pure (
        add_dcdt_entry_in_vm_output e.built_in_function_dcdt_nft_add_uri token_id nonce (pos 0)
          (vm_input.caller_addr ∷ uris) (new_output gas))

  -- (*dcdtNFTupdate).ProcessBuiltinFunction
  unfoldable pub process_nft_update_attributes :
      Option ℕ → Option ContractCallInput → Exec (World A D) VmOutput
  process_nft_update_attributes acnt_snd input = do
    vm_input ← lift (check_dcdt_nft_create_burn_add_input e acnt_snd input f.func_gas_cost)
    fail_if (not (length vm_input.arguments == 3)) invalid_arguments
    token_id ← index vm_input.arguments 0
    reads (λ w.
        f.roles.check_allowed_to_execute w acnt_snd token_id e.dcdt_role_nft_update_attributes)
    new_attributes ← index vm_input.arguments 2
    (gas, nonce) ←
        save_changed_meta_data acnt_snd vm_input token_id
          (length new_attributes * f.gas_config.store_per_byte % u64_mod)
          (λ m. record m { attributes = new_attributes })
    pure (
        add_dcdt_entry_in_vm_output e.built_in_function_dcdt_nft_update_attributes token_id nonce
          (pos 0) (vm_input.caller_addr ∷ new_attributes ∷ []) (new_output gas))
