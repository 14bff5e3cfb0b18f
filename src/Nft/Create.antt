-- ===== src/Nft/Create.antt =====
-- builtInFunctions/dcdtNFTCreate.go.
use k_chain_vm_common_go.Common.{
  ℕ, ◌+◌, ◌-◌, ◌%◌, ◌^◌, ◌==◌, true, not, ◌&&◌, List, [], ◌∷◌, Option, none, some, Bytes,
  bytes_equal, ltb, if◌then◌else◌, length, take, drop,
}
use k_chain_vm_common_go.Common.Int.{pos}
use k_chain_vm_common_go.Numbers.{u64_mod, set_bytes, to_u64, nat_bytes, sub_u64}
use k_chain_vm_common_go.Errors.{
  HostError, Result, ok, err, host, invalid_arguments, invalid_rcv_addr, not_enough_gas,
  invalid_address_length, wrong_type_assertion,
}
use k_chain_vm_common_go.Exec.{Exec, pure, gets, lift, reads, fail_if, index, ◌>>=◌, ◌>>◌}
use k_chain_vm_common_go.Vm.{ContractCallInput, VmOutput, DigitalToken, is_exec_on_dest_by_caller}
use k_chain_vm_common_go.Env.{
  Env, World, failed, user_account, other_account, set_account, dcdt_token_key,
  value_length_check_flag,
}
use k_chain_vm_common_go.Logs.{add_dcdt_entry_in_vm_output, new_output}
use k_chain_vm_common_go.Roles.{get_nonce_key, save_latest_nonce}
use k_chain_vm_common_go.KeyValue.{charge}
use k_chain_vm_common_go.Nft.{NftFunction, deref, check_dcdt_nft_create_burn_add_input}
use k_chain_vm_common_go.Nft.Quantity.{max_len_for_add_nft_quantity}
use k_chain_vm_common_go.Nft.Data.{total_length}

module _ {A D : Type 0} (e : Env A D) where
  -- getAccount
  unfoldable pub get_account : Bytes → World A D → Result A
  get_account address w = elim (e.load_account w.db address) [
    | failed x ↦ err (host x)
    | user_account a ↦ ok a
    | other_account ↦ err wrong_type_assertion
  ]

  abbrev pub nonce_of : Bytes × Option HostError → Result ℕ
  nonce_of (b, some x) = err (host x)
  nonce_of (b, none) = ok (if length b == 0 then 0 else to_u64 (set_bytes b))

  -- getLatestNonce
  unfoldable pub get_latest_nonce : ℕ → Bytes → World A D → Result ℕ
  get_latest_nonce acnt token_id w =
      nonce_of (e.retrieve_value (w.accounts acnt) (get_nonce_key e.core token_id))

  -- e.accounts.SaveAccount of the account behind a reference.
  abbrev pub persist : ℕ → Exec (World A D) (Unit {0})
  persist p w =
      let (refused, d) = e.save_account w.db (w.accounts p) in
      (elim refused [ none ↦ ok tt | some x ↦ err (host x) ], record w { db = d })

  -- The bytes of the token in the log; a failure to marshal leaves none.
  abbrev pub log_bytes : Result Bytes → Bytes
  log_bytes (ok b) = b
  log_bytes (err x) = []

  module _ (f : NftFunction (World A D)) where
    -- The account with the roles, and the URIs. A contract may create with the roles of another
    -- account, named last: that account is loaded, and stands behind the reference `fresh`, which no
    -- one else holds.
    unfoldable pub account_with_roles :
        ℕ → Option ℕ → ContractCallInput → Exec (World A D) (ℕ × List Bytes)
    account_with_roles fresh acnt_snd vm_input =
        if not (is_exec_on_dest_by_caller vm_input.call_type)
        then (deref acnt_snd >>= λ snd. pure (snd, drop 6 vm_input.arguments))
        else (do
          let len_args = length vm_input.arguments
          sc_address_with_roles ← index vm_input.arguments (len_args - 1)
          fail_if (not (length sc_address_with_roles == length vm_input.caller_addr))
              invalid_address_length
          fail_if (bytes_equal sc_address_with_roles vm_input.caller_addr) invalid_rcv_addr
          account ← reads (get_account sc_address_with_roles)
          (λ w. (ok tt, set_account fresh account w))
          pure (fresh, take (len_args - 1 - 6) (drop 6 vm_input.arguments)))

    -- The role for a quantity above one.
    abbrev pub check_quantity_role : ℕ → Bytes → ℕ → World A D → Result (Unit {0})
    check_quantity_role acnt token_id quantity w =
        if ltb 1 quantity
        then f.roles.check_allowed_to_execute w (some acnt) token_id e.dcdt_role_nft_add_quantity
        else ok tt

    -- The new token: SaveDCDTNFTToken, the liquidity, the nonce, and the account if it was loaded.
    unfoldable pub save_created :
        ContractCallInput → ℕ → Bytes → ℕ → DigitalToken → Exec (World A D) (Unit {0})
    save_created vm_input acnt token_id next_nonce dcdt_data = do
      let key = dcdt_token_key e.core token_id
      address ← gets (λ w. e.address_bytes (w.accounts acnt))
      _ ←
          f.storage.save_dcdt_nft_token address acnt key next_nonce dcdt_data true
            vm_input.return_call_after_error
      f.storage.add_to_liquidity_system_acc key next_nonce dcdt_data.value
      save_latest_nonce e acnt token_id next_nonce
      (if is_exec_on_dest_by_caller vm_input.call_type then persist acnt else pure tt)

    -- The checks between the account and the new token; they give the gas and the royalties.
    unfoldable pub check_nft_create : ContractCallInput → ℕ → Bytes → ℕ → Exec (World A D) (ℕ × ℕ)
    check_nft_create vm_input acnt token_id quantity = do
      let gas_to_use =
          charge f.func_gas_cost (total_length vm_input.arguments) f.gas_config.store_per_byte
      fail_if (ltb vm_input.gas_provided gas_to_use) not_enough_gas
      royalty_bytes ← index vm_input.arguments 3
      let royalties = to_u64 (set_bytes royalty_bytes) % 2 ^ 32
      fail_if (ltb e.max_royalty royalties) invalid_arguments
      fail_if (quantity == 0) invalid_arguments
      reads (check_quantity_role acnt token_id quantity)
      quantity_bytes ← index vm_input.arguments 1
      fail_if
          (e.is_flag_enabled value_length_check_flag
            && ltb max_len_for_add_nft_quantity (length quantity_bytes))
          invalid_arguments
      pure (gas_to_use, royalties)

    -- (*dcdtNFTCreate).ProcessBuiltinFunction
    unfoldable pub process_nft_create :
        ℕ → Option ℕ → Option ContractCallInput → Exec (World A D) VmOutput
    process_nft_create fresh acnt_snd input = do
      vm_input ← lift (check_dcdt_nft_create_burn_add_input e acnt_snd input f.func_gas_cost)
      fail_if
          (ltb (length vm_input.arguments)
            (if is_exec_on_dest_by_caller vm_input.call_type then 8 else 7))
          invalid_arguments
      (acnt, uris) ← account_with_roles fresh acnt_snd vm_input
      token_id ← index vm_input.arguments 0
      reads (λ w. f.roles.check_allowed_to_execute w (some acnt) token_id e.dcdt_role_nft_create)
      nonce ← reads (get_latest_nonce acnt token_id)
      quantity_bytes ← index vm_input.arguments 1
      let quantity = set_bytes quantity_bytes
      (gas_to_use, royalties) ← check_nft_create vm_input acnt token_id quantity
      let next_nonce = (nonce + 1) % u64_mod
      name ← index vm_input.arguments 2
      hash ← index vm_input.arguments 4
      attributes ← index vm_input.arguments 5
      let dcdt_data : DigitalToken = record {
        token_type = e.non_fungible;
        value = pos quantity;
        properties = [];
        token_meta_data = some (record {
          nonce = next_nonce;
          name = name;
          creator = vm_input.caller_addr;
          royalties = royalties;
          hash = hash;
          uris = uris;
          attributes = attributes;
        });
        reserved = [];
      }
      save_created vm_input acnt token_id next_nonce dcdt_data
      let output = new_output (sub_u64 vm_input.gas_provided gas_to_use)
      pure (
          add_dcdt_entry_in_vm_output e.built_in_function_dcdt_nft_create token_id next_nonce
            (pos quantity) (vm_input.caller_addr ∷ log_bytes (e.marshal_token dcdt_data) ∷ [])
            (record output { return_data = nat_bytes next_nonce ∷ [] }))
