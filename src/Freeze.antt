-- ===== src/Freeze.antt =====
-- builtInFunctions/dcdtFreezeWipe.go: freezing, unfreezing and wiping the balance of an account.
pub mod Effect
pub mod Wipe
use k_chain_vm_common_go.Common.{
  ℕ, Bool, true, false, not, List, [], ◌∷◌, Option, none, some, Bytes, bytes_equal, ◌==◌,
  if◌then◌else◌, length,
}
use k_chain_vm_common_go.Common.Int.{ℤ, pos, ◌-ℤ◌}
use k_chain_vm_common_go.Errors.{
  Error, Result, ok, err, nil_vm_input, built_in_function_called_with_value, invalid_arguments,
  address_is_not_dcdt_system_sc, nil_user_account, cannot_wipe_account_not_frozen, runtime_panic,
}
use k_chain_vm_common_go.Exec.{Exec, pure, raise, gets, lift, reads, fail_if, ◌>>=◌, ◌>>◌}
use k_chain_vm_common_go.Vm.{ContractCallInput, VmOutput, DigitalToken}
use k_chain_vm_common_go.Env.{
  Core, Env, World, dcdt_token_key, Flag, wipe_single_nft_liquidity_decrease_flag,
}
use k_chain_vm_common_go.Interfaces.{StorageHandler}
use k_chain_vm_common_go.Metadata.{UserMetadata, user_metadata_from_bytes, user_metadata_to_bytes}
use k_chain_vm_common_go.Logs.{
  extract_token_identifier_and_nonce_dcdt_wipe, add_dcdt_entry_in_vm_output, new_output,
}
use k_chain_vm_common_go.Balance.{is_zero, save_at, get_dcdt_data_from_key, save_dcdt_data}

-- dcdtFreezeWipe
pub record FreezeWipeFunction (W : Type 0) : Type 0 where
  pub dcdt_storage_handler : StorageHandler W
  pub wipe : Bool
  pub freeze : Bool

module _ {A D : Type 0} (e : Env A D) (f : FreezeWipeFunction (World A D)) where
  -- The checks of (*dcdtFreezeWipe).ProcessBuiltinFunction; they give the input, its argument and
  -- the account. A nil call value panics.
  abbrev pub check_freeze_wipe :
      Option ℕ → Option ContractCallInput → Result (ContractCallInput × Bytes × ℕ)
  check_freeze_wipe acnt_dst none = err nil_vm_input
  check_freeze_wipe acnt_dst (some vm_input) = elim vm_input.call_value [
    | none ↦ err runtime_panic
    | some call_value ↦
        if not (is_zero call_value)
        then err built_in_function_called_with_value
        else elim vm_input.arguments [
          | [] ↦ err invalid_arguments
          | token_id ∷ more ↦
              if not (length more == 0)
              then err invalid_arguments
              else if not (bytes_equal vm_input.caller_addr e.dcdt_sc_address)
              then err address_is_not_dcdt_system_sc
              else elim acnt_dst [
                | none ↦ err nil_user_account
                | some dst ↦ ok (vm_input, token_id, dst)
              ]
        ]
  ]

  -- removeLiquidity
  unfoldable pub remove_liquidity : Bytes → ℕ → ℤ → Exec (World A D) (Unit {0})
  remove_liquidity token_identifier nonce value =
      if not (e.is_flag_enabled wipe_single_nft_liquidity_decrease_flag)
      then pure tt
      else f.dcdt_storage_handler.add_to_liquidity_system_acc
          (dcdt_token_key e.core token_identifier) nonce (pos 0 -ℤ value)

  -- wipeIfApplicable
  unfoldable pub wipe_if_applicable : ℕ → Bytes → Bytes → ℕ → Exec (World A D) ℤ
  unfolding remove_liquidity
  wipe_if_applicable dst token_key identifier nonce = do
    token_data ← reads (λ w. get_dcdt_data_from_key e (w.accounts dst) token_key)
    fail_if (not (user_metadata_from_bytes token_data.properties).frozen)
        cannot_wipe_account_not_frozen
    save_at e dst token_key []
    remove_liquidity identifier nonce token_data.value
    pure token_data.value

  -- toggleFreeze
  unfoldable pub toggle_freeze : ℕ → Bytes → Exec (World A D) ℤ
  toggle_freeze dst token_key = do
    token_data ← reads (λ w. get_dcdt_data_from_key e (w.accounts dst) token_key)
    let dcdt_user_metadata : UserMetadata =
        record (user_metadata_from_bytes token_data.properties) { frozen = f.freeze }
    save_dcdt_data e dst
        (record token_data { properties = user_metadata_to_bytes dcdt_user_metadata }) token_key
    pure token_data.value

  -- (*dcdtFreezeWipe).ProcessBuiltinFunction
  unfoldable pub process_freeze_wipe :
      Option ℕ → Option ContractCallInput → Exec (World A D) VmOutput
  unfolding toggle_freeze wipe_if_applicable
  process_freeze_wipe acnt_dst input = do
    (vm_input, argument, dst) ← lift (check_freeze_wipe acnt_dst input)
    let token_key = dcdt_token_key e.core argument
    let (identifier, nonce) = extract_token_identifier_and_nonce_dcdt_wipe argument
    amount ←
        (if f.wipe
          then wipe_if_applicable dst token_key identifier nonce
          else toggle_freeze dst token_key)
    dst_address ← gets (λ w. e.address_bytes (w.accounts dst))
    pure (
        add_dcdt_entry_in_vm_output vm_input.function identifier nonce amount
          (vm_input.caller_addr ∷ dst_address ∷ []) (new_output 0))
