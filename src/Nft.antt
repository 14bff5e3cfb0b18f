-- ===== src/Nft.antt =====
-- What the functions on non-fungible tokens share: dcdtNFTCreate.go, dcdtNFTBurn.go,
-- dcdtNFTAddQuantity.go, dcdtNFTAddUri.go and updateNFTAttributes.go of builtInFunctions.
pub mod Quantity
pub mod Data
pub mod Create
pub mod Steps
pub mod Effect
pub mod Change
pub mod CreationSteps
pub mod Creation
pub mod Transfer
pub mod Sending
use k_chain_vm_common_go.Common.{
  ℕ, Bool, true, false, not, List, [], ◌∷◌, Option, none, some, Bytes, bytes_equal, ltb, ◌&&◌,
  if◌then◌else◌,
}
use k_chain_vm_common_go.Errors.{
  Error, Result, ok, err, invalid_rcv_addr, nil_user_account, not_enough_gas, runtime_panic,
}
use k_chain_vm_common_go.Exec.{Exec, pure, raise}
use k_chain_vm_common_go.Vm.{ContractCallInput, is_exec_on_dest_by_caller}
use k_chain_vm_common_go.Env.{Env, World}
use k_chain_vm_common_go.Interfaces.{SettingsHandler, RoleHandler, StorageHandler}
use k_chain_vm_common_go.Local.{check_basic_dcdt_arguments}
use k_chain_vm_common_go.KeyValue.{BaseOperationCost}

-- What such a function holds: its gas costs and the handlers that it calls.
pub record NftFunction (W : Type 0) : Type 0 where
  pub func_gas_cost : ℕ
  pub gas_config : BaseOperationCost
  pub settings : SettingsHandler W
  pub roles : RoleHandler W
  pub storage : StorageHandler W

abbrev pub is_none : {A : Type 0} → Option A → Bool
is_none none = true
is_none (some a) = false

-- A use of an account that may be nil.
abbrev pub deref : {W : Type 0} → Option ℕ → Exec W ℕ
deref none = raise runtime_panic
deref (some p) = pure p

module _ {A D : Type 0} (e : Env A D) where
  -- checkDCDTNFTCreateBurnAddInput; it gives the input that it has found not to be nil.
  unfoldable pub check_dcdt_nft_create_burn_add_input :
      Option ℕ → Option ContractCallInput → ℕ → Result ContractCallInput
  check_dcdt_nft_create_burn_add_input account input func_gas_cost =
      elim (check_basic_dcdt_arguments e input) [
        | err x ↦ err x
        | ok vm_input ↦
            if not (bytes_equal vm_input.caller_addr vm_input.recipient_addr)
            then err invalid_rcv_addr
            else if is_none account && not (is_exec_on_dest_by_caller vm_input.call_type)
            then err nil_user_account
            else if ltb vm_input.gas_provided func_gas_cost
            then err not_enough_gas
            else ok vm_input
      ]
