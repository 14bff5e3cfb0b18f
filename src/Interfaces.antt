-- ===== src/Interfaces.antt =====
-- interface.go: the interfaces between the built-in functions, as records of operations on the
-- world. SettingsHandler is ExtendedDCDTGlobalSettingsHandler, filled by Settings.settings_handler;
-- RoleHandler is DCDTRoleHandler, filled by Roles.role_handler; PayableChecker is filled by
-- Payable.payable_check.
use k_chain_vm_common_go.Common.{ℕ, Bool, Option, Bytes}
use k_chain_vm_common_go.Common.Int.{ℤ}
use k_chain_vm_common_go.Errors.{Result}
use k_chain_vm_common_go.Exec.{Exec}
use k_chain_vm_common_go.Vm.{ContractCallInput, DigitalToken}

pub record SettingsHandler (W : Type 0) : Type 0 where
  pub is_paused : W → Bytes → Bool
  pub is_limited_transfer : W → Bytes → Bool
  pub is_burn_for_all : W → Bytes → Bool
  pub is_sender_or_destination_with_transfer_role : W → Bytes → Bytes → Bytes → Bool

-- An account is a reference, `none` for nil.
pub record RoleHandler (W : Type 0) : Type 0 where
  pub check_allowed_to_execute : W → Option ℕ → Bytes → Bytes → Result (Unit {0})

pub record PayableChecker (W : Type 0) : Type 0 where
  pub check_payable : W → ContractCallInput → Bytes → ℕ → Result (Unit {0})
  pub determine_is_sc_call_after : W → ContractCallInput → Bytes → ℕ → Result Bool

-- DCDTNFTStorageHandler, with the operations that the modelled functions use; an account is a
-- reference. Filled by TokenStorage.Handler.storage_handler.
pub record StorageHandler (W : Type 0) : Type 0 where
  pub save_dcdt_nft_token : Bytes → ℕ → Bytes → ℕ → DigitalToken → Bool → Bool → Exec W Bytes
  pub get_dcdt_nft_token_on_sender : W → ℕ → Bytes → ℕ → Result DigitalToken
  pub get_dcdt_nft_token_on_destination : W → ℕ → Bytes → ℕ → Result (DigitalToken × Bool)
  pub was_already_sent : Bytes → ℕ → Bytes → Exec W Bool
  pub add_to_liquidity_system_acc : Bytes → ℕ → ℤ → Exec W (Unit {0})
