-- ===== src/Settings.antt =====
-- builtInFunctions/dcdtGlobalSettings.go: the settings of a token, in two bytes under its key on the
-- system account.
pub mod Toggle
pub mod Paused
use k_chain_vm_common_go.Common.{
  ℕ, Bool, true, false, not, ◌||◌, List, [], ◌∷◌, ◌++◌, Option, none, some, String, Bytes, codes,
  bytes_equal, ◌==◌, if◌then◌else◌, length,
}
use k_chain_vm_common_go.Common.Int.{ℤ, pos}
use k_chain_vm_common_go.Errors.{
  HostError, Error, Result, ok, err, host, nil_vm_input, nil_value,
  built_in_function_called_with_value, invalid_arguments, address_is_not_dcdt_system_sc,
  only_system_account_accepted, wrong_type_assertion, is_get_node_from_db_error, runtime_panic,
}
use k_chain_vm_common_go.Exec.{Exec, pure, raise, gets, lift, reads, fail_if, index, ◌>>=◌, ◌>>◌}
use k_chain_vm_common_go.Vm.{ContractCallInput, VmOutput}
use k_chain_vm_common_go.Env.{
  Core, Env, World, Loaded, failed, user_account, other_account, dcdt_token_key,
}
use k_chain_vm_common_go.Interfaces.{SettingsHandler}
use k_chain_vm_common_go.Address.{is_system_account_address, system_account_address}
use k_chain_vm_common_go.Metadata.{
  GlobalMetadata, global_metadata_from_bytes, global_metadata_to_bytes,
}
use k_chain_vm_common_go.Logs.{new_output}
use k_chain_vm_common_go.Balance.{is_zero}
use k_chain_vm_common_go.Roles.{get_dcdt_roles_for_acnt}

-- The names that isCorrectFunction accepts.
pub data SettingFunction : Type 0 where
  dcdt_pause dcdt_un_pause : SettingFunction
  dcdt_set_limited_transfer dcdt_un_set_limited_transfer : SettingFunction
  dcdt_set_burn_role_for_all dcdt_un_set_burn_role_for_all : SettingFunction

-- transferAddressesKeyPrefix
unfoldable pub transfer_addresses_key_prefix : Core → Bytes
transfer_addresses_key_prefix c =
    c.protected_key_prefix ++ (codes "transfer" ++ c.dcdt_key_identifier)

-- The switch of toggleSetting.
unfoldable pub toggled : SettingFunction → Bool → GlobalMetadata → GlobalMetadata
toggled dcdt_pause set m = record m { paused = set }
toggled dcdt_un_pause set m = record m { paused = set }
toggled dcdt_set_limited_transfer set m = record m { limited_transfer = set }
toggled dcdt_un_set_limited_transfer set m = record m { limited_transfer = set }
toggled dcdt_set_burn_role_for_all set m = record m { burn_role_for_all = set }
toggled dcdt_un_set_burn_role_for_all set m = record m { burn_role_for_all = set }

abbrev pub mem_address : Bytes → Bytes → List Bytes → Bool
mem_address sender destination [] = false
mem_address sender destination (address ∷ addresses) =
    if bytes_equal address sender || bytes_equal address destination
    then true
    else mem_address sender destination addresses

module _ {A D : Type 0} (e : Env A D) where
  -- getSystemAccount
  unfoldable pub get_system_account : World A D → Result A
  get_system_account w = elim (e.load_account w.db system_account_address) [
    | failed x ↦ err (host x)
    | user_account a ↦ ok a
    | other_account ↦ err wrong_type_assertion
  ]

  -- What is read of the system account: only a missing node is an error.
  abbrev pub metadata_of : Bytes × Option HostError → Result GlobalMetadata
  metadata_of (val, some x) =
      if is_get_node_from_db_error (some x)
      then err (host x)
      else ok (global_metadata_from_bytes val)
  metadata_of (val, none) = ok (global_metadata_from_bytes val)

  -- getGlobalMetadata
  unfoldable pub get_global_metadata : World A D → Bytes → Result GlobalMetadata
  unfolding get_system_account
  get_global_metadata w key = elim (get_system_account w) [
    | ok a ↦ metadata_of (e.retrieve_value a key)
    | err x ↦ err x
  ]

  -- IsPaused
  unfoldable pub is_paused : World A D → Bytes → Bool
  is_paused w key = elim (get_global_metadata w key) [ ok m ↦ m.paused | err x ↦ false ]

  -- IsLimitedTransfer
  unfoldable pub is_limited_transfer : World A D → Bytes → Bool
  is_limited_transfer w key = elim (get_global_metadata w key) [
    | ok m ↦ m.limited_transfer
    | err x ↦ false
  ]

  -- IsBurnForAll
  unfoldable pub is_burn_for_all : World A D → Bytes → Bool
  is_burn_for_all w key = elim (get_global_metadata w key) [
    | ok m ↦ m.burn_role_for_all
    | err x ↦ false
  ]

  -- IsSenderOrDestinationWithTransferRole; `active` is the answer of activeHandler.
  unfoldable pub is_sender_or_destination_with_transfer_role :
      Bool → World A D → Bytes → Bytes → Bytes → Bool
  is_sender_or_destination_with_transfer_role active w sender destination token_id =
      if not active then false else elim (get_system_account w) [
        | err x ↦ false
        | ok a ↦
            elim (get_dcdt_roles_for_acnt e a (transfer_addresses_key_prefix e.core ++ token_id)) [
              | err x ↦ false
              | ok r ↦ mem_address sender destination r.0
            ]
      ]

  -- dcdtGlobalSettings as the settings handler of the other functions.
  unfoldable pub settings_handler : Bool → SettingsHandler (World A D)
  settings_handler active = record {
    is_paused = is_paused;
    is_limited_transfer = is_limited_transfer;
    is_burn_for_all = is_burn_for_all;
    is_sender_or_destination_with_transfer_role =
        is_sender_or_destination_with_transfer_role active;
  }

  -- SaveKeyValue on the loaded system account, and SaveAccount of it. The loaded object is known to
  -- no one else, so that a failed SaveKeyValue leaves the world alone.
  abbrev pub save_system_account : A → Bytes → Bytes → Exec (World A D) (Unit {0})
  save_system_account a key v w =
      let (failure, a') = e.save_key_value a key v in
      elim failure [
        | some x ↦ (err (host x), w)
        | none ↦
            (let (refused, d) = e.save_account w.db a' in
              (elim refused [ none ↦ ok tt | some x ↦ err (host x) ], record w { db = d }))
      ]

  -- toggleSetting
  unfoldable pub toggle_setting : SettingFunction → Bool → Bytes → Exec (World A D) (Unit {0})
  toggle_setting function set key = do
    system_sc_account ← reads get_system_account
    dcdt_meta_data ← reads (λ w. get_global_metadata w key)
    save_system_account system_sc_account key
        (global_metadata_to_bytes (toggled function set dcdt_meta_data))

  -- The checks of (*dcdtGlobalSettings).ProcessBuiltinFunction; they give the token. A nil call value
  -- panics.
  abbrev pub check_global_settings : Option ContractCallInput → Result Bytes
  check_global_settings none = err nil_vm_input
  check_global_settings (some vm_input) = elim vm_input.call_value [
    | none ↦ err runtime_panic
    | some call_value ↦
        if not (is_zero call_value)
        then err built_in_function_called_with_value
        else elim vm_input.arguments [
          | [] ↦ err invalid_arguments
          | token_id ∷ more ↦
              if not (length more == 0)
              then err invalid_arguments
              else if not (bytes_equal vm_input.caller_addr e.dcdt_sc_address)
              then err address_is_not_dcdt_system_sc
              else if not (is_system_account_address vm_input.recipient_addr)
              then err only_system_account_accepted
              else ok token_id
        ]
  ]

  -- (*dcdtGlobalSettings).ProcessBuiltinFunction
  unfoldable pub process_global_settings :
      SettingFunction → Bool → Option ContractCallInput → Exec (World A D) VmOutput
  process_global_settings function set input = do
    token_id ← lift (check_global_settings input)
    toggle_setting function set (dcdt_token_key e.core token_id)
    pure (new_output 0)
