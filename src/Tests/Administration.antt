-- ===== src/Tests/Administration.antt =====
-- Roles and settings at concrete inputs.
use k_chain_vm_common_go.Common.{
  ◌+◌, ◌≡◌, ◌≢◌, ◌<◌, ◌↔◌, refl, true, false, List, [], ◌∷◌, some, Bytes, codes, replicate,
}
use k_chain_vm_common_go.Errors.{ok}
use k_chain_vm_common_go.Vm.{ContractCallInput, VmOutput}
use k_chain_vm_common_go.Env.{World, dcdt_token_key}
use k_chain_vm_common_go.Logs.{new_output}
use k_chain_vm_common_go.Address.{is_system_account_address}
use k_chain_vm_common_go.Metadata.{GlobalMetadata}
use k_chain_vm_common_go.Roles.{check_allowed_to_execute, process_roles}
use k_chain_vm_common_go.Roles.Deletion.{count_role}
use k_chain_vm_common_go.Roles.Effect.{roles_at, set_roles_allows, unset_roles_allows}
use k_chain_vm_common_go.Settings.{dcdt_pause, get_global_metadata, process_global_settings}
use k_chain_vm_common_go.Settings.Toggle.{Toggles, process_global_settings_effect}
use k_chain_vm_common_go.Tests.Bank.{
  Account, Db, bank, bank-IsStore, bank-IsMarshaller, bank-IsAdapter,
}
use k_chain_vm_common_go.Tests.Town.{token, town, output_of, from_system}
use k_chain_vm_common_go.Tests.Runs.{runs}

abbrev burners : List Bytes
burners = codes "burn" ∷ []

abbrev revoke : ContractCallInput
revoke = from_system (codes "bob") (token ∷ burners)

-- Account 1 once more, with no role.
abbrev bare_town : World Account Db
bare_town = (process_roles bank false (some 1) (some revoke) town).1

abbrev revoked : VmOutput
revoked = output_of (process_roles bank false (some 1) (some revoke) town).0 (new_output 0)

revoked_ok : (process_roles bank false (some 1) (some revoke) town).0 ≡ ok revoked
unfolding runs
revoked_ok = refl

unset_roles_allows_example :
    (revoke.caller_addr ≡ bank.dcdt_sc_address)
    × ((roles : List Bytes) × (roles_at bank town 1 token ≡ ok roles)
        × ((action : Bytes)
            → (check_allowed_to_execute bank bare_town (some 1) token action ≡ ok tt)
              ↔ (count_role action burners < count_role action roles)))
unset_roles_allows_example =
    unset_roles_allows bank bank-IsStore bank-IsMarshaller 1 revoke token burners town revoked refl
      revoked_ok

abbrev granted : VmOutput
granted = output_of (process_roles bank true (some 1) (some revoke) bare_town).0 (new_output 0)

granted_ok : (process_roles bank true (some 1) (some revoke) bare_town).0 ≡ ok granted
unfolding runs
granted_ok = refl

set_roles_allows_example :
    (revoke.caller_addr ≡ bank.dcdt_sc_address)
    × ((roles : List Bytes) × (roles_at bank bare_town 1 token ≡ ok roles)
        × ((action : Bytes)
            → (check_allowed_to_execute bank
                  (process_roles bank true (some 1) (some revoke) bare_town).1
                  (some 1)
                  token
                  action
                ≡ ok tt)
              ↔ (0 < count_role action roles + count_role action burners)))
set_roles_allows_example =
    set_roles_allows bank bank-IsStore bank-IsMarshaller 1 revoke token burners bare_town granted
      refl granted_ok

abbrev pub pause : ContractCallInput
pause = from_system (replicate 32 255) (token ∷ [])

abbrev pub paused_output : VmOutput
paused_output =
    output_of (process_global_settings bank dcdt_pause true (some pause) town).0 (new_output 0)

pub paused_ok :
    (process_global_settings bank dcdt_pause true (some pause) town).0 ≡ ok paused_output
unfolding runs
paused_ok = refl

process_global_settings_effect_example :
    let w' = (process_global_settings bank dcdt_pause true (some pause) town).1 in
    let key = dcdt_token_key bank.core token in
    (pause.caller_addr ≡ bank.dcdt_sc_address)
    × (is_system_account_address pause.recipient_addr ≡ true)
    × ((before : GlobalMetadata) × (after : GlobalMetadata) × (get_global_metadata bank town key
          ≡ ok before)
        × (get_global_metadata bank w' key ≡ ok after)
        × Toggles dcdt_pause true before after)
    × ((j : Bytes) → j ≢ key → get_global_metadata bank w' j ≡ get_global_metadata bank town j)
    × (w'.accounts ≡ town.accounts)
process_global_settings_effect_example =
    process_global_settings_effect bank bank-IsStore bank-IsAdapter dcdt_pause true pause token town
      paused_output refl paused_ok
