-- ===== src/Tests/Freezing.antt =====
-- Frozen, paused and wiped tokens at concrete inputs.
use k_chain_vm_common_go.Common.{
  ℕ, ◌≡◌, ◌≢◌, ◌⊎◌, refl, sym, ◌∙◌, true, false, [], ◌∷◌, none, some, Bytes, codes,
}
use k_chain_vm_common_go.Common.Int.{pos, negsuc}
use k_chain_vm_common_go.Errors.{ok, err, dcdt_is_frozen_for_account, dcdt_token_is_paused}
use k_chain_vm_common_go.Vm.{ContractCallInput, VmOutput, DigitalToken}
use k_chain_vm_common_go.Env.{World, dcdt_token_key}
use k_chain_vm_common_go.Logs.{new_output}
use k_chain_vm_common_go.Balance.{new_token, add_to_dcdt_balance}
use k_chain_vm_common_go.Balance.Storage.{token_at}
use k_chain_vm_common_go.Freeze.{FreezeWipeFunction, process_freeze_wipe}
use k_chain_vm_common_go.Freeze.Effect.{is_frozen, freeze_effect, frozen_account_refuses}
use k_chain_vm_common_go.Freeze.Wipe.{wipe_effect}
use k_chain_vm_common_go.Settings.{dcdt_pause, settings_handler, process_global_settings}
use k_chain_vm_common_go.Settings.Paused.{paused_token_refuses}
use k_chain_vm_common_go.TokenStorage.Handler.{storage_handler}
use k_chain_vm_common_go.TokenStorage.Contract.{IsTokenStorage}
use k_chain_vm_common_go.TokenStorage.Holding.{storage_handler-IsTokenStorage}
use k_chain_vm_common_go.Tests.Bank.{
  Account, Db, bank, bank-IsStore, bank-IsMarshaller, bank-IsAdapter,
}
use k_chain_vm_common_go.Tests.Town.{token, town, output_of, from_system}
use k_chain_vm_common_go.Tests.Administration.{pause, paused_output, paused_ok}
use k_chain_vm_common_go.Tests.Runs.{runs}

abbrev key : Bytes
key = dcdt_token_key bank.core token

abbrev freezer : FreezeWipeFunction (World Account Db)
freezer = record {
  dcdt_storage_handler = storage_handler bank (settings_handler bank true);
  wipe = false;
  freeze = true;
}

abbrev freezer_storage : IsTokenStorage bank freezer.dcdt_storage_handler
freezer_storage =
    storage_handler-IsTokenStorage bank bank-IsStore bank-IsMarshaller (settings_handler bank true)

abbrev wiper : FreezeWipeFunction (World Account Db)
wiper = record freezer { wipe = true }

abbrev at_bob : ContractCallInput
at_bob = from_system (codes "bob") (token ∷ [])

abbrev icy_town : World Account Db
icy_town = (process_freeze_wipe bank freezer (some 1) (some at_bob) town).1

abbrev frozen_output : VmOutput
frozen_output =
    output_of (process_freeze_wipe bank freezer (some 1) (some at_bob) town).0 (new_output 0)

frozen_ok : (process_freeze_wipe bank freezer (some 1) (some at_bob) town).0 ≡ ok frozen_output
unfolding runs
frozen_ok = refl

freeze_effect_example :
    (at_bob.caller_addr ≡ bank.dcdt_sc_address)
    × ((before : DigitalToken) × (after : DigitalToken) × (token_at bank town 1 key ≡ ok before)
        × (token_at bank icy_town 1 key ≡ ok after)
        × (is_frozen after ≡ true)
        × (after.value ≡ before.value))
    × ((q : ℕ) (j : Bytes)
        → (q ≢ 1) ⊎ (j ≢ key)
        → token_at bank icy_town q j ≡ token_at bank town q j)
freeze_effect_example =
    freeze_effect bank freezer bank-IsStore bank-IsMarshaller 1 at_bob token town frozen_output refl
      refl frozen_ok

abbrev five_of_bob : DigitalToken
five_of_bob = record {
  token_type = 0;
  value = pos 5;
  properties = [];
  token_meta_data = none;
  reserved = [];
}

five_of_bob_read : token_at bank town 1 key ≡ ok five_of_bob
unfolding runs
five_of_bob_read = refl

frozen_account_refuses_example :
    add_to_dcdt_balance bank 1 key (negsuc 0) (settings_handler bank true) false icy_town
    ≡ (err dcdt_is_frozen_for_account, icy_town)
frozen_account_refuses_example =
    frozen_account_refuses bank freezer bank-IsStore bank-IsMarshaller (settings_handler bank true)
      1 at_bob token (negsuc 0) town frozen_output five_of_bob refl refl refl five_of_bob_read refl
      (λ p. cc) frozen_ok

abbrev wiped_output : VmOutput
wiped_output =
    output_of (process_freeze_wipe bank wiper (some 1) (some at_bob) icy_town).0 (new_output 0)

wiped_ok : (process_freeze_wipe bank wiper (some 1) (some at_bob) icy_town).0 ≡ ok wiped_output
unfolding runs
wiped_ok = refl

wipe_effect_example :
    let w' = (process_freeze_wipe bank wiper (some 1) (some at_bob) icy_town).1 in
    (at_bob.caller_addr ≡ bank.dcdt_sc_address)
    × ((before : DigitalToken) × (token_at bank icy_town 1 key ≡ ok before)
        × (is_frozen before ≡ true))
    × (token_at bank w' 1 key ≡ ok (new_token bank))
    × ((q : ℕ) (j : Bytes)
        → (q ≢ 1) ⊎ (j ≢ key)
        → token_at bank w' q j ≡ token_at bank icy_town q j)
wipe_effect_example =
    wipe_effect bank wiper bank-IsStore bank-IsMarshaller 1 at_bob token icy_town wiped_output
      freezer_storage.keeps_accounts refl refl wiped_ok

abbrev paused_town : World Account Db
paused_town = (process_global_settings bank dcdt_pause true (some pause) town).1

five_in_pause : token_at bank paused_town 1 key ≡ ok five_of_bob
unfolding runs
five_in_pause = refl

free : is_frozen five_of_bob ≡ false
unfolding runs
free = refl

bob_in_pause : bank.address_bytes (paused_town.accounts 1) ≡ codes "bob"
unfolding runs
bob_in_pause = refl

paused_token_refuses_example :
    add_to_dcdt_balance bank 1 key (negsuc 0) (settings_handler bank true) false paused_town
    ≡ (err dcdt_token_is_paused, paused_town)
paused_token_refuses_example =
    paused_token_refuses bank bank-IsStore bank-IsAdapter true 1 pause token (negsuc 0) town
      paused_output five_of_bob refl paused_ok five_in_pause refl free
      (λ p. cc (sym bob_in_pause ∙ p))
