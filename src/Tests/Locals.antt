-- ===== src/Tests/Locals.antt =====
-- Mints and burns at concrete inputs.
use k_chain_vm_common_go.Common.{
  ℕ, true, ◌+◌, ◌≡◌, ◌≢◌, ◌≤◌, ◌<◌, ◌⊎◌, refl, [], ◌∷◌, some, Bytes, codes, arith, length,
}
use k_chain_vm_common_go.Common.Int.{pos, ◌-ℤ◌}
use k_chain_vm_common_go.Numbers.{set_bytes}
use k_chain_vm_common_go.Errors.{ok, err, insufficient_funds, action_not_allowed}
use k_chain_vm_common_go.Vm.{ContractCallInput, VmOutput, DigitalToken}
use k_chain_vm_common_go.Env.{World, dcdt_token_key}
use k_chain_vm_common_go.Logs.{new_output}
use k_chain_vm_common_go.Balance.Storage.{token_at, stored}
use k_chain_vm_common_go.Balance.Update.{Credited, Unchanged}
use k_chain_vm_common_go.Balance.Held.{held}
use k_chain_vm_common_go.Local.{LocalFunction, process_local_mint, process_local_burn, process_burn}
use k_chain_vm_common_go.Local.Effect.{
  local_mint_effect, local_burn_effect, burn_after_mint, local_mint_failed, local_burn_failed,
  burn_effect,
}
use k_chain_vm_common_go.Tests.Bank.{Account, Db, bank, bank-IsStore, bank-IsMarshaller}
use k_chain_vm_common_go.Tests.Town.{token, town, call, by_alice, locals, output_of}
use k_chain_vm_common_go.Tests.Runs.{runs}

abbrev three : Bytes
three = 3 ∷ []

abbrev key : Bytes
key = dcdt_token_key bank.core token

abbrev minted : VmOutput
minted = output_of (process_local_mint bank locals (some 0) (some by_alice) town).0 (new_output 0)

minted_ok : (process_local_mint bank locals (some 0) (some by_alice) town).0 ≡ ok minted
unfolding runs
minted_ok = refl

local_mint_effect_example :
    (by_alice.caller_addr ≡ by_alice.recipient_addr)
    × (locals.roles.check_allowed_to_execute town (some 0) token bank.dcdt_role_local_mint ≡ ok tt)
    × (0 < set_bytes three)
    × (length three ≤ bank.max_len_for_dcdt_issue_mint)
    × Credited bank 0 key
        (pos (set_bytes three))
        town
        (process_local_mint bank locals (some 0) (some by_alice) town).1
    × (minted.gas_remaining + 7 ≡ 100)
local_mint_effect_example =
    local_mint_effect bank bank-IsStore bank-IsMarshaller locals 0 by_alice token three [] town
      minted refl (omega arith) minted_ok

abbrev by_bob : ContractCallInput
by_bob = call (codes "bob") (codes "bob") 3

abbrev burned : VmOutput
burned = output_of (process_local_burn bank locals (some 1) (some by_bob) town).0 (new_output 0)

burned_ok : (process_local_burn bank locals (some 1) (some by_bob) town).0 ≡ ok burned
unfolding runs
burned_ok = refl

local_burn_effect_example :
    (by_bob.caller_addr ≡ by_bob.recipient_addr)
    × ((locals.settings.is_burn_for_all town key ≡ true)
        ⊎ (locals.roles.check_allowed_to_execute town (some 1) token bank.dcdt_role_local_burn
            ≡ ok tt))
    × (0 < set_bytes three)
    × Credited bank 1 key
        (pos 0 -ℤ pos (set_bytes three))
        town
        (process_local_burn bank locals (some 1) (some by_bob) town).1
    × (burned.gas_remaining + 7 ≡ 100)
local_burn_effect_example =
    local_burn_effect bank bank-IsStore bank-IsMarshaller locals 1 by_bob token three [] town burned
      refl (omega arith) burned_ok

-- A role handler that allows everything, so that one account may mint and burn.
abbrev free_locals : LocalFunction (World Account Db)
free_locals = record locals { roles = record { check_allowed_to_execute = λ w p t action. ok tt } }

abbrev minted_free : VmOutput
minted_free =
    output_of (process_local_mint bank free_locals (some 0) (some by_alice) town).0 (new_output 0)

abbrev burned_again : VmOutput
burned_again =
    output_of
      (process_local_burn bank free_locals (some 0) (some by_alice)
        (process_local_mint bank free_locals (some 0) (some by_alice) town).1).0
      (new_output 0)

minted_free_ok :
    (process_local_mint bank free_locals (some 0) (some by_alice) town).0 ≡ ok minted_free
unfolding runs
minted_free_ok = refl

burned_again_ok :
    (process_local_burn bank free_locals
      (some 0)
      (some by_alice)
      (process_local_mint bank free_locals (some 0) (some by_alice) town).1).0
    ≡ ok burned_again
unfolding runs
burned_again_ok = refl

burn_after_mint_example :
    let w'' =
      (process_local_burn bank free_locals
        (some 0)
        (some by_alice)
        (process_local_mint bank free_locals (some 0) (some by_alice) town).1).1 in
    (held bank w'' 0 key ≡ held bank town 0 key)
    × ((t : DigitalToken) × (token_at bank town 0 key ≡ ok t)
        × (token_at bank w'' 0 key ≡ ok (stored bank t)))
    × ((q : ℕ) (j : Bytes) → (q ≢ 0) ⊎ (j ≢ key) → token_at bank w'' q j ≡ token_at bank town q j)
burn_after_mint_example =
    burn_after_mint bank bank-IsStore bank-IsMarshaller free_locals 0 by_alice token three [] town
      minted_free burned_again refl minted_free_ok burned_again_ok

not_a_minter :
    (process_local_mint bank locals (some 1) (some by_bob) town).0 ≡ err action_not_allowed
unfolding runs
not_a_minter = refl

local_mint_failed_example :
    Unchanged bank town (process_local_mint bank locals (some 1) (some by_bob) town).1
local_mint_failed_example =
    local_mint_failed bank bank-IsStore bank-IsMarshaller locals (some 1) (some by_bob)
      action_not_allowed town not_a_minter

abbrev six_by_bob : ContractCallInput
six_by_bob = call (codes "bob") (codes "bob") 6

short_of_funds :
    (process_local_burn bank locals (some 1) (some six_by_bob) town).0 ≡ err insufficient_funds
unfolding runs
short_of_funds = refl

local_burn_failed_example :
    Unchanged bank town (process_local_burn bank locals (some 1) (some six_by_bob) town).1
local_burn_failed_example =
    local_burn_failed bank bank-IsStore bank-IsMarshaller locals (some 1) (some six_by_bob)
      insufficient_funds town short_of_funds

abbrev to_system : ContractCallInput
to_system = call (codes "alice") (codes "system") 3

abbrev gone : VmOutput
gone =
    output_of (process_burn bank 7 locals.settings (some 0) (some to_system) town).0 (new_output 0)

gone_ok : (process_burn bank 7 locals.settings (some 0) (some to_system) town).0 ≡ ok gone
unfolding runs
gone_ok = refl

burn_effect_example :
    (to_system.recipient_addr ≡ bank.dcdt_sc_address)
    × (0 < set_bytes three)
    × (7 ≤ 100)
    × Credited bank 0 key
        (pos 0 -ℤ pos (set_bytes three))
        town
        (process_burn bank 7 locals.settings (some 0) (some to_system) town).1
burn_effect_example =
    burn_effect bank bank-IsStore bank-IsMarshaller 7 locals.settings 0 to_system token three town
      gone refl gone_ok
