-- ===== src/Tests/Transfers.antt =====
-- Transfers at concrete inputs.
use k_chain_vm_common_go.Common.{
  ℕ, ◌+◌, ◌≡◌, ◌≢◌, refl, [], ◌∷◌, none, some, Bytes, codes, arith, ◌<◌, ◌⊎◌, inr,
}
use k_chain_vm_common_go.Common.Int.{pos, ◌+ℤ◌, ◌-ℤ◌, ◌≤ℤ◌}
use k_chain_vm_common_go.Numbers.{set_bytes}
use k_chain_vm_common_go.Errors.{ok, err, insufficient_funds}
use k_chain_vm_common_go.Vm.{ContractCallInput, VmOutput}
use k_chain_vm_common_go.Env.{dcdt_token_key}
use k_chain_vm_common_go.Logs.{new_output}
use k_chain_vm_common_go.Balance.Storage.{token_at}
use k_chain_vm_common_go.Balance.Update.{Credited, Unchanged}
use k_chain_vm_common_go.Balance.Held.{held}
use k_chain_vm_common_go.Transfer.{process_transfer}
use k_chain_vm_common_go.Transfer.Effect.{transfer_moves, transfer_to_self}
use k_chain_vm_common_go.Transfer.Shards.{transfer_out, transfer_in, transfer_failed}
use k_chain_vm_common_go.Transfer.Gas.{transfer_gas, total_gas}
use k_chain_vm_common_go.Tests.Town.{
  token, token_key, town, call, to_bob, by_alice, transfers, output_of,
}
use k_chain_vm_common_go.Tests.Runs.{runs}
use k_chain_vm_common_go.Tests.Bank.{bank, bank-IsStore, bank-IsMarshaller}

abbrev moved : VmOutput
moved =
    output_of (process_transfer bank transfers (some 0) (some 1) (some to_bob) town).0
      (new_output 0)

moved_ok : (process_transfer bank transfers (some 0) (some 1) (some to_bob) town).0 ≡ ok moved
unfolding runs
moved_ok = refl

transfer_moves_example :
    let w' = (process_transfer bank transfers (some 0) (some 1) (some to_bob) town).1 in
    (0 < set_bytes (3 ∷ []))
    × (held bank w' 0 token_key ≡ held bank town 0 token_key -ℤ pos 3)
    × (pos 3 ≤ℤ held bank town 0 token_key)
    × (held bank w' 1 token_key ≡ held bank town 1 token_key +ℤ pos 3)
    × ((q : ℕ) (j : Bytes)
        → (q ≢ 0) × (q ≢ 1) ⊎ (j ≢ token_key)
        → token_at bank w' q j ≡ token_at bank town q j)
unfolding runs
transfer_moves_example =
    transfer_moves bank transfers bank-IsStore bank-IsMarshaller 0 1 to_bob token (3 ∷ []) [] town
      moved refl moved_ok (omega arith)

-- The same account on both sides.
abbrev returned : VmOutput
returned =
    output_of (process_transfer bank transfers (some 0) (some 0) (some by_alice) town).0
      (new_output 0)

returned_ok :
    (process_transfer bank transfers (some 0) (some 0) (some by_alice) town).0 ≡ ok returned
unfolding runs
returned_ok = refl

transfer_to_self_example :
    let w' = (process_transfer bank transfers (some 0) (some 0) (some by_alice) town).1 in
    (held bank w' 0 token_key ≡ held bank town 0 token_key)
    × (pos 3 ≤ℤ held bank town 0 token_key)
    × ((q : ℕ) (j : Bytes)
        → (q ≢ 0) ⊎ (j ≢ token_key)
        → token_at bank w' q j ≡ token_at bank town q j)
unfolding runs
transfer_to_self_example =
    transfer_to_self bank transfers bank-IsStore bank-IsMarshaller 0 by_alice token (3 ∷ []) [] town
      returned refl returned_ok

abbrev sent : VmOutput
sent = output_of (process_transfer bank transfers (some 0) none (some to_bob) town).0 (new_output 0)

sent_ok : (process_transfer bank transfers (some 0) none (some to_bob) town).0 ≡ ok sent
unfolding runs
sent_ok = refl

transfer_out_example :
    Credited bank 0
      (dcdt_token_key bank.core token)
      (pos 0 -ℤ pos (set_bytes (3 ∷ [])))
      town
      (process_transfer bank transfers (some 0) none (some to_bob) town).1
transfer_out_example =
    transfer_out bank transfers bank-IsStore bank-IsMarshaller 0 to_bob token (3 ∷ []) [] town sent
      refl sent_ok

abbrev received : VmOutput
received =
    output_of (process_transfer bank transfers none (some 1) (some to_bob) town).0 (new_output 0)

received_ok : (process_transfer bank transfers none (some 1) (some to_bob) town).0 ≡ ok received
unfolding runs
received_ok = refl

transfer_in_example :
    Credited bank 1
      (dcdt_token_key bank.core token)
      (pos (set_bytes (3 ∷ [])))
      town
      (process_transfer bank transfers none (some 1) (some to_bob) town).1
transfer_in_example =
    transfer_in bank transfers bank-IsStore bank-IsMarshaller 1 to_bob token (3 ∷ []) [] town
      received refl received_ok

abbrev too_much : ContractCallInput
too_much = call (codes "alice") (codes "bob") 11

overdrawn :
    (process_transfer bank transfers (some 0) none (some too_much) town).0 ≡ err insufficient_funds
unfolding runs
overdrawn = refl

transfer_failed_example :
    Unchanged bank town (process_transfer bank transfers (some 0) none (some too_much) town).1
transfer_failed_example =
    transfer_failed bank transfers bank-IsStore bank-IsMarshaller (some 0) none (some too_much)
      insufficient_funds town overdrawn (λ h. cc) (inr refl)

transfer_gas_example : total_gas moved + 7 ≡ 100
transfer_gas_example =
    transfer_gas bank transfers 0 (some 1) to_bob token (3 ∷ []) [] town moved refl (omega arith)
      moved_ok
