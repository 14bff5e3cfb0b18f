-- ===== src/Transfer/Gas.antt =====
-- The gas of a transfer: what is left over and what is passed on with the call.
use k_chain_vm_common_go.Common.{
  ℕ, ◌+◌, ◌-◌, ◌≤◌, ◌<◌, ◌≡◌, inl, inr, Bool, true, false, List, [], ◌∷◌, Option, none, some, Bytes,
  arith,
}
use k_chain_vm_common_go.Numbers.{u64_mod, safe_sub_u64, set_bytes}
use k_chain_vm_common_go.Numbers.RoundTrip.{sub_u64-eq}
use k_chain_vm_common_go.Errors.{ok, Result-cases}
use k_chain_vm_common_go.Vm.{ContractCallInput, OutputTransfer, OutputAccount, VmOutput}
use k_chain_vm_common_go.Env.{Env, World, dcdt_token_key}
use k_chain_vm_common_go.Common.Int.{pos}
use k_chain_vm_common_go.Balance.{add_to_dcdt_balance}
use k_chain_vm_common_go.Logs.{
  compute_gas_remaining, add_dcdt_entry_for_transfer_in_vm_output, add_output_transfer_to_vm_output,
}
use k_chain_vm_common_go.Transfer.{
  TransferFunction, debit_sender, credit_destination, output_on_destination, output_cross_shard,
  process_transfer,
}
use k_chain_vm_common_go.Transfer.Steps.{process_transfer_steps}

abbrev gas_limits : List OutputTransfer → ℕ
gas_limits [] = 0
gas_limits (t ∷ ts) = t.gas_limit + gas_limits ts

abbrev account_gas_limits : List (Bytes × OutputAccount) → ℕ
account_gas_limits [] = 0
account_gas_limits ((_, a) ∷ rest) = gas_limits a.output_transfers + account_gas_limits rest

-- The gas that an output gives back or passes on.
abbrev pub total_gas : VmOutput → ℕ
total_gas out = out.gas_remaining + account_gas_limits out.output_accounts

module _ {A D : Type 0} (e : Env A D) (f : TransferFunction (World A D)) where
  cross_shard_gas :
      (i : ContractCallInput) (token_id : Bytes) (v gas : ℕ)
      → total_gas (output_cross_shard e f i token_id v gas) ≡ gas
  unfolding output_cross_shard add_dcdt_entry_for_transfer_in_vm_output
      add_output_transfer_to_vm_output
  cross_shard_gas i token_id v gas = ground arith

  destination_gas :
      (snd : ℕ) (i : ContractCallInput) (token_id address : Bytes) (v gas : ℕ) (after : Bool)
      (w : World A D) (out : VmOutput)
      → i.gas_provided < u64_mod
      → f.func_gas_cost ≤ i.gas_provided
      → gas ≡ i.gas_provided - f.func_gas_cost
      → (output_on_destination e f (some snd) i token_id v after address gas w).0 ≡ ok out
      → total_gas out ≡ gas
  unfolding output_on_destination add_dcdt_entry_for_transfer_in_vm_output
      add_output_transfer_to_vm_output safe_sub_u64
  destination_gas snd i token_id address v gas true w out b c g h =
      ground (arith, sub_u64-eq i.gas_provided f.func_gas_cost)
  destination_gas snd i token_id address v gas false w out b c g h = ground arith

  within_cost :
      (snd : ℕ) (i : ContractCallInput) (key : Bytes) (v : ℕ) (w : World A D)
      → (debit_sender e f (some snd) i key v w).0 ≡ ok tt
      → f.func_gas_cost ≤ i.gas_provided
  unfolding debit_sender
  within_cost snd i key v w h = ground arith

  credit_gas :
      (snd : ℕ) (acnt_dst : Option ℕ) (i : ContractCallInput) (token_id key : Bytes) (v gas : ℕ)
      (w : World A D) (out : VmOutput)
      → i.gas_provided < u64_mod
      → f.func_gas_cost ≤ i.gas_provided
      → gas ≡ i.gas_provided - f.func_gas_cost
      → (credit_destination e f (some snd) acnt_dst i token_id key v gas w).0 ≡ ok out
      → total_gas out ≡ gas
  unfolding credit_destination
  credit_gas snd none i token_id key v gas w out b c g h =
      ground (arith, cross_shard_gas i token_id v gas)
  credit_gas snd (some dst) i token_id key v gas w out b c g h =
      elim (Result-cases (
        f.payable_handler.determine_is_sc_call_after w i i.recipient_addr
          e.min_len_arguments_dcdt_transfer)) [
            | inl (after, determined) ↦
                (let w' =
                    (add_to_dcdt_balance e dst key (pos v) f.settings i.return_call_after_error
                      w).1 in
                  destination_gas snd i token_id (e.address_bytes (w'.accounts dst)) v gas after w'
                    out b c g (ground arith))
            | inr (x, failed) ↦ ground arith
          ]

  remaining :
      (snd provided cost : ℕ)
      → provided < u64_mod
      → cost ≤ provided
      → compute_gas_remaining (some snd) provided cost ≡ provided - cost
  unfolding compute_gas_remaining
  remaining snd provided cost b c = ground (arith, sub_u64-eq provided cost)

  -- On the sender's side a transfer that succeeds costs the gas of the function, and gives back or
  -- passes on with the call all the rest.
  pub transfer_gas :
      (snd : ℕ) (acnt_dst : Option ℕ) (i : ContractCallInput) (token_id vb : Bytes)
      (rest : List Bytes) (w : World A D) (out : VmOutput)
      → i.arguments ≡ token_id ∷ vb ∷ rest
      → i.gas_provided < u64_mod
      → (process_transfer e f (some snd) acnt_dst (some i) w).0 ≡ ok out
      → total_gas out + f.func_gas_cost ≡ i.gas_provided
  transfer_gas snd acnt_dst i token_id vb rest w out args b h =
      let key = dcdt_token_key e.core token_id in
      let v = set_bytes vb in
      let (positive, paid, split) =
        process_transfer_steps e f (some snd) acnt_dst i token_id vb rest w out args h in
      let c = within_cost snd i key v w paid in
      let gas = compute_gas_remaining (some snd) i.gas_provided f.func_gas_cost in
      let g = remaining snd i.gas_provided f.func_gas_cost b c in
      omega (
        arith,
        g,
        c,
        credit_gas snd acnt_dst i token_id key v gas (debit_sender e f (some snd) i key v w).1 out b
            c g (rw split at h),
      )
