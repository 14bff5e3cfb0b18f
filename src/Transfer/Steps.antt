-- ===== src/Transfer/Steps.antt =====
-- The steps of a transfer that succeeds.
use k_chain_vm_common_go.Common.{ℕ, ◌<◌, ◌≡◌, refl, List, ◌∷◌, Option, some, Bytes, arith}
use k_chain_vm_common_go.Common.Int.{pos}
use k_chain_vm_common_go.Numbers.{set_bytes}
use k_chain_vm_common_go.Errors.{Result, ok, err}
use k_chain_vm_common_go.Vm.{ContractCallInput, VmOutput}
use k_chain_vm_common_go.Env.{Env, World, dcdt_token_key}
use k_chain_vm_common_go.Balance.{add_to_dcdt_balance}
use k_chain_vm_common_go.Logs.{compute_gas_remaining}
use k_chain_vm_common_go.Transfer.{
  TransferFunction, check_transfer, debit_sender, credit_destination, output_on_destination,
  process_transfer,
}

module _ {A D : Type 0} (e : Env A D) (f : TransferFunction (World A D)) where
  -- The checks change nothing.
  pub check_transfer-world :
      (acnt_snd acnt_dst : Option ℕ) (input : Option ContractCallInput) (w : World A D)
      → (check_transfer e f acnt_snd acnt_dst input w).1 ≡ w
  unfolding check_transfer
  check_transfer-world acnt_snd acnt_dst input w = ground arith

  -- What the checks give is the input, its first argument, and the number in its second.
  pub check_transfer_lem :
      (acnt_snd acnt_dst : Option ℕ) (i i' : ContractCallInput) (token_id t : Bytes) (vb : Bytes)
      (rest : List Bytes) (v : ℕ) (w : World A D)
      → i.arguments ≡ token_id ∷ vb ∷ rest
      → (check_transfer e f acnt_snd acnt_dst (some i) w).0 ≡ ok (i', t, v)
      → (i' ≡ i) × (t ≡ token_id) × (v ≡ set_bytes vb) × (0 < v)
  unfolding check_transfer
  check_transfer_lem acnt_snd acnt_dst i i' token_id t vb rest v w args h = ground arith

  -- The parts of a transfer that succeeds: the checks passed, the sender paid, and the destination
  -- was credited in the world that the payment left.
  pub process_transfer_steps :
      (acnt_snd acnt_dst : Option ℕ) (i : ContractCallInput) (token_id vb : Bytes)
      (rest : List Bytes) (w : World A D) (out : VmOutput)
      → i.arguments ≡ token_id ∷ vb ∷ rest
      → (process_transfer e f acnt_snd acnt_dst (some i) w).0 ≡ ok out
      → let key = dcdt_token_key e.core token_id in
        let paid = debit_sender e f acnt_snd i key (set_bytes vb) w in
        (0 < set_bytes vb)
        × (paid.0 ≡ ok tt)
        × (process_transfer e f acnt_snd acnt_dst (some i) w
            ≡ credit_destination e f acnt_snd acnt_dst i token_id key
                (set_bytes vb)
                (compute_gas_remaining acnt_snd i.gas_provided f.func_gas_cost)
                paid.1)
  unfolding process_transfer
  process_transfer_steps acnt_snd acnt_dst i token_id vb rest w out args h =
      from (check_transfer e f acnt_snd acnt_dst (some i) w).0 refl
    where
      from :
          (r : Result (ContractCallInput × Bytes × ℕ))
          → (check_transfer e f acnt_snd acnt_dst (some i) w).0 ≡ r
          → let key = dcdt_token_key e.core token_id in
            let paid = debit_sender e f acnt_snd i key (set_bytes vb) w in
            (0 < set_bytes vb)
            × (paid.0 ≡ ok tt)
            × (process_transfer e f acnt_snd acnt_dst (some i) w
                ≡ credit_destination e f acnt_snd acnt_dst i token_id key
                    (set_bytes vb)
                    (compute_gas_remaining acnt_snd i.gas_provided f.func_gas_cost)
                    paid.1)
      from (ok (i', t, v)) c =
          let (same, tok, val, positive) =
            check_transfer_lem acnt_snd acnt_dst i i' token_id t vb rest v w args c in
          ground (arith, check_transfer-world acnt_snd acnt_dst (some i) w)
      from (err x) c = ground arith

  -- A destination that is credited: the credit succeeded, and nothing else was written.
  pub credit_destination_steps :
      (acnt_snd : Option ℕ) (dst : ℕ) (i : ContractCallInput) (token_id key : Bytes) (v gas : ℕ)
      (w : World A D) (out : VmOutput)
      → (credit_destination e f acnt_snd (some dst) i token_id key v gas w).0 ≡ ok out
      → let added = add_to_dcdt_balance e dst key (pos v) f.settings i.return_call_after_error w in
        (added.0 ≡ ok tt)
        × ((credit_destination e f acnt_snd (some dst) i token_id key v gas w).1 ≡ added.1)
  unfolding credit_destination output_on_destination
  credit_destination_steps acnt_snd dst i token_id key v gas w out h = ground arith
