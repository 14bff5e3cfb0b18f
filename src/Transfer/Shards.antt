-- ===== src/Transfer/Shards.antt =====
-- A transfer between shards: what each side does. And what a failed transfer leaves behind.
use k_chain_vm_common_go.Common.{
  ℕ, ◌≡◌, ◌≢◌, refl, ◌∙◌, ap, ◌⊎◌, inl, inr, List, ◌∷◌, Option, none, some, Bytes,
}
use k_chain_vm_common_go.Common.Int.{pos, ◌-ℤ◌}
use k_chain_vm_common_go.Numbers.{set_bytes}
use k_chain_vm_common_go.Exec.{element_at_failed}
use k_chain_vm_common_go.Errors.{Error, ok, err, runtime_panic, Result-cases}
use k_chain_vm_common_go.Vm.{ContractCallInput, VmOutput}
use k_chain_vm_common_go.Env.{Env, World, dcdt_token_key}
use k_chain_vm_common_go.Env.Laws.{IsStore, IsMarshaller}
use k_chain_vm_common_go.Balance.{add_to_dcdt_balance}
use k_chain_vm_common_go.Balance.Storage.{token_at}
use k_chain_vm_common_go.Balance.Update.{
  Credited, Unchanged, add_to_dcdt_balance-Credited, add_to_dcdt_balance-failed,
}
use k_chain_vm_common_go.Common.{arith, Bool, true, false, Bool-cases, ltb}
use k_chain_vm_common_go.Logs.{compute_gas_remaining}
use k_chain_vm_common_go.Transfer.{
  TransferFunction, check_transfer, debit_sender, credit_destination, output_on_destination,
  output_cross_shard, process_transfer,
}
use k_chain_vm_common_go.Transfer.Steps.{
  check_transfer-world, process_transfer_steps, credit_destination_steps,
}
use k_chain_vm_common_go.Transfer.Effect.{debit-Credited}

module _ {A D : Type 0} (e : Env A D) (f : TransferFunction (World A D)) (store : IsStore e)
    (marshaller : IsMarshaller e) where
  credit_elsewhere :
      (acnt_snd : Option ℕ) (i : ContractCallInput) (token_id key : Bytes) (v gas : ℕ)
      (w : World A D)
      → (credit_destination e f acnt_snd none i token_id key v gas w).1 ≡ w
  unfolding credit_destination
  credit_elsewhere acnt_snd i token_id key v gas w = refl

  credit_returns :
      (acnt_snd : Option ℕ) (i : ContractCallInput) (token_id key : Bytes) (v gas : ℕ)
      (w : World A D)
      → (credit_destination e f acnt_snd none i token_id key v gas w).0
        ≡ ok (output_cross_shard e f i token_id v gas)
  unfolding credit_destination
  credit_returns acnt_snd i token_id key v gas w = refl

  debit_elsewhere :
      (i : ContractCallInput) (key : Bytes) (v : ℕ) (w : World A D)
      → (debit_sender e f none i key v w).1 ≡ w
  unfolding debit_sender
  debit_elsewhere i key v w = refl

  -- In the shard of the sender alone, a transfer that succeeds debits the sender and no one else.
  pub transfer_out :
      (snd : ℕ) (i : ContractCallInput) (token_id vb : Bytes) (rest : List Bytes) (w : World A D)
      (out : VmOutput)
      → i.arguments ≡ token_id ∷ vb ∷ rest
      → (process_transfer e f (some snd) none (some i) w).0 ≡ ok out
      → Credited e snd
          (dcdt_token_key e.core token_id)
          (pos 0 -ℤ pos (set_bytes vb))
          w
          (process_transfer e f (some snd) none (some i) w).1
  transfer_out snd i token_id vb rest w out args h =
      let key = dcdt_token_key e.core token_id in
      let v = set_bytes vb in
      let (positive, paid, split) =
        process_transfer_steps e f (some snd) none i token_id vb rest w out args h in
      let mid = (debit_sender e f (some snd) i key v w).1 in
      rw
        (
          split,
          credit_elsewhere (some snd) i token_id key v
              (compute_gas_remaining (some snd) i.gas_provided f.func_gas_cost) mid,
        )
        (debit-Credited e f store marshaller snd i key v w paid)

  -- In the shard of the destination alone, a transfer that succeeds credits the destination and no
  -- one else.
  pub transfer_in :
      (dst : ℕ) (i : ContractCallInput) (token_id vb : Bytes) (rest : List Bytes) (w : World A D)
      (out : VmOutput)
      → i.arguments ≡ token_id ∷ vb ∷ rest
      → (process_transfer e f none (some dst) (some i) w).0 ≡ ok out
      → Credited e dst
          (dcdt_token_key e.core token_id)
          (pos (set_bytes vb))
          w
          (process_transfer e f none (some dst) (some i) w).1
  transfer_in dst i token_id vb rest w out args h =
      let key = dcdt_token_key e.core token_id in
      let v = set_bytes vb in
      let gas = compute_gas_remaining none i.gas_provided f.func_gas_cost in
      let (positive, paid, split) =
        process_transfer_steps e f none (some dst) i token_id vb rest w out args h in
      let split' = rw (debit_elsewhere i key v w) at split in
      let (added, last) =
        credit_destination_steps e f none dst i token_id key v gas w out (rw split' at h) in
      rw (split', last)
        (add_to_dcdt_balance-Credited e store marshaller f.settings dst key (pos v)
          i.return_call_after_error w added)

  debit_failed :
      (acnt_snd : Option ℕ) (i : ContractCallInput) (key : Bytes) (v : ℕ) (x : Error)
      (w : World A D)
      → (debit_sender e f acnt_snd i key v w).0 ≡ err x
      → Unchanged e w (debit_sender e f acnt_snd i key v w).1
  unfolding debit_sender
  debit_failed none i key v x w h q j = refl
  debit_failed (some snd) i key v x w h q j =
      elim (Bool-cases (ltb i.gas_provided f.func_gas_cost)) [
        | inl short ↦ rw short
        | inr enough ↦ rw enough (
            add_to_dcdt_balance-failed e store marshaller f.settings snd key (pos 0 -ℤ pos v)
              i.return_call_after_error x w (ground arith) q j)
      ]

  output_failed :
      (acnt_snd : Option ℕ) (i : ContractCallInput) (token_id : Bytes) (v : ℕ) (after : Bool)
      (address : Bytes) (gas : ℕ) (x : Error) (w : World A D)
      → (output_on_destination e f acnt_snd i token_id v after address gas w).0 ≡ err x
      → x ≡ runtime_panic
  unfolding output_on_destination
  output_failed acnt_snd i token_id v true address gas x w h =
      ground (arith, element_at_failed i.arguments e.min_len_arguments_dcdt_transfer x)
  output_failed acnt_snd i token_id v false address gas x w h = cc

  -- A credit that returns an error wrote nothing before the balance, and what it wrote there.
  credit_failed_steps :
      (acnt_snd : Option ℕ) (dst : ℕ) (i : ContractCallInput) (token_id key : Bytes) (v gas : ℕ)
      (x : Error) (w : World A D)
      → x ≢ runtime_panic
      → (credit_destination e f acnt_snd (some dst) i token_id key v gas w).0 ≡ err x
      → let added = add_to_dcdt_balance e dst key (pos v) f.settings i.return_call_after_error w in
        ((credit_destination e f acnt_snd (some dst) i token_id key v gas w).1 ≡ w)
        ⊎ (added.0 ≡ err x)
          × ((credit_destination e f acnt_snd (some dst) i token_id key v gas w).1 ≡ added.1)
  unfolding credit_destination
  credit_failed_steps acnt_snd dst i token_id key v gas x w returned h =
      let added = add_to_dcdt_balance e dst key (pos v) f.settings i.return_call_after_error w in
      elim (Result-cases (
        f.payable_handler.determine_is_sc_call_after w i i.recipient_addr
          e.min_len_arguments_dcdt_transfer)) [
            | inl (after, determined) ↦ ground (
              arith,
              output_failed acnt_snd i token_id v after (e.address_bytes (added.1.accounts dst)) gas
                  x added.1,
            )
            | inr (y, failed) ↦ ground arith
          ]

  refused_by_checks :
      (acnt_snd acnt_dst : Option ℕ) (input : Option ContractCallInput) (y : Error) (w : World A D)
      → (check_transfer e f acnt_snd acnt_dst input w).0 ≡ err y
      → process_transfer e f acnt_snd acnt_dst input w ≡ (err y, w)
  unfolding process_transfer
  refused_by_checks acnt_snd acnt_dst input y w c =
      ground (arith, check_transfer-world e f acnt_snd acnt_dst input w)

  refused_by_debit :
      (acnt_snd acnt_dst : Option ℕ) (input : Option ContractCallInput) (i : ContractCallInput)
      (token_id : Bytes) (v : ℕ) (y : Error) (w : World A D)
      → (check_transfer e f acnt_snd acnt_dst input w).0 ≡ ok (i, token_id, v)
      → let paid = debit_sender e f acnt_snd i (dcdt_token_key e.core token_id) v w in
        paid.0 ≡ err y → process_transfer e f acnt_snd acnt_dst input w ≡ (err y, paid.1)
  unfolding process_transfer
  refused_by_debit acnt_snd acnt_dst input i token_id v y w c d =
      ground (arith, check_transfer-world e f acnt_snd acnt_dst input w)

  past_debit :
      (acnt_snd acnt_dst : Option ℕ) (input : Option ContractCallInput) (i : ContractCallInput)
      (token_id : Bytes) (v : ℕ) (w : World A D)
      → (check_transfer e f acnt_snd acnt_dst input w).0 ≡ ok (i, token_id, v)
      → let key = dcdt_token_key e.core token_id in
        let paid = debit_sender e f acnt_snd i key v w in
        paid.0 ≡ ok tt
        → process_transfer e f acnt_snd acnt_dst input w
          ≡ credit_destination e f acnt_snd acnt_dst i token_id key v
              (compute_gas_remaining acnt_snd i.gas_provided f.func_gas_cost)
              paid.1
  unfolding process_transfer
  past_debit acnt_snd acnt_dst input i token_id v w c d =
      ground (arith, check_transfer-world e f acnt_snd acnt_dst input w)

  one_sided :
      (acnt_snd acnt_dst : Option ℕ) (i : ContractCallInput) (token_id key : Bytes) (v gas : ℕ)
      (x : Error) (w : World A D)
      → x ≢ runtime_panic
      → (acnt_snd ≡ none) ⊎ (acnt_dst ≡ none)
      → let paid = (debit_sender e f acnt_snd i key v w).1 in
        (credit_destination e f acnt_snd acnt_dst i token_id key v gas paid).0 ≡ err x
        → Unchanged e w (credit_destination e f acnt_snd acnt_dst i token_id key v gas paid).1
  one_sided none (some dst) i token_id key v gas x w returned apart h q j =
      elim (credit_failed_steps none dst i token_id key v gas x (debit_sender e f none i key v w).1
        returned h) [
          | inl same ↦ rw (same, debit_elsewhere i key v w)
          | inr (failed, last) ↦ rw last (
              add_to_dcdt_balance-failed e store marshaller f.settings dst key (pos v)
                i.return_call_after_error x _ failed q j
              ∙ ap (λ (u : World A D). token_at e u q j) (debit_elsewhere i key v w))
        ]
  one_sided none none i token_id key v gas x w returned apart h q j =
      cc (credit_returns none i token_id key v gas (debit_sender e f none i key v w).1)
  one_sided (some snd) none i token_id key v gas x w returned apart h q j =
      cc (credit_returns (some snd) i token_id key v gas (debit_sender e f (some snd) i key v w).1)
  one_sided (some snd) (some dst) i token_id key v gas x w returned apart h q j = ground arith

  -- A transfer with one side in another shard that returns an error has changed no balance.
  pub transfer_failed :
      (acnt_snd acnt_dst : Option ℕ) (input : Option ContractCallInput) (x : Error) (w : World A D)
      → (process_transfer e f acnt_snd acnt_dst input w).0 ≡ err x
      → x ≢ runtime_panic
      → (acnt_snd ≡ none) ⊎ (acnt_dst ≡ none)
      → Unchanged e w (process_transfer e f acnt_snd acnt_dst input w).1
  transfer_failed acnt_snd acnt_dst input x w h returned apart =
      elim (Result-cases (check_transfer e f acnt_snd acnt_dst input w).0) [
        | inl ((i, token_id, v), checked) ↦
            (let key = dcdt_token_key e.core token_id in
              let gas = compute_gas_remaining acnt_snd i.gas_provided f.func_gas_cost in
              elim (Result-cases (debit_sender e f acnt_snd i key v w).0) [
                | inl (_, paid) ↦
                    rw (past_debit acnt_snd acnt_dst input i token_id v w checked paid) (
                      one_sided acnt_snd acnt_dst i token_id key v gas x w returned apart
                        (rw (past_debit acnt_snd acnt_dst input i token_id v w checked paid) at h))
                | inr (y, short) ↦
                    rw (refused_by_debit acnt_snd acnt_dst input i token_id v y w checked short)
                      (debit_failed acnt_snd i key v y w short)
              ])
        | inr (y, refused) ↦ λ q j. rw (refused_by_checks acnt_snd acnt_dst input y w refused)
      ]
