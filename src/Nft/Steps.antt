-- ===== src/Nft/Steps.antt =====
-- The steps of burning a quantity of a token and of adding one to it.
use k_chain_vm_common_go.Common.{
  ℕ, ◌≤◌, ◌≡◌, ◌≢◌, inl, inr, false, List, ◌∷◌, some, Bytes, arith, bytes_equal_iff,
}
use k_chain_vm_common_go.Common.Int.{pos, ◌-ℤ◌}
use k_chain_vm_common_go.Numbers.{set_bytes, to_u64, sub_u64}
use k_chain_vm_common_go.Errors.{Error, ok, err, Result-cases}
use k_chain_vm_common_go.Vm.{ContractCallInput, VmOutput, DigitalToken}
use k_chain_vm_common_go.Env.{Env, World, dcdt_token_key}
use k_chain_vm_common_go.Logs.{add_dcdt_entry_in_vm_output}
use k_chain_vm_common_go.Local.{check_basic_dcdt_arguments}
use k_chain_vm_common_go.Balance.{is_negative}
use k_chain_vm_common_go.Nft.{NftFunction, check_dcdt_nft_create_burn_add_input}
use k_chain_vm_common_go.Nft.Quantity.{
  is_allowed_to_burn_nft, change_quantity, check_nft_burn, process_nft_burn, check_nft_add_quantity,
  process_nft_add_quantity,
}

module _ {A D : Type 0} (e : Env A D) (f : NftFunction (World A D)) where
  -- The shared check gives the input itself, of a caller that is the receiver too, with the gas.
  pub check_input_same :
      (p : ℕ) (i i' : ContractCallInput) (cost : ℕ)
      → check_dcdt_nft_create_burn_add_input e (some p) (some i) cost ≡ ok i'
      → (i' ≡ i) × (i.caller_addr ≡ i.recipient_addr) × (cost ≤ i.gas_provided)
  unfolding check_dcdt_nft_create_burn_add_input check_basic_dcdt_arguments
  check_input_same p i i' cost h = ground (arith, bytes_equal_iff i.caller_addr i.recipient_addr)

  -- What the checks before a change of a quantity have found: the caller acts on itself and has the
  -- gas, the nonce is not 0, and the token is what the storage reads.
  pub record Checked (i : ContractCallInput) (p : ℕ) (token_id : Bytes) (n : ℕ) (t : DigitalToken)
      (w : World A D) : Type 0 where
    pub own : i.caller_addr ≡ i.recipient_addr
    pub gas : f.func_gas_cost ≤ i.gas_provided
    pub some_nonce : n ≢ 0
    pub read : f.storage.get_dcdt_nft_token_on_sender w p (dcdt_token_key e.core token_id) n ≡ ok t

  pub burn-Checked :
      (p : ℕ) (i : ContractCallInput) (token_id nb qb : Bytes) (rest : List Bytes) (w : World A D)
      (i' : ContractCallInput) (p' : ℕ) (k : Bytes) (n : ℕ) (t : DigitalToken) (q : ℕ)
      → i.arguments ≡ token_id ∷ nb ∷ qb ∷ rest
      → (check_nft_burn e f (some p) (some i) w).0 ≡ ok (i', p', k, n, t, q)
      → (i' ≡ i)
        × (p' ≡ p)
        × (k ≡ token_id)
        × (n ≡ to_u64 (set_bytes nb))
        × (q ≡ set_bytes qb)
        × ((check_nft_burn e f (some p) (some i) w).1 ≡ w)
        × Checked i p token_id (to_u64 (set_bytes nb)) t w
        × (is_allowed_to_burn_nft e f (some p) token_id w ≡ ok tt)
        × (is_negative (t.value -ℤ pos (set_bytes qb)) ≡ false)
  unfolding check_nft_burn
  burn-Checked p i token_id nb qb rest w i' p' k n t q args h =
      elim (Result-cases
        (check_dcdt_nft_create_burn_add_input e (some p) (some i) f.func_gas_cost)) [
          | inl (j, checked) ↦ ground (arith, check_input_same p i j f.func_gas_cost checked)
          | inr (x, refused) ↦ ground arith
        ]

  pub add-Checked :
      (p : ℕ) (i : ContractCallInput) (token_id nb qb : Bytes) (rest : List Bytes) (w : World A D)
      (i' : ContractCallInput) (p' : ℕ) (k : Bytes) (n : ℕ) (t : DigitalToken) (q : ℕ)
      → i.arguments ≡ token_id ∷ nb ∷ qb ∷ rest
      → (check_nft_add_quantity e f (some p) (some i) w).0 ≡ ok (i', p', k, n, t, q)
      → (i' ≡ i)
        × (p' ≡ p)
        × (k ≡ token_id)
        × (n ≡ to_u64 (set_bytes nb))
        × (q ≡ set_bytes qb)
        × ((check_nft_add_quantity e f (some p) (some i) w).1 ≡ w)
        × Checked i p token_id (to_u64 (set_bytes nb)) t w
        × (f.roles.check_allowed_to_execute w (some p) token_id e.dcdt_role_nft_add_quantity
            ≡ ok tt)
  unfolding check_nft_add_quantity
  add-Checked p i token_id nb qb rest w i' p' k n t q args h =
      elim (Result-cases
        (check_dcdt_nft_create_burn_add_input e (some p) (some i) f.func_gas_cost)) [
          | inl (j, checked) ↦ ground (arith, check_input_same p i j f.func_gas_cost checked)
          | inr (x, refused) ↦ ground arith
        ]

  -- A burn whose checks have passed goes on to the change of the quantity.
  pub burn_went_on :
      (p : ℕ) (i : ContractCallInput) (token_id nb qb : Bytes) (rest : List Bytes) (w : World A D)
      (i' : ContractCallInput) (p' : ℕ) (k : Bytes) (n : ℕ) (t : DigitalToken) (q : ℕ)
      (out : VmOutput)
      → i.arguments ≡ token_id ∷ nb ∷ qb ∷ rest
      → (check_nft_burn e f (some p) (some i) w).0 ≡ ok (i', p', k, n, t, q)
      → (process_nft_burn e f (some p) (some i) w).0 ≡ ok out
      → let changed =
          change_quantity e f p i
            (dcdt_token_key e.core token_id)
            (to_u64 (set_bytes nb))
            t
            (pos 0 -ℤ pos (set_bytes qb))
            w in
        (changed.0 ≡ ok tt)
        × ((process_nft_burn e f (some p) (some i) w).1 ≡ changed.1)
        × (out.gas_remaining ≡ sub_u64 i.gas_provided f.func_gas_cost)
  unfolding process_nft_burn add_dcdt_entry_in_vm_output
  burn_went_on p i token_id nb qb rest w i' p' k n t q out args checked h =
      ground (arith, burn-Checked p i token_id nb qb rest w i' p' k n t q args checked)

  pub burn_refused :
      (p : ℕ) (i : ContractCallInput) (w : World A D) (x : Error)
      → (check_nft_burn e f (some p) (some i) w).0 ≡ err x
      → (process_nft_burn e f (some p) (some i) w).0 ≡ err x
  unfolding process_nft_burn
  burn_refused p i w x h = ground arith

  -- An addition whose checks have passed goes on to the change of the quantity.
  pub add_went_on :
      (p : ℕ) (i : ContractCallInput) (token_id nb qb : Bytes) (rest : List Bytes) (w : World A D)
      (i' : ContractCallInput) (p' : ℕ) (k : Bytes) (n : ℕ) (t : DigitalToken) (q : ℕ)
      (out : VmOutput)
      → i.arguments ≡ token_id ∷ nb ∷ qb ∷ rest
      → (check_nft_add_quantity e f (some p) (some i) w).0 ≡ ok (i', p', k, n, t, q)
      → (process_nft_add_quantity e f (some p) (some i) w).0 ≡ ok out
      → let changed =
          change_quantity e f p i
            (dcdt_token_key e.core token_id)
            (to_u64 (set_bytes nb))
            t
            (pos (set_bytes qb))
            w in
        (changed.0 ≡ ok tt)
        × ((process_nft_add_quantity e f (some p) (some i) w).1 ≡ changed.1)
        × (out.gas_remaining ≡ sub_u64 i.gas_provided f.func_gas_cost)
  unfolding process_nft_add_quantity add_dcdt_entry_in_vm_output
  add_went_on p i token_id nb qb rest w i' p' k n t q out args checked h =
      ground (arith, add-Checked p i token_id nb qb rest w i' p' k n t q args checked)

  pub add_refused :
      (p : ℕ) (i : ContractCallInput) (w : World A D) (x : Error)
      → (check_nft_add_quantity e f (some p) (some i) w).0 ≡ err x
      → (process_nft_add_quantity e f (some p) (some i) w).0 ≡ err x
  unfolding process_nft_add_quantity
  add_refused p i w x h = ground arith
