-- ===== src/Nft/CreationSteps.antt =====
-- The steps of the creation of a token.
use k_chain_vm_common_go.Common.{
  ℕ, ◌+◌, ◌%◌, ◌^◌, ◌≤◌, ◌≡◌, ◌≢◌, inl, inr, false, List, [], ◌∷◌, some, Bytes, arith,
}
use k_chain_vm_common_go.Common.Int.{pos}
use k_chain_vm_common_go.Numbers.{u64_mod, set_bytes, to_u64, nat_bytes}
use k_chain_vm_common_go.Errors.{Error, ok, err, Result-cases}
use k_chain_vm_common_go.Vm.{ContractCallInput, VmOutput, DigitalToken, is_exec_on_dest_by_caller}
use k_chain_vm_common_go.Env.{Env, World}
use k_chain_vm_common_go.Nft.{NftFunction, check_dcdt_nft_create_burn_add_input}
use k_chain_vm_common_go.Nft.Steps.{check_input_same}
use k_chain_vm_common_go.Logs.{add_dcdt_entry_in_vm_output}
use k_chain_vm_common_go.Nft.Create.{
  get_latest_nonce, save_created, account_with_roles, check_nft_create, process_nft_create,
}

module _ {A D : Type 0} (e : Env A D) (f : NftFunction (World A D)) where
  -- The token that the arguments describe.
  abbrev pub created_token :
      (caller qb name rb hash attributes : Bytes) → List Bytes → ℕ → DigitalToken
  created_token caller qb name rb hash attributes uris n = record {
    token_type = e.non_fungible;
    value = pos (set_bytes qb);
    properties = [];
    token_meta_data = some (record {
      nonce = n;
      name = name;
      creator = caller;
      royalties = to_u64 (set_bytes rb) % 2 ^ 32;
      hash = hash;
      uris = uris;
      attributes = attributes;
    });
    reserved = [];
  }

  pub create_checked :
      (p : ℕ) (i : ContractCallInput) (token_id qb name rb : Bytes) (rest : List Bytes) (q g r : ℕ)
      (w : World A D)
      → i.arguments ≡ token_id ∷ qb ∷ name ∷ rb ∷ rest
      → (check_nft_create e f i p token_id q w).0 ≡ ok (g, r)
      → (r ≡ to_u64 (set_bytes rb) % 2 ^ 32)
        × (r ≤ e.max_royalty)
        × (q ≢ 0)
        × ((check_nft_create e f i p token_id q w).1 ≡ w)
  unfolding check_nft_create
  create_checked p i token_id qb name rb rest q g r w args h = ground arith

  pub create_went_on :
      (fresh p : ℕ) (i : ContractCallInput) (token_id qb name rb hash attributes : Bytes)
      (uris : List Bytes) (nonce : ℕ) (w : World A D) (out : VmOutput)
      → i.arguments ≡ token_id ∷ qb ∷ name ∷ rb ∷ hash ∷ attributes ∷ uris
      → is_exec_on_dest_by_caller i.call_type ≡ false
      → get_latest_nonce e p token_id w ≡ ok nonce
      → (process_nft_create e f fresh (some p) (some i) w).0 ≡ ok out
      → let n = (nonce + 1) % u64_mod in
        let t = created_token i.caller_addr qb name rb hash attributes uris n in
        let saved = save_created e f i p token_id n t w in
        (i.caller_addr ≡ i.recipient_addr)
        × (f.roles.check_allowed_to_execute w (some p) token_id e.dcdt_role_nft_create ≡ ok tt)
        × (set_bytes qb ≢ 0)
        × (to_u64 (set_bytes rb) % 2 ^ 32 ≤ e.max_royalty)
        × (saved.0 ≡ ok tt)
        × ((process_nft_create e f fresh (some p) (some i) w).1 ≡ saved.1)
        × (out.return_data ≡ nat_bytes n ∷ [])
  unfolding process_nft_create account_with_roles add_dcdt_entry_in_vm_output
  create_went_on fresh p i token_id qb name rb hash attributes uris nonce w out args own latest h =
      elim (Result-cases
        (check_dcdt_nft_create_burn_add_input e (some p) (some i) f.func_gas_cost)) [
          | inl (j, checked) ↦
              elim (Result-cases (check_nft_create e f i p token_id (set_bytes qb) w).0) [
                | inl ((g, r), passed) ↦ ground (
                  arith,
                  check_input_same e f p i j f.func_gas_cost checked,
                  create_checked p i token_id qb name rb (hash ∷ attributes ∷ uris) (set_bytes qb) g
                      r w args passed,
                )
                | inr (x, refused) ↦
                    ground (arith, check_input_same e f p i j f.func_gas_cost checked)
              ]
          | inr (x, refused) ↦ ground arith
        ]

  pub create_needs_nonce :
      (fresh p : ℕ) (i : ContractCallInput) (token_id : Bytes) (rest : List Bytes) (x : Error)
      (w : World A D) (out : VmOutput)
      → i.arguments ≡ token_id ∷ rest
      → is_exec_on_dest_by_caller i.call_type ≡ false
      → get_latest_nonce e p token_id w ≡ err x
      → (process_nft_create e f fresh (some p) (some i) w).0 ≢ ok out
  unfolding process_nft_create account_with_roles
  create_needs_nonce fresh p i token_id rest x w out args own latest h =
      elim (Result-cases
        (check_dcdt_nft_create_burn_add_input e (some p) (some i) f.func_gas_cost)) [
          | inl (j, checked) ↦ ground (arith, check_input_same e f p i j f.func_gas_cost checked)
          | inr (y, refused) ↦ ground arith
        ]
