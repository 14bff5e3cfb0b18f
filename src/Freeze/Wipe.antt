-- ===== src/Freeze/Wipe.antt =====
-- What a wipe does to the tokens.
use k_chain_vm_common_go.Common.{
  ℕ, ◌≡◌, ◌≢◌, refl, ◌∙◌, ap, ◌⊎◌, inl, inr, true, [], ◌∷◌, some, Bytes, arith, bytes_equal_iff,
  Bool-cases,
}
use k_chain_vm_common_go.Common.Int.{ℤ, pos, ◌-ℤ◌}
use k_chain_vm_common_go.Errors.{ok, Result-cases}
use k_chain_vm_common_go.Vm.{ContractCallInput, VmOutput, DigitalToken}
use k_chain_vm_common_go.Env.{Env, World, dcdt_token_key, wipe_single_nft_liquidity_decrease_flag}
use k_chain_vm_common_go.Env.Laws.{IsStore, IsMarshaller}
use k_chain_vm_common_go.Logs.{extract_token_identifier_and_nonce_dcdt_wipe}
use k_chain_vm_common_go.Balance.{new_token, get_dcdt_data_from_key, save_at}
use k_chain_vm_common_go.Balance.Storage.{token_at, token_at-save_nil, token_at-save_ne}
use k_chain_vm_common_go.Freeze.{
  FreezeWipeFunction, remove_liquidity, wipe_if_applicable, process_freeze_wipe,
}
use k_chain_vm_common_go.Freeze.Effect.{is_frozen}

-- The identifier and the nonce in the argument of a wipe.
abbrev wiped_id : Bytes → Bytes × ℕ
wiped_id = extract_token_identifier_and_nonce_dcdt_wipe

module _ {A D : Type 0} (e : Env A D) (f : FreezeWipeFunction (World A D)) where
  accounts-remove_liquidity :
      (identifier : Bytes) (nonce : ℕ) (value : ℤ) (v : World A D)
      → ((key : Bytes) (n : ℕ) (x : ℤ) (u : World A D)
          → (f.dcdt_storage_handler.add_to_liquidity_system_acc key n x u).1.accounts ≡ u.accounts)
      → (remove_liquidity e f identifier nonce value v).1.accounts ≡ v.accounts
  unfolding remove_liquidity
  accounts-remove_liquidity identifier nonce value v keeps =
      elim (Bool-cases (e.is_flag_enabled wipe_single_nft_liquidity_decrease_flag)) [
        | inl on ↦ rw on (keeps (dcdt_token_key e.core identifier) nonce (pos 0 -ℤ value) v)
        | inr off ↦ rw off refl
      ]

  wipe_steps :
      (dst : ℕ) (i : ContractCallInput) (token_id : Bytes) (w : World A D) (out : VmOutput)
      → ((key : Bytes) (nonce : ℕ) (value : ℤ) (v : World A D)
          → (f.dcdt_storage_handler.add_to_liquidity_system_acc key nonce value v).1.accounts
            ≡ v.accounts)
      → f.wipe ≡ true
      → i.arguments ≡ token_id ∷ []
      → (process_freeze_wipe e f (some dst) (some i) w).0 ≡ ok out
      → let key = dcdt_token_key e.core token_id in
        (i.caller_addr ≡ e.dcdt_sc_address)
        × ((t : DigitalToken) × (token_at e w dst key ≡ ok t)
            × (is_frozen t ≡ true)
            × ((save_at e dst key [] w).0 ≡ ok tt)
            × ((process_freeze_wipe e f (some dst) (some i) w).1.accounts
                ≡ (save_at e dst key [] w).1.accounts))
  unfolding process_freeze_wipe wipe_if_applicable
  wipe_steps dst i token_id w out keeps wipes args h =
      elim (Result-cases (token_at e w dst (dcdt_token_key e.core token_id))) [
        | inl (t, found) ↦ (
          ground (arith, bytes_equal_iff i.caller_addr e.dcdt_sc_address),
          (
            t,
            found,
            ground arith,
            ground arith,
            ap (λ (v : World A D). v.accounts) (removed t found)
                ∙ accounts-remove_liquidity (wiped_id token_id).0 (wiped_id token_id).1 t.value
                    (save_at e dst (dcdt_token_key e.core token_id) [] w).1 keeps,
          ),
        )
        | inr (x, missing) ↦ absurd (ground arith)
      ]
    where
      removed :
          (t : DigitalToken)
          → token_at e w dst (dcdt_token_key e.core token_id) ≡ ok t
          → (process_freeze_wipe e f (some dst) (some i) w).1
            ≡ (remove_liquidity e f
                (wiped_id token_id).0
                (wiped_id token_id).1
                t.value
                (save_at e dst (dcdt_token_key e.core token_id) [] w).1).1
      removed t found = ground arith

  -- A wipe that succeeds, by a storage handler that leaves the accounts at hand alone, is called by
  -- the system contract, finds the token frozen, leaves a new token with no value and not frozen in
  -- its place, and changes no other token.
  pub wipe_effect :
      (store : IsStore e) (marshaller : IsMarshaller e) (dst : ℕ) (i : ContractCallInput)
      (token_id : Bytes) (w : World A D) (out : VmOutput)
      → ((key : Bytes) (nonce : ℕ) (value : ℤ) (v : World A D)
          → (f.dcdt_storage_handler.add_to_liquidity_system_acc key nonce value v).1.accounts
            ≡ v.accounts)
      → f.wipe ≡ true
      → i.arguments ≡ token_id ∷ []
      → (process_freeze_wipe e f (some dst) (some i) w).0 ≡ ok out
      → let w' = (process_freeze_wipe e f (some dst) (some i) w).1 in
        let key = dcdt_token_key e.core token_id in
        (i.caller_addr ≡ e.dcdt_sc_address)
        × ((before : DigitalToken) × (token_at e w dst key ≡ ok before) × (is_frozen before ≡ true))
        × (token_at e w' dst key ≡ ok (new_token e))
        × ((q : ℕ) (j : Bytes) → (q ≢ dst) ⊎ (j ≢ key) → token_at e w' q j ≡ token_at e w q j)
  wipe_effect store marshaller dst i token_id w out keeps wipes args h =
      let key = dcdt_token_key e.core token_id in
      let (caller, (t, found, frozen, saved, same)) =
        wipe_steps dst i token_id w out keeps wipes args h in
      (
        caller,
        (t, found, frozen),
        ap (λ (accs : ℕ → A). get_dcdt_data_from_key e (accs dst) key) same
            ∙ token_at-save_nil e store marshaller dst key w saved,
        λ q j o.
            ap (λ (accs : ℕ → A). get_dcdt_data_from_key e (accs q) j) same
            ∙ token_at-save_ne e store marshaller dst q key j [] w o,
      )
