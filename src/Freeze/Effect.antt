-- ===== src/Freeze/Effect.antt =====
-- What freezing, unfreezing and wiping do to the tokens, and to later changes of them.
use k_chain_vm_common_go.Common.{
  ℕ, ◌≡◌, ◌≢◌, sym, ◌∙◌, ◌⊎◌, inl, inr, Bool, true, false, [], ◌∷◌, some, Bytes, arith,
  bytes_equal_iff,
}
use k_chain_vm_common_go.Common.Int.{ℤ}
use k_chain_vm_common_go.Errors.{ok, err, Result-cases, dcdt_is_frozen_for_account}
use k_chain_vm_common_go.Vm.{ContractCallInput, VmOutput, DigitalToken}
use k_chain_vm_common_go.Env.{Env, World, dcdt_token_key}
use k_chain_vm_common_go.Env.Laws.{IsStore, IsMarshaller}
use k_chain_vm_common_go.Interfaces.{SettingsHandler}
use k_chain_vm_common_go.Metadata.{user_metadata_from_bytes, user_metadata_to_bytes}
use k_chain_vm_common_go.Balance.{
  are_properties_empty, save_dcdt_data, check_froze_and_pause, add_to_dcdt_balance,
}
use k_chain_vm_common_go.Balance.Storage.{token_at, stored, token_at-save_dcdt_data}
use k_chain_vm_common_go.Balance.Update.{save_dcdt_data-others, address-save_dcdt_data}
use k_chain_vm_common_go.Freeze.{FreezeWipeFunction, toggle_freeze, process_freeze_wipe}

-- The account's frozen flag for a token.
abbrev pub is_frozen : DigitalToken → Bool
is_frozen t = (user_metadata_from_bytes t.properties).frozen

-- A token with its frozen flag set as asked.
abbrev pub with_frozen : Bool → DigitalToken → DigitalToken
with_frozen b t = record t { properties = user_metadata_to_bytes (record { frozen = b }) }

module _ {A D : Type 0} (e : Env A D) (f : FreezeWipeFunction (World A D)) where
  -- What the token that is stored after a toggle shows.
  stored-with_frozen :
      (b : Bool) (t : DigitalToken)
      → ((stored e (with_frozen b t)).value ≡ t.value)
        × (is_frozen (stored e (with_frozen b t)) ≡ b)
  unfolding user_metadata_from_bytes user_metadata_to_bytes are_properties_empty
  stored-with_frozen true t = ground arith
  stored-with_frozen false t = ground arith

  type-with_frozen :
      (b : Bool) (t : DigitalToken)
      → t.token_type ≡ e.fungible
      → (stored e (with_frozen b t)).token_type ≡ e.fungible
  type-with_frozen b t h = ground arith

  freeze_steps :
      (dst : ℕ) (i : ContractCallInput) (token_id : Bytes) (w : World A D) (out : VmOutput)
      → f.wipe ≡ false
      → i.arguments ≡ token_id ∷ []
      → (process_freeze_wipe e f (some dst) (some i) w).0 ≡ ok out
      → let key = dcdt_token_key e.core token_id in
        (i.caller_addr ≡ e.dcdt_sc_address)
        × ((t : DigitalToken) × (token_at e w dst key ≡ ok t)
            × ((save_dcdt_data e dst (with_frozen f.freeze t) key w).0 ≡ ok tt)
            × ((process_freeze_wipe e f (some dst) (some i) w).1
                ≡ (save_dcdt_data e dst (with_frozen f.freeze t) key w).1))
  unfolding process_freeze_wipe toggle_freeze
  freeze_steps dst i token_id w out toggles args h =
      elim (Result-cases (token_at e w dst (dcdt_token_key e.core token_id))) [
        | inl (t, found) ↦ (
          ground (arith, bytes_equal_iff i.caller_addr e.dcdt_sc_address),
          (t, found, ground arith, ground arith),
        )
        | inr (x, missing) ↦ absurd (ground arith)
      ]

  -- Freezing or unfreezing that succeeds is called by the system contract, sets the frozen flag of
  -- that token of that account as asked with its value kept, and changes no other token.
  pub freeze_effect :
      (store : IsStore e) (marshaller : IsMarshaller e) (dst : ℕ) (i : ContractCallInput)
      (token_id : Bytes) (w : World A D) (out : VmOutput)
      → f.wipe ≡ false
      → i.arguments ≡ token_id ∷ []
      → (process_freeze_wipe e f (some dst) (some i) w).0 ≡ ok out
      → let w' = (process_freeze_wipe e f (some dst) (some i) w).1 in
        let key = dcdt_token_key e.core token_id in
        (i.caller_addr ≡ e.dcdt_sc_address)
        × ((before : DigitalToken) × (after : DigitalToken) × (token_at e w dst key ≡ ok before)
            × (token_at e w' dst key ≡ ok after)
            × (is_frozen after ≡ f.freeze)
            × (after.value ≡ before.value))
        × ((q : ℕ) (j : Bytes) → (q ≢ dst) ⊎ (j ≢ key) → token_at e w' q j ≡ token_at e w q j)
  freeze_effect store marshaller dst i token_id w out toggles args h =
      let key = dcdt_token_key e.core token_id in
      let (caller, (t, found, saved, same)) = freeze_steps dst i token_id w out toggles args h in
      let t' = with_frozen f.freeze t in
      let (value, flag) = stored-with_frozen f.freeze t in
      (
        caller,
        (
          t,
          stored e t',
          found,
          rw same (token_at-save_dcdt_data e store marshaller dst t' key w saved),
          flag,
          value,
        ),
        λ q j o. rw same (save_dcdt_data-others e store marshaller dst q t' key j w o),
      )

  frozen_refuses :
      (settings : SettingsHandler (World A D)) (p : ℕ) (key : Bytes) (value : ℤ) (w : World A D)
      (t : DigitalToken)
      → token_at e w p key ≡ ok t
      → t.token_type ≡ e.fungible
      → is_frozen t ≡ true
      → e.address_bytes (w.accounts p) ≢ e.dcdt_sc_address
      → add_to_dcdt_balance e p key value settings false w ≡ (err dcdt_is_frozen_for_account, w)
  unfolding add_to_dcdt_balance check_froze_and_pause
  frozen_refuses settings p key value w t found fungible frozen other =
      ground (arith, bytes_equal_iff (e.address_bytes (w.accounts p)) e.dcdt_sc_address)

  -- After a freeze that succeeds, every change of that fungible balance, of an account other than
  -- the system contract and not on the way back from an error, is refused as frozen and changes
  -- nothing.
  pub frozen_account_refuses :
      (store : IsStore e) (marshaller : IsMarshaller e) (settings : SettingsHandler (World A D))
      (dst : ℕ) (i : ContractCallInput) (token_id : Bytes) (value : ℤ) (w : World A D)
      (out : VmOutput) (t : DigitalToken)
      → f.wipe ≡ false
      → f.freeze ≡ true
      → i.arguments ≡ token_id ∷ []
      → token_at e w dst (dcdt_token_key e.core token_id) ≡ ok t
      → t.token_type ≡ e.fungible
      → e.address_bytes (w.accounts dst) ≢ e.dcdt_sc_address
      → (process_freeze_wipe e f (some dst) (some i) w).0 ≡ ok out
      → let w' = (process_freeze_wipe e f (some dst) (some i) w).1 in
        add_to_dcdt_balance e dst (dcdt_token_key e.core token_id) value settings false w'
        ≡ (err dcdt_is_frozen_for_account, w')
  frozen_account_refuses store marshaller settings dst i token_id value w out t toggles freezes args
        here fungible other h =
      let key = dcdt_token_key e.core token_id in
      let (_, (u, found, saved, same)) = freeze_steps dst i token_id w out toggles args h in
      let u' = with_frozen f.freeze u in
      rw same (
        frozen_refuses settings dst key value (save_dcdt_data e dst u' key w).1 (stored e u')
          (token_at-save_dcdt_data e store marshaller dst u' key w saved)
          (type-with_frozen f.freeze u (ground arith)) ((stored-with_frozen f.freeze u).1 ∙ freezes)
          (λ p. other (sym (address-save_dcdt_data e store marshaller dst dst u' key w) ∙ p)))
