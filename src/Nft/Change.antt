-- ===== src/Nft/Change.antt =====
-- updateNFTAttributes.go and dcdtNFTAddUri.go: the metadata of a token, and what is held of it.
use k_chain_vm_common_go.Common.{
  ℕ, ◌+◌, ◌%◌, ◌*◌, ◌≤◌, ◌≡◌, ◌≢◌, sym, ◌∙◌, ap, inl, inr, true, false, List, [], ◌∷◌, ◌++◌, some,
  Option-cases, Bytes, arith, length,
}
use k_chain_vm_common_go.Numbers.{u64_mod, set_bytes, to_u64}
use k_chain_vm_common_go.Errors.{ok, Result-cases}
use k_chain_vm_common_go.Vm.{ContractCallInput, VmOutput, DigitalToken, MetaData}
use k_chain_vm_common_go.Env.{Env, World, dcdt_token_key}
use k_chain_vm_common_go.Balance.{is_negative}
use k_chain_vm_common_go.Balance.Held.{held}
use k_chain_vm_common_go.TokenStorage.{compute_dcdt_nft_token_key}
use k_chain_vm_common_go.TokenStorage.Contract.{Holds, IsTokenStorage}
use k_chain_vm_common_go.Nft.{NftFunction, check_dcdt_nft_create_burn_add_input}
use k_chain_vm_common_go.Nft.Steps.{check_input_same}
use k_chain_vm_common_go.Nft.Data.{
  change_meta_data, save_changed_meta_data, get_gas_cost_for_uri_store,
  process_nft_update_attributes, process_nft_add_uri,
}

module _ {A D : Type 0} (e : Env A D) (f : NftFunction (World A D)) where
  change_meta_data-value :
      (change : MetaData → MetaData) (t t' : DigitalToken)
      → change_meta_data change t ≡ ok t'
      → t'.value ≡ t.value
  change_meta_data-value change t t' h = ground arith

  -- A change that succeeds has read a token with metadata, and saved it again as its last step.
  save_changed-steps :
      (p : ℕ) (i : ContractCallInput) (token_id nb : Bytes) (rest : List Bytes) (cost : ℕ)
      (change : MetaData → MetaData) (w : World A D) (gn : ℕ × ℕ)
      → i.arguments ≡ token_id ∷ nb ∷ rest
      → (save_changed_meta_data e f (some p) i token_id cost change w).0 ≡ ok gn
      → let k = dcdt_token_key e.core token_id in
        let n = to_u64 (set_bytes nb) in
        (t : DigitalToken) × (t' : DigitalToken) × (b : Bytes)
        × (f.storage.get_dcdt_nft_token_on_sender w p k n ≡ ok t)
        × (change_meta_data change t ≡ ok t')
        × (let save =
              f.storage.save_dcdt_nft_token
                (e.address_bytes (w.accounts p))
                p
                k
                n
                t'
                true
                i.return_call_after_error
                w in
            (save.0 ≡ ok b)
            × ((save_changed_meta_data e f (some p) i token_id cost change w).1 ≡ save.1)
            × (n ≢ 0)
            × ((f.func_gas_cost + cost) % u64_mod ≤ i.gas_provided))
  unfolding save_changed_meta_data
  save_changed-steps p i token_id nb rest cost change w gn args h =
      let k = dcdt_token_key e.core token_id in
      let n = to_u64 (set_bytes nb) in
      elim (Result-cases (f.storage.get_dcdt_nft_token_on_sender w p k n)) [
        | inl (t, read) ↦ elim (Result-cases (change_meta_data change t)) [
          | inl (t', changed) ↦
              elim (Result-cases
                (f.storage.save_dcdt_nft_token (e.address_bytes (w.accounts p)) p k n t' true
                  i.return_call_after_error w).0) [
                    | inl (b, saved) ↦ (t, t', b, read, changed, ground arith)
                    | inr (x, refused) ↦ absurd (ground arith)
                  ]
          | inr (x, fails) ↦ absurd (ground arith)
        ]
        | inr (x, fails) ↦ absurd (ground arith)
      ]

  update_steps :
      (p : ℕ) (i : ContractCallInput) (token_id nb attributes : Bytes) (w : World A D)
      (out : VmOutput)
      → i.arguments ≡ token_id ∷ nb ∷ attributes ∷ []
      → (process_nft_update_attributes e f (some p) (some i) w).0 ≡ ok out
      → let change =
          save_changed_meta_data e f
            (some p)
            i
            token_id
            (length attributes * f.gas_config.store_per_byte % u64_mod)
            (λ m. record m { attributes = attributes }) in
        ((g : ℕ × ℕ) × ((change w).0 ≡ ok g))
        × ((process_nft_update_attributes e f (some p) (some i) w).1 ≡ (change w).1)
        × (i.caller_addr ≡ i.recipient_addr)
        × (f.roles.check_allowed_to_execute w (some p) token_id e.dcdt_role_nft_update_attributes
            ≡ ok tt)
  unfolding process_nft_update_attributes
  update_steps p i token_id nb attributes w out args h =
      elim (Result-cases
        (check_dcdt_nft_create_burn_add_input e (some p) (some i) f.func_gas_cost)) [
          | inl (j, checked) ↦
              elim (Result-cases
                (save_changed_meta_data e f (some p) i token_id
                  (length attributes * f.gas_config.store_per_byte % u64_mod)
                  (λ m. record m { attributes = attributes }) w).0) [
                    | inl done ↦
                        let (same, own, _) = check_input_same e f p i j f.func_gas_cost checked in
                        (done, ground (arith, same), own, ground (arith, same))
                    | inr (x, fails) ↦
                        absurd (ground (arith, check_input_same e f p i j f.func_gas_cost checked))
                  ]
          | inr (x, refused) ↦ absurd (ground arith)
        ]

  add_uri_steps :
      (p : ℕ) (i : ContractCallInput) (token_id nb uri : Bytes) (uris : List Bytes) (w : World A D)
      (out : VmOutput)
      → i.arguments ≡ token_id ∷ nb ∷ uri ∷ uris
      → (process_nft_add_uri e f (some p) (some i) w).0 ≡ ok out
      → let change =
          save_changed_meta_data e f
            (some p)
            i
            token_id
            (get_gas_cost_for_uri_store e f i)
            (λ m. record m { uris = m.uris ++ (uri ∷ uris) }) in
        ((g : ℕ × ℕ) × ((change w).0 ≡ ok g))
        × ((process_nft_add_uri e f (some p) (some i) w).1 ≡ (change w).1)
        × (i.caller_addr ≡ i.recipient_addr)
        × (f.roles.check_allowed_to_execute w (some p) token_id e.dcdt_role_nft_add_uri ≡ ok tt)
  unfolding process_nft_add_uri
  add_uri_steps p i token_id nb uri uris w out args h =
      elim (Result-cases
        (check_dcdt_nft_create_burn_add_input e (some p) (some i) f.func_gas_cost)) [
          | inl (j, checked) ↦
              elim (Result-cases
                (save_changed_meta_data e f (some p) i token_id (get_gas_cost_for_uri_store e f i)
                  (λ m. record m { uris = m.uris ++ (uri ∷ uris) }) w).0) [
                    | inl done ↦
                        let (same, own, _) = check_input_same e f p i j f.func_gas_cost checked in
                        (done, ground (arith, same), own, ground (arith, same))
                    | inr (x, fails) ↦
                        absurd (ground (arith, check_input_same e f p i j f.func_gas_cost checked))
                  ]
          | inr (x, refused) ↦ absurd (ground arith)
        ]

  -- What the storage was given to save: the token that it had read, with its metadata changed.
  pub record SavedChanged (change : MetaData → MetaData) (p : ℕ) (i : ContractCallInput) (k : Bytes)
      (n : ℕ) (w w' : World A D) : Type 0 where
    pub before : DigitalToken
    pub meta : MetaData
    pub read : f.storage.get_dcdt_nft_token_on_sender w p k n ≡ ok before
    pub had : before.token_meta_data ≡ some meta
    pub written :
        w'
        ≡ (f.storage.save_dcdt_nft_token
            (e.address_bytes (w.accounts p))
            p
            k
            n
            (record before { token_meta_data = some (change meta) })
            true
            i.return_call_after_error
            w).1

  change_meta_data-some :
      (change : MetaData → MetaData) (t t' : DigitalToken)
      → change_meta_data change t ≡ ok t'
      → (m : MetaData) × (t.token_meta_data ≡ some m)
        × (record t { token_meta_data = some (change m) } ≡ t')
  change_meta_data-some change t t' h = elim (Option-cases t.token_meta_data) [
    | inl nothing ↦ absurd (ground arith)
    | inr (m, had) ↦ (m, had, ground arith)
  ]

  module _ (laws : IsTokenStorage e f.storage) where
    -- A change of the metadata saves the value that was read.
    save_changed-Holds :
        (p : ℕ) (i : ContractCallInput) (token_id nb : Bytes) (rest : List Bytes) (cost : ℕ)
        (change : MetaData → MetaData) (w w' : World A D) (gn : ℕ × ℕ)
        → let key =
            compute_dcdt_nft_token_key (dcdt_token_key e.core token_id) (to_u64 (set_bytes nb)) in
          i.arguments ≡ token_id ∷ nb ∷ rest
          → is_negative (held e w p key) ≡ false
          → (save_changed_meta_data e f (some p) i token_id cost change w).0 ≡ ok gn
          → w' ≡ (save_changed_meta_data e f (some p) i token_id cost change w).1
          → (to_u64 (set_bytes nb) ≢ 0)
            × SavedChanged change p i (dcdt_token_key e.core token_id) (to_u64 (set_bytes nb)) w w'
            × Holds e p key (held e w p key) w w'
    save_changed-Holds p i token_id nb rest cost change w w' gn args covered h last =
        let k = dcdt_token_key e.core token_id in
        let n = to_u64 (set_bytes nb) in
        let (t, t', b, read, changed, (saved, same, some_nonce, _)) =
          save_changed-steps p i token_id nb rest cost change w gn args h in
        let value : t'.value ≡ held e w p (compute_dcdt_nft_token_key k n) =
          change_meta_data-value change t t' changed ∙ sym (laws.reads_held w p k n t read) in
        let holds =
          laws.saves (e.address_bytes (w.accounts p)) p k n t' true i.return_call_after_error w b
            saved (ap is_negative value ∙ covered) in
        let (m, had, written) = change_meta_data-some change t t' changed in
        (
          some_nonce,
          record {
            before = t;
            meta = m;
            read = read;
            had = had;
            written = rw written (last ∙ same);
          },
          rw (last, same) (rw value at holds),
        )

    -- An update of the attributes that succeeds was called by an account on itself that has the role
    -- for it, for a nonce that is not 0. The token that was read is saved with the new attributes and
    -- is otherwise the same; it changes neither what the account holds of the token,
    -- if that is not negative, nor any other token.
    pub nft_update_attributes_effect :
        (p : ℕ) (i : ContractCallInput) (token_id nb attributes : Bytes) (w : World A D)
        (out : VmOutput)
        → let n = to_u64 (set_bytes nb) in
          let key = compute_dcdt_nft_token_key (dcdt_token_key e.core token_id) n in
          let w' = (process_nft_update_attributes e f (some p) (some i) w).1 in
          i.arguments ≡ token_id ∷ nb ∷ attributes ∷ []
          → is_negative (held e w p key) ≡ false
          → (process_nft_update_attributes e f (some p) (some i) w).0 ≡ ok out
          → (i.caller_addr ≡ i.recipient_addr)
            × (f.roles.check_allowed_to_execute w
                  (some p)
                  token_id
                  e.dcdt_role_nft_update_attributes
                ≡ ok tt)
            × (n ≢ 0)
            × SavedChanged
                (λ m. record m { attributes = attributes })
                p
                i
                (dcdt_token_key e.core token_id)
                n
                w
                w'
            × Holds e p key (held e w p key) w w'
    nft_update_attributes_effect p i token_id nb attributes w out args covered h =
        let ((gn, done), last, own, role) = update_steps p i token_id nb attributes w out args h in
        let (some_nonce, saved, holds) =
          save_changed-Holds p i token_id nb (attributes ∷ [])
            (length attributes * f.gas_config.store_per_byte % u64_mod)
            (λ m. record m { attributes = attributes }) w
            (process_nft_update_attributes e f (some p) (some i) w).1 gn args covered done last in
        (own, role, some_nonce, saved, holds)

    -- An addition of URIs that succeeds was called by an account on itself that has the role for it,
    -- for a nonce that is not 0. The token that was read is saved with the URIs appended and is
    -- otherwise the same; it changes neither what the account holds of the token, if that is
    -- not negative, nor any other token.
    pub nft_add_uri_effect :
        (p : ℕ) (i : ContractCallInput) (token_id nb uri : Bytes) (uris : List Bytes)
        (w : World A D) (out : VmOutput)
        → let n = to_u64 (set_bytes nb) in
          let key = compute_dcdt_nft_token_key (dcdt_token_key e.core token_id) n in
          let w' = (process_nft_add_uri e f (some p) (some i) w).1 in
          i.arguments ≡ token_id ∷ nb ∷ uri ∷ uris
          → is_negative (held e w p key) ≡ false
          → (process_nft_add_uri e f (some p) (some i) w).0 ≡ ok out
          → (i.caller_addr ≡ i.recipient_addr)
            × (f.roles.check_allowed_to_execute w (some p) token_id e.dcdt_role_nft_add_uri ≡ ok tt)
            × (n ≢ 0)
            × SavedChanged
                (λ m. record m { uris = m.uris ++ (uri ∷ uris) })
                p
                i
                (dcdt_token_key e.core token_id)
                n
                w
                w'
            × Holds e p key (held e w p key) w w'
    nft_add_uri_effect p i token_id nb uri uris w out args covered h =
        let ((gn, done), last, own, role) = add_uri_steps p i token_id nb uri uris w out args h in
        let (some_nonce, saved, holds) =
          save_changed-Holds p i token_id nb (uri ∷ uris) (get_gas_cost_for_uri_store e f i)
            (λ m. record m { uris = m.uris ++ (uri ∷ uris) }) w
            (process_nft_add_uri e f (some p) (some i) w).1 gn args covered done last in
        (own, role, some_nonce, saved, holds)
