-- ===== src/Nft/Creation.antt =====
-- What the creation of a token leaves behind.
use k_chain_vm_common_go.Common.{
  ℕ, ◌+◌, ◌%◌, ◌^◌, ◌≤◌, ◌<◌, ◌≡◌, ◌≢◌, refl, sym, ◌∙◌, ap, ◌⊎◌, inl, inr, true, false, List, [],
  ◌∷◌, some, none, Bytes, arith, if◌then◌else◌,
}
use k_chain_vm_common_go.Common.Int.{ℤ, pos}
use k_chain_vm_common_go.Numbers.{u64_mod, set_bytes, to_u64, nat_bytes}
use k_chain_vm_common_go.Numbers.RoundTrip.{set_bytes-nat_bytes, set_bytes_nil}
use k_chain_vm_common_go.Errors.{ok, Result-cases}
use k_chain_vm_common_go.Exec.{Exec, pure, ◌>>=◌, bind-inv}
use k_chain_vm_common_go.Vm.{ContractCallInput, VmOutput, DigitalToken, is_exec_on_dest_by_caller}
use k_chain_vm_common_go.Env.{Env, World, dcdt_token_key, set_account}
use k_chain_vm_common_go.Env.Laws.{IsStore, IsMarshaller}
use k_chain_vm_common_go.Balance.{is_negative}
use k_chain_vm_common_go.Balance.Storage.{token_at, token_at-save_ne}
use k_chain_vm_common_go.Balance.Held.{held, value_of}
use k_chain_vm_common_go.Roles.{get_nonce_key, save_latest_nonce}
use k_chain_vm_common_go.TokenStorage.{compute_dcdt_nft_token_key}
use k_chain_vm_common_go.TokenStorage.Contract.{Holds-same_accounts, IsTokenStorage}
use k_chain_vm_common_go.Nft.{NftFunction}
use k_chain_vm_common_go.Nft.Create.{
  nonce_of, get_latest_nonce, persist, save_created, process_nft_create,
}
use k_chain_vm_common_go.Nft.CreationSteps.{created_token, create_went_on, create_needs_nonce}

module _ {A D : Type 0} (e : Env A D) (store : IsStore e) (marshaller : IsMarshaller e) where
  nonce_of_number :
      (n : ℕ) (b : Bytes) → set_bytes b ≡ n → n < u64_mod → nonce_of e (b, none) ≡ ok n
  unfolding to_u64
  nonce_of_number n [] number small = ap ok (sym set_bytes_nil ∙ number)
  nonce_of_number n (x ∷ xs) number small = ground arith

  -- The latest nonce is what was saved last.
  pub get_latest_nonce-save :
      (p : ℕ) (token_id : Bytes) (n : ℕ) (w : World A D)
      → n < u64_mod
      → (save_latest_nonce e p token_id n w).0 ≡ ok tt
      → get_latest_nonce e p token_id (save_latest_nonce e p token_id n w).1 ≡ ok n
  unfolding get_latest_nonce save_latest_nonce set_account
  get_latest_nonce-save p token_id n w small h = ground (
    arith,
    store.retrieve-save_self (w.accounts p) (get_nonce_key e.core token_id) (nat_bytes n),
    nonce_of_number n (nat_bytes n) (set_bytes-nat_bytes n) small,
  )

  -- Where the caller acts for itself, the creation has stored the token and its nonce.
  pub record Created (p : ℕ) (token_id : Bytes) (n : ℕ) (value : ℤ) (w w' : World A D)
      : Type 0 where
    pub now : held e w' p (compute_dcdt_nft_token_key (dcdt_token_key e.core token_id) n) ≡ value
    pub latest : get_latest_nonce e p token_id w' ≡ ok n
    pub others :
        (q : ℕ) (j : Bytes)
        → (q ≢ p) ⊎ (j ≢ compute_dcdt_nft_token_key (dcdt_token_key e.core token_id) n)
        → (q ≢ p) ⊎ (j ≢ get_nonce_key e.core token_id)
        → token_at e w' q j ≡ token_at e w q j

  module _ (f : NftFunction (World A D)) (laws : IsTokenStorage e f.storage) where
    save_created-Created :
        (i : ContractCallInput) (p : ℕ) (token_id : Bytes) (n : ℕ) (t : DigitalToken)
        (w : World A D)
        → is_exec_on_dest_by_caller i.call_type ≡ false
        → n < u64_mod
        → compute_dcdt_nft_token_key (dcdt_token_key e.core token_id) n
          ≢ get_nonce_key e.core token_id
        → is_negative t.value ≡ false
        → (save_created e f i p token_id n t w).0 ≡ ok tt
        → Created p token_id n t.value w (save_created e f i p token_id n t w).1
    unfolding save_created save_latest_nonce
    save_created-Created i p token_id n t w own small apart covered h =
        let k = dcdt_token_key e.core token_id in
        let key = compute_dcdt_nft_token_key k n in
        let a = e.address_bytes (w.accounts p) in
        let save = f.storage.save_dcdt_nft_token a p k n t true i.return_call_after_error in
        let liquidity = f.storage.add_to_liquidity_system_acc k n t.value in
        let note = save_latest_nonce e p token_id n in
        let last : Exec (World A D) (Unit {0}) =
          if is_exec_on_dest_by_caller i.call_type then persist e p else pure tt in
        let (b, saved, s1) = bind-inv save (λ _. liquidity >>= λ _. note >>= λ _. last) w tt h in
        let v = (save w).1 in
        let (_, added, s2) =
          bind-inv liquidity (λ _. note >>= λ _. last) v tt (ap (λ r. r.0) (sym s1) ∙ h) in
        let u = (liquidity v).1 in
        let (_, noted, s3) = bind-inv note (λ _. last) u tt (ap (λ r. r.0) (sym (s1 ∙ s2)) ∙ h) in
        let holds =
          Holds-same_accounts e p key t.value w v u (laws.keeps_accounts k n t.value v)
            (laws.saves a p k n t true i.return_call_after_error w b saved covered) in
        let end : last (note u).1 ≡ (ok tt, (note u).1) = rw own refl in
        rw (s1 ∙ s2 ∙ s3 ∙ end) (record {
          now =
              ap (value_of e) (
                token_at-save_ne e store marshaller p p (get_nonce_key e.core token_id) key
                  (nat_bytes n) u (inr apart))
              ∙ holds.now;
          latest = get_latest_nonce-save p token_id n u small noted;
          others = λ q j o o'.
              token_at-save_ne e store marshaller p q (get_nonce_key e.core token_id) j
                (nat_bytes n) u o'
              ∙ holds.others q j o;
        })

    -- A creation that succeeds, not called on a destination by its caller and where no key of the
    -- token is the key of its nonce, was called by an account on itself that has the create role,
    -- with a quantity that is not 0 and royalties within the bound. The nonce of the new token is the
    -- latest nonce and one, as uint64; the account then holds the quantity of it, that nonce is the
    -- latest one and is returned, and no other token has changed.
    pub nft_create_effect :
        (fresh p : ℕ) (i : ContractCallInput) (token_id qb name rb hash attributes : Bytes)
        (uris : List Bytes) (w : World A D) (out : VmOutput)
        → i.arguments ≡ token_id ∷ qb ∷ name ∷ rb ∷ hash ∷ attributes ∷ uris
        → is_exec_on_dest_by_caller i.call_type ≡ false
        → ((n : ℕ)
            → compute_dcdt_nft_token_key (dcdt_token_key e.core token_id) n
              ≢ get_nonce_key e.core token_id)
        → (process_nft_create e f fresh (some p) (some i) w).0 ≡ ok out
        → (i.caller_addr ≡ i.recipient_addr)
          × (f.roles.check_allowed_to_execute w (some p) token_id e.dcdt_role_nft_create ≡ ok tt)
          × (set_bytes qb ≢ 0)
          × (to_u64 (set_bytes rb) % 2 ^ 32 ≤ e.max_royalty)
          × ((nonce : ℕ) × (get_latest_nonce e p token_id w ≡ ok nonce)
              × (out.return_data ≡ nat_bytes ((nonce + 1) % u64_mod) ∷ [])
              × Created p token_id
                  ((nonce + 1) % u64_mod)
                  (pos (set_bytes qb))
                  w
                  (process_nft_create e f fresh (some p) (some i) w).1)
    nft_create_effect fresh p i token_id qb name rb hash attributes uris w out args own apart h =
        elim (Result-cases (get_latest_nonce e p token_id w)) [
          | inl (nonce, latest) ↦
              let n = (nonce + 1) % u64_mod in
              let t = created_token e f i.caller_addr qb name rb hash attributes uris n in
              let (self, role, some_quantity, royalties, saved, last, returned) =
                create_went_on e f fresh p i token_id qb name rb hash attributes uris nonce w out
                  args own latest h in
              (
                self,
                role,
                some_quantity,
                royalties,
                (
                  nonce,
                  latest,
                  returned,
                  rw last (
                      save_created-Created i p token_id n t w own (omega arith) (apart n) refl
                        saved),
                ),
              )
          | inr (x, refused) ↦ absurd (
              create_needs_nonce e f fresh p i token_id (qb ∷ name ∷ rb ∷ hash ∷ attributes ∷ uris)
                x w out args own refused h)
        ]
