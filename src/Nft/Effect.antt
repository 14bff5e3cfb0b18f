-- ===== src/Nft/Effect.antt =====
-- What burning a quantity of a token and adding one to it do to what is held.
use k_chain_vm_common_go.Common.{
  ℕ, ◌+◌, ◌<◌, ◌≡◌, ◌≢◌, sym, ◌∙◌, ap, ◌⊎◌, inl, inr, true, false, List, ◌∷◌, some, Bytes, arith,
}
use k_chain_vm_common_go.Common.Int.{ℤ, pos, ◌+ℤ◌, ◌-ℤ◌, int_laws}
use k_chain_vm_common_go.Numbers.{u64_mod, set_bytes, to_u64}
use k_chain_vm_common_go.Numbers.RoundTrip.{sub_u64-eq}
use k_chain_vm_common_go.Errors.{ok_ne_err, ok, Result-cases}
use k_chain_vm_common_go.Exec.{bind-inv}
use k_chain_vm_common_go.Vm.{ContractCallInput, VmOutput, DigitalToken}
use k_chain_vm_common_go.Env.{Env, World, dcdt_token_key}
use k_chain_vm_common_go.Balance.{is_negative}
use k_chain_vm_common_go.Balance.Held.{held}
use k_chain_vm_common_go.TokenStorage.{compute_dcdt_nft_token_key}
use k_chain_vm_common_go.TokenStorage.Contract.{Holds, Holds-same_accounts, IsTokenStorage}
use k_chain_vm_common_go.Nft.{NftFunction}
use k_chain_vm_common_go.Nft.Quantity.{
  is_allowed_to_burn_nft, change_quantity, check_nft_burn, process_nft_burn, check_nft_add_quantity,
  process_nft_add_quantity,
}
use k_chain_vm_common_go.Nft.Steps.{
  Checked, burn-Checked, add-Checked, burn_went_on, add_went_on, burn_refused, add_refused,
}

minus : (a b : ℤ) → a +ℤ (pos 0 -ℤ b) ≡ a -ℤ b
minus a b = omega int_laws

module _ {A D : Type 0} (e : Env A D) (f : NftFunction (World A D)) where
  module _ (laws : IsTokenStorage e f.storage) where
    change_quantity-Holds :
        (snd : ℕ) (i : ContractCallInput) (key : Bytes) (n : ℕ) (t : DigitalToken) (v : ℤ)
        (w : World A D)
        → (change_quantity e f snd i key n t v w).0 ≡ ok tt
        → is_negative (t.value +ℤ v) ≡ false
        → Holds e snd
            (compute_dcdt_nft_token_key key n)
            (t.value +ℤ v)
            w
            (change_quantity e f snd i key n t v w).1
    unfolding change_quantity
    change_quantity-Holds snd i key n t v w h covered =
        let t' : DigitalToken = record t { value = t.value +ℤ v } in
        let a = e.address_bytes (w.accounts snd) in
        let save = f.storage.save_dcdt_nft_token a snd key n t' false i.return_call_after_error in
        let record_it = f.storage.add_to_liquidity_system_acc key n v in
        let (b, saved, went_on) = bind-inv save (λ _. record_it) w tt h in
        let holds = laws.saves a snd key n t' false i.return_call_after_error w b saved covered in
        let same = laws.keeps_accounts key n v (save w).1 in
        rw went_on (
          Holds-same_accounts e snd (compute_dcdt_nft_token_key key n) (t.value +ℤ v) w (save w).1
            (record_it (save w).1).1 same holds)

    -- The change in terms of what was held before it.
    change_quantity-held :
        (p : ℕ) (i : ContractCallInput) (token_id : Bytes) (n : ℕ) (t : DigitalToken) (v : ℤ)
        (w w' : World A D)
        → let k = dcdt_token_key e.core token_id in
          let key = compute_dcdt_nft_token_key k n in
          Checked e f i p token_id n t w
          → (change_quantity e f p i k n t v w).0 ≡ ok tt
          → w' ≡ (change_quantity e f p i k n t v w).1
          → is_negative (t.value +ℤ v) ≡ false
          → (is_negative (held e w p key +ℤ v) ≡ false) × Holds e p key (held e w p key +ℤ v) w w'
    change_quantity-held p i token_id n t v w w' c changed last covered =
        let k = dcdt_token_key e.core token_id in
        let had = laws.reads_held w p k n t c.read in
        rw (had, last) (covered, change_quantity-Holds p i k n t v w changed covered)

    may_burn :
        (p : ℕ) (token_id : Bytes) (w : World A D)
        → is_allowed_to_burn_nft e f (some p) token_id w ≡ ok tt
        → (f.settings.is_burn_for_all w (dcdt_token_key e.core token_id) ≡ true)
          ⊎ (f.roles.check_allowed_to_execute w (some p) token_id e.dcdt_role_nft_burn ≡ ok tt)
    unfolding is_allowed_to_burn_nft
    may_burn p token_id w h = ground arith

    -- A burn that succeeds was called by an account on itself, for a token that is set to be burned
    -- by all or with an account that has the burn role for it, with a nonce that is not 0 and the
    -- gas; it takes exactly the quantity of its third argument from what the
    -- account holds of the token with that nonce, which was as much, and changes no other token.
    pub nft_burn_effect :
        (p : ℕ) (i : ContractCallInput) (token_id nb qb : Bytes) (rest : List Bytes) (w : World A D)
        (out : VmOutput)
        → i.arguments ≡ token_id ∷ nb ∷ qb ∷ rest
        → i.gas_provided < u64_mod
        → (process_nft_burn e f (some p) (some i) w).0 ≡ ok out
        → let n = to_u64 (set_bytes nb) in
          let key = compute_dcdt_nft_token_key (dcdt_token_key e.core token_id) n in
          let left = held e w p key +ℤ (pos 0 -ℤ pos (set_bytes qb)) in
          (i.caller_addr ≡ i.recipient_addr)
          × (n ≢ 0)
          × ((f.settings.is_burn_for_all w (dcdt_token_key e.core token_id) ≡ true)
              ⊎ (f.roles.check_allowed_to_execute w (some p) token_id e.dcdt_role_nft_burn ≡ ok tt))
          × (is_negative left ≡ false)
          × Holds e p key left w (process_nft_burn e f (some p) (some i) w).1
          × (out.gas_remaining + f.func_gas_cost ≡ i.gas_provided)
    nft_burn_effect p i token_id nb qb rest w out args b h =
        elim (Result-cases (check_nft_burn e f (some p) (some i) w).0) [
          | inl ((i', p', k, n', t, q), checked) ↦
              let (_, _, _, _, _, _, c, may, covered) =
                burn-Checked e f p i token_id nb qb rest w i' p' k n' t q args checked in
              let (changed, last, left) =
                burn_went_on e f p i token_id nb qb rest w i' p' k n' t q out args checked h in
              let (positive, holds) =
                change_quantity-held p i token_id (to_u64 (set_bytes nb)) t
                  (pos 0 -ℤ pos (set_bytes qb)) w (process_nft_burn e f (some p) (some i) w).1 c
                  changed last (ap is_negative (minus t.value (pos (set_bytes qb))) ∙ covered) in
              (
                c.own,
                c.some_nonce,
                may_burn p token_id w may,
                positive,
                holds,
                omega (arith, left, c.gas, sub_u64-eq i.gas_provided f.func_gas_cost c.gas b),
              )
          | inr (x, refused) ↦ absurd (ok_ne_err (sym h ∙ burn_refused e f p i w x refused))
        ]

    -- An addition that succeeds was called by an account on itself that has the role for it, with a
    -- nonce that is not 0 and the gas; it adds exactly the quantity of its third argument to what the
    -- account holds of the token with that nonce, if that does not stay negative, and changes no
    -- other token.
    pub nft_add_quantity_effect :
        (p : ℕ) (i : ContractCallInput) (token_id nb qb : Bytes) (rest : List Bytes) (w : World A D)
        (out : VmOutput)
        → i.arguments ≡ token_id ∷ nb ∷ qb ∷ rest
        → i.gas_provided < u64_mod
        → let n = to_u64 (set_bytes nb) in
          let key = compute_dcdt_nft_token_key (dcdt_token_key e.core token_id) n in
          let sum = held e w p key +ℤ pos (set_bytes qb) in
          is_negative sum ≡ false
          → (process_nft_add_quantity e f (some p) (some i) w).0 ≡ ok out
          → (i.caller_addr ≡ i.recipient_addr)
            × (n ≢ 0)
            × (f.roles.check_allowed_to_execute w (some p) token_id e.dcdt_role_nft_add_quantity
                ≡ ok tt)
            × Holds e p key sum w (process_nft_add_quantity e f (some p) (some i) w).1
            × (out.gas_remaining + f.func_gas_cost ≡ i.gas_provided)
    nft_add_quantity_effect p i token_id nb qb rest w out args b covered h =
        elim (Result-cases (check_nft_add_quantity e f (some p) (some i) w).0) [
          | inl ((i', p', k, n', t, q), checked) ↦
              let (_, _, _, _, _, _, c, may) =
                add-Checked e f p i token_id nb qb rest w i' p' k n' t q args checked in
              let (changed, last, left) =
                add_went_on e f p i token_id nb qb rest w i' p' k n' t q out args checked h in
              let had =
                laws.reads_held w p (dcdt_token_key e.core token_id) (to_u64 (set_bytes nb)) t
                  c.read in
              let (_, holds) =
                change_quantity-held p i token_id (to_u64 (set_bytes nb)) t (pos (set_bytes qb)) w
                  (process_nft_add_quantity e f (some p) (some i) w).1 c changed last
                  (rw had at covered) in
              (
                c.own,
                c.some_nonce,
                may,
                holds,
                omega (arith, left, c.gas, sub_u64-eq i.gas_provided f.func_gas_cost c.gas b),
              )
          | inr (x, refused) ↦ absurd (ok_ne_err (sym h ∙ add_refused e f p i w x refused))
        ]
