-- ===== src/KeyValue/Effect.antt =====
-- What a call that saves keys and values leaves in the data tries.
use k_chain_vm_common_go.Common.{
  ℕ, ◌≡◌, ◌≢◌, refl, ◌∙◌, ap, inl, inr, false, List, [], ◌∷◌, ◌++◌, Option, none, some, Bytes,
  arith, bytes_equal, bytes_equal_iff, if◌then◌else◌,
}
use k_chain_vm_common_go.Errors.{HostError, Error, Result, ok, err, Result-cases}
use k_chain_vm_common_go.Exec.{bind-ok, bind-err}
use k_chain_vm_common_go.Vm.{ContractCallInput, VmOutput}
use k_chain_vm_common_go.Env.{Env, World, set_account}
use k_chain_vm_common_go.Env.Laws.{IsStore}
use k_chain_vm_common_go.Address.{is_allowed_to_save_under_key}
use k_chain_vm_common_go.Address.Properties.{is_allowed_to_save_under_key_iff}
use k_chain_vm_common_go.Balance.{save_at}
use k_chain_vm_common_go.KeyValue.{
  SaveKeyValueStorage, check_arguments_for_save_key_value, old_value_of, save_key_value_pair,
  save_key_value_pairs, process_save_key_value,
}

-- The value of a key after pairs of keys and values are written one after the other.
abbrev pub value_after : Bytes → List Bytes → Bytes → Bytes
value_after j (key ∷ value ∷ args) old =
    value_after j args (if bytes_equal key j then value else old)
value_after j _ old = old

-- What is read under a key of the account behind a reference.
abbrev pub read_at : {A D : Type 0} → Env A D → World A D → ℕ → Bytes → Bytes
read_at e w p j = (e.retrieve_value (w.accounts p) j).0

module _ {A D : Type 0} (e : Env A D) (k : SaveKeyValueStorage) (store : IsStore e) where
  old_value : (r : Bytes × Option HostError) (b : Bytes) → old_value_of e k r ≡ ok b → r.0 ≡ b
  old_value (b, none) c h = ground arith
  old_value (b, some x) c h = ground arith

  save-protected :
      (dst q : ℕ) (key j v : Bytes) (w : World A D)
      → j ≢ key
      → e.retrieve_value ((save_at e dst key v w).1.accounts q) j
        ≡ e.retrieve_value (w.accounts q) j
  unfolding set_account
  save-protected dst q key j v w ne =
      ground (arith, store.retrieve-save_ne (w.accounts dst) key j v)

  pair-protected :
      (dst q : ℕ) (i : ContractCallInput) (key value j : Bytes) (gas : ℕ) (w : World A D)
      → is_allowed_to_save_under_key e.core j ≡ false
      → e.retrieve_value ((save_key_value_pair e k dst i key value gas w).1.accounts q) j
        ≡ e.retrieve_value (w.accounts q) j
  unfolding save_key_value_pair
  pair-protected dst q i key value j gas w protected =
      ground (arith, save-protected dst q key j value w)

  pairs_idle :
      (dst : ℕ) (i : ContractCallInput) (key : Bytes) (gas : ℕ) (w : World A D)
      → ((save_key_value_pairs e k dst i [] gas w).1 ≡ w)
        × ((save_key_value_pairs e k dst i (key ∷ []) gas w).1 ≡ w)
  unfolding save_key_value_pairs
  pairs_idle dst i key gas w = (refl, refl)

  -- One round, and then the others or none.
  pairs_go_on :
      (dst : ℕ) (i : ContractCallInput) (key value : Bytes) (args : List Bytes) (gas g : ℕ)
      (w : World A D)
      → (save_key_value_pair e k dst i key value gas w).0 ≡ ok g
      → save_key_value_pairs e k dst i (key ∷ value ∷ args) gas w
        ≡ save_key_value_pairs e k dst i args g (save_key_value_pair e k dst i key value gas w).1
  unfolding save_key_value_pairs
  pairs_go_on dst i key value args gas g w step =
      bind-ok (save_key_value_pair e k dst i key value gas)
        (λ u. save_key_value_pairs e k dst i args u) w g step

  pairs_stop :
      (dst : ℕ) (i : ContractCallInput) (key value : Bytes) (args : List Bytes) (gas : ℕ)
      (x : Error) (w : World A D)
      → (save_key_value_pair e k dst i key value gas w).0 ≡ err x
      → save_key_value_pairs e k dst i (key ∷ value ∷ args) gas w
        ≡ (err x, (save_key_value_pair e k dst i key value gas w).1)
  unfolding save_key_value_pairs
  pairs_stop dst i key value args gas x w step =
      bind-err (save_key_value_pair e k dst i key value gas)
        (λ u. save_key_value_pairs e k dst i args u) w x step

  pairs-protected :
      (dst q : ℕ) (i : ContractCallInput) (args : List Bytes) (j : Bytes) (gas : ℕ) (w : World A D)
      → is_allowed_to_save_under_key e.core j ≡ false
      → e.retrieve_value ((save_key_value_pairs e k dst i args gas w).1.accounts q) j
        ≡ e.retrieve_value (w.accounts q) j
  pairs-protected dst q i [] j gas w protected = rw (pairs_idle dst i [] gas w).0 refl
  pairs-protected dst q i (key ∷ []) j gas w protected = rw (pairs_idle dst i key gas w).1 refl
  pairs-protected dst q i (key ∷ value ∷ args) j gas w protected =
      elim (Result-cases (save_key_value_pair e k dst i key value gas w).0) [
        | inl (g, step) ↦ rw (pairs_go_on dst i key value args gas g w step) (
            pairs-protected dst q i args j g (save_key_value_pair e k dst i key value gas w).1
              protected
            ∙ pair-protected dst q i key value j gas w protected)
        | inr (x, step) ↦
            rw (pairs_stop dst i key value args gas x w step)
              (pair-protected dst q i key value j gas w protected)
      ]

  -- Whatever comes of a call that saves keys and values, no key under the protected prefix has
  -- changed, on any account.
  pub protected_keys_unchanged :
      (acnt_dst : Option ℕ) (input : Option ContractCallInput) (q : ℕ) (rest : Bytes)
      (w : World A D)
      → let j = e.protected_key_prefix ++ rest in
        e.retrieve_value ((process_save_key_value e k acnt_dst input w).1.accounts q) j
        ≡ e.retrieve_value (w.accounts q) j
  unfolding process_save_key_value
  protected_keys_unchanged acnt_dst input q rest w =
      from (check_arguments_for_save_key_value e k acnt_dst input) refl
    where
      from :
          (r : Result (ContractCallInput × ℕ))
          → check_arguments_for_save_key_value e k acnt_dst input ≡ r
          → e.retrieve_value
              ((process_save_key_value e k acnt_dst input w).1.accounts q)
              (e.protected_key_prefix ++ rest)
            ≡ e.retrieve_value (w.accounts q) (e.protected_key_prefix ++ rest)
      from (ok (i, dst)) checked = ground (
        arith,
        checked,
        pairs-protected dst q i i.arguments (e.protected_key_prefix ++ rest) k.func_gas_cost w (
            (is_allowed_to_save_under_key_iff e.core (e.protected_key_prefix ++ rest)).1
              (rest, refl)),
      )
      from (err x) refused = rw refused refl

  save-read :
      (dst : ℕ) (key j v : Bytes) (w : World A D)
      → (save_at e dst key v w).0 ≡ ok tt
      → read_at e (save_at e dst key v w).1 dst j
        ≡ (if bytes_equal key j then v else read_at e w dst j)
  unfolding set_account
  save-read dst key j v w h = ground (
    arith,
    store.retrieve-save_ne (w.accounts dst) key j v,
    store.retrieve-save_self (w.accounts dst) key v,
    bytes_equal_iff key j,
  )

  pair-read :
      (dst : ℕ) (i : ContractCallInput) (key value j : Bytes) (gas used : ℕ) (w : World A D)
      → (save_key_value_pair e k dst i key value gas w).0 ≡ ok used
      → read_at e (save_key_value_pair e k dst i key value gas w).1 dst j
        ≡ (if bytes_equal key j then value else read_at e w dst j)
  unfolding save_key_value_pair
  pair-read dst i key value j gas used w h =
      let r = e.retrieve_value (w.accounts dst) key in
      ground (
        arith,
        save-read dst key j value w,
        bytes_equal_iff r.0 value,
        bytes_equal_iff key j,
        old_value r,
      )

  pairs-read :
      (dst : ℕ) (i : ContractCallInput) (args : List Bytes) (j : Bytes) (gas used : ℕ)
      (w : World A D)
      → (save_key_value_pairs e k dst i args gas w).0 ≡ ok used
      → read_at e (save_key_value_pairs e k dst i args gas w).1 dst j
        ≡ value_after j args (read_at e w dst j)
  pairs-read dst i [] j gas used w h = rw (pairs_idle dst i [] gas w).0 refl
  pairs-read dst i (key ∷ []) j gas used w h = rw (pairs_idle dst i key gas w).1 refl
  pairs-read dst i (key ∷ value ∷ args) j gas used w h =
      elim (Result-cases (save_key_value_pair e k dst i key value gas w).0) [
        | inl (g, step) ↦ rw (pairs_go_on dst i key value args gas g w step) (
            pairs-read dst i args j g used (save_key_value_pair e k dst i key value gas w).1
              (rw (pairs_go_on dst i key value args gas g w step) at h)
            ∙ ap (value_after j args) (pair-read dst i key value j gas g w step))
        | inr (x, step) ↦ cc (pairs_stop dst i key value args gas x w step)
      ]

  -- A call that saves keys and values and succeeds is made by an address on itself, and leaves under
  -- each key of the account the last value that it names for the key, and under every other key what
  -- was there.
  pub save_key_value_effect :
      (dst : ℕ) (i : ContractCallInput) (j : Bytes) (w : World A D) (out : VmOutput)
      → (process_save_key_value e k (some dst) (some i) w).0 ≡ ok out
      → let w' = (process_save_key_value e k (some dst) (some i) w).1 in
        (i.caller_addr ≡ i.recipient_addr)
        × (read_at e w' dst j ≡ value_after j i.arguments (read_at e w dst j))
  unfolding process_save_key_value check_arguments_for_save_key_value
  save_key_value_effect dst i j w out h =
      elim (Result-cases (save_key_value_pairs e k dst i i.arguments k.func_gas_cost w).0) [
        | inl (used, saved) ↦ (
          ground (arith, bytes_equal_iff i.caller_addr i.recipient_addr),
          ground (arith, pairs-read dst i i.arguments j k.func_gas_cost used w saved),
        )
        | inr (x, failed) ↦ absurd (ground arith)
      ]
