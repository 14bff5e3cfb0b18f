-- ===== src/Roles/Effect.antt =====
-- What setting and unsetting roles does to the answers of CheckAllowedToExecute.
use k_chain_vm_common_go.Common.{
  ℕ, ◌+◌, ◌<◌, ◌≡◌, refl, ◌↔◌, inl, inr, Bool, true, false, List, [], ◌∷◌, ◌++◌, some, Bytes, arith,
  bytes_equal_iff,
}
use k_chain_vm_common_go.Errors.{Result, ok, err, Result-cases}
use k_chain_vm_common_go.Vm.{ContractCallInput, VmOutput}
use k_chain_vm_common_go.Env.{Env, World, set_account}
use k_chain_vm_common_go.Env.Laws.{IsStore, IsMarshaller}
use k_chain_vm_common_go.Roles.{
  dcdt_token_role_key, delete_roles, get_dcdt_roles_for_acnt, allows, check_allowed_to_execute,
  save_start_nonce, save_roles_to_account, changed_roles, process_roles,
}
use k_chain_vm_common_go.Roles.Deletion.{
  count_role, count_role-append, count-delete_roles, does_role_exist_iff,
}

module _ {A D : Type 0} (e : Env A D) where
  -- The roles of a result of getDCDTRolesForAcnt.
  abbrev pub just_roles : Result (List Bytes × Bool) → Result (List Bytes)
  just_roles (ok (roles, is_new)) = ok roles
  just_roles (err x) = err x

  -- The roles of an account for a token.
  abbrev pub roles_at : World A D → ℕ → Bytes → Result (List Bytes)
  roles_at w p token_id =
      just_roles (get_dcdt_roles_for_acnt e (w.accounts p) (dcdt_token_role_key e.core token_id))

  new_has_none :
      (a : A) (key : Bytes) (roles : List Bytes)
      → get_dcdt_roles_for_acnt e a key ≡ ok (roles, true)
      → roles ≡ []
  unfolding get_dcdt_roles_for_acnt
  new_has_none a key roles h = ground arith

  none_in_empty : (action : Bytes) → count_role action [] ≡ 0
  unfolding count_role
  none_in_empty action = refl

  positive_of_found :
      (roles : List Bytes) (action : Bytes)
      → allows e action (ok (roles, false)) ≡ ok tt
      → 0 < count_role action roles
  positive_of_found roles action h = ground (arith, does_role_exist_iff roles action)

  -- An action is allowed exactly when the roles can be read and the action is among them.
  pub check_allowed_iff :
      (w : World A D) (p : ℕ) (token_id action : Bytes)
      → (check_allowed_to_execute e w (some p) token_id action ≡ ok tt) ↔ (
          (roles : List Bytes) × (roles_at w p token_id ≡ ok roles) × (0 < count_role action roles))
  unfolding check_allowed_to_execute
  check_allowed_iff w p token_id action =
      elim (Result-cases
        (get_dcdt_roles_for_acnt e (w.accounts p) (dcdt_token_role_key e.core token_id))) [
          | inl ((roles, true), read) ↦ (
            λ h. cc (rw read at h),
            λ (rs, same, found). ground (
              arith,
              read,
              same,
              found,
              new_has_none (w.accounts p) (dcdt_token_role_key e.core token_id) roles read,
              none_in_empty action,
            ),
          )
          | inl ((roles, false), read) ↦ (
            λ h. (roles, rw read, positive_of_found roles action (rw read at h)),
            λ (rs, same, found).
                ground (arith, read, same, found, does_role_exist_iff roles action),
          )
          | inr (x, failed) ↦
              (λ h. cc (rw failed at h), λ (rs, same, found). cc (rw failed at same))
        ]

  module _ (store : IsStore e) (marshaller : IsMarshaller e) where
    roles_at-save :
        (p : ℕ) (token_id : Bytes) (roles : List Bytes) (w : World A D)
        → (save_roles_to_account e p (dcdt_token_role_key e.core token_id) roles w).0 ≡ ok tt
        → roles_at
            (save_roles_to_account e p (dcdt_token_role_key e.core token_id) roles w).1
            p
            token_id
          ≡ ok roles
    unfolding save_roles_to_account get_dcdt_roles_for_acnt set_account
    roles_at-save p token_id roles w h = elim (Result-cases (e.marshal_roles roles)) [
      | inl ([], m) ↦ ground (
        arith,
        store.retrieve-save_self (w.accounts p) (dcdt_token_role_key e.core token_id) [],
        marshaller.marshal_roles_eq_nil roles,
      )
      | inl (b ∷ bs, m) ↦ ground (
        arith,
        store.retrieve-save_self (w.accounts p) (dcdt_token_role_key e.core token_id) (b ∷ bs),
        marshaller.unmarshal-marshal_roles roles [] (b ∷ bs),
      )
      | inr (x, failed) ↦ ground arith
    ]

    -- Setting or unsetting roles that succeeds is called by the system contract, and leaves the
    -- roles that it found, changed as asked.
    pub process_roles_steps :
        (set : Bool) (dst : ℕ) (i : ContractCallInput) (token_id : Bytes) (args : List Bytes)
        (w : World A D) (out : VmOutput)
        → i.arguments ≡ token_id ∷ args
        → (process_roles e set (some dst) (some i) w).0 ≡ ok out
        → (i.caller_addr ≡ e.dcdt_sc_address)
          × ((roles : List Bytes) × (roles_at w dst token_id ≡ ok roles)
              × (roles_at (process_roles e set (some dst) (some i) w).1 dst token_id
                  ≡ ok (changed_roles set roles args)))
    unfolding process_roles
    process_roles_steps set dst i token_id args w out a h =
        let key = dcdt_token_role_key e.core token_id in
        elim (Result-cases (get_dcdt_roles_for_acnt e (w.accounts dst) key)) [
          | inl ((roles, is_new), read) ↦
              (let w1 = (save_start_nonce e dst i token_id args w).1 in
                let kept = changed_roles set roles args in
                (
                  ground (arith, bytes_equal_iff i.caller_addr e.dcdt_sc_address),
                  (roles, rw read, ground (arith, read, a, roles_at-save dst token_id kept w1)),
                ))
          | inr (x, failed) ↦ absurd (ground arith)
        ]

    allowed_after :
        (w' : World A D) (dst : ℕ) (token_id action : Bytes) (kept : List Bytes)
        → roles_at w' dst token_id ≡ ok kept
        → (check_allowed_to_execute e w' (some dst) token_id action ≡ ok tt)
          ↔ (0 < count_role action kept)
    allowed_after w' dst token_id action kept read = (
      λ h.
          let (roles, same, found) = (check_allowed_iff w' dst token_id action).0 h in
          ground (arith, read, same, found),
      λ h. (check_allowed_iff w' dst token_id action).1 (kept, read, h),
    )

    -- Setting roles that succeeds is called by the system contract; afterwards an action is allowed
    -- exactly when it was among the roles before or is among those that were set.
    pub set_roles_allows :
        (dst : ℕ) (i : ContractCallInput) (token_id : Bytes) (args : List Bytes) (w : World A D)
        (out : VmOutput)
        → i.arguments ≡ token_id ∷ args
        → (process_roles e true (some dst) (some i) w).0 ≡ ok out
        → let w' = (process_roles e true (some dst) (some i) w).1 in
          (i.caller_addr ≡ e.dcdt_sc_address)
          × ((roles : List Bytes) × (roles_at w dst token_id ≡ ok roles)
              × ((action : Bytes)
                  → (check_allowed_to_execute e w' (some dst) token_id action ≡ ok tt)
                    ↔ (0 < count_role action roles + count_role action args)))
    set_roles_allows dst i token_id args w out a h =
        let w' = (process_roles e true (some dst) (some i) w).1 in
        let (caller, (roles, read, after)) =
          process_roles_steps true dst i token_id args w out a h in
        (
          caller,
          (
            roles,
            read,
            λ action.
                rw (← count_role-append action roles args)
                  (allowed_after w' dst token_id action (roles ++ args) after),
          ),
        )

    -- Unsetting roles that succeeds takes away one copy of a role for each time that it is named:
    -- afterwards an action is allowed exactly when it was there more often than it was named. A
    -- role that was set twice and is unset once stays.
    pub unset_roles_allows :
        (dst : ℕ) (i : ContractCallInput) (token_id : Bytes) (args : List Bytes) (w : World A D)
        (out : VmOutput)
        → i.arguments ≡ token_id ∷ args
        → (process_roles e false (some dst) (some i) w).0 ≡ ok out
        → let w' = (process_roles e false (some dst) (some i) w).1 in
          (i.caller_addr ≡ e.dcdt_sc_address)
          × ((roles : List Bytes) × (roles_at w dst token_id ≡ ok roles)
              × ((action : Bytes)
                  → (check_allowed_to_execute e w' (some dst) token_id action ≡ ok tt)
                    ↔ (count_role action args < count_role action roles)))
    unset_roles_allows dst i token_id args w out a h =
        let w' = (process_roles e false (some dst) (some i) w).1 in
        let (caller, (roles, read, after)) =
          process_roles_steps false dst i token_id args w out a h in
        (
          caller,
          (
            roles,
            read,
            λ action.
                let allowed =
                  allowed_after w' dst token_id action (delete_roles roles args) after in
                (
                  λ c. omega (arith, allowed.0 c, count-delete_roles roles args action),
                  λ more. allowed.1 (omega (arith, more, count-delete_roles roles args action)),
                ),
          ),
        )
