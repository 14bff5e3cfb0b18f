-- ===== src/Roles.antt =====
-- builtInFunctions/dcdtRoles.go: the roles of an account for a token, a list under one key. With
-- saveRolesToAccount of dcdtNFTCreateRoleTransfer.go, and the latest nonce of dcdtNFTCreate.go.
pub mod Deletion
pub mod Effect
use k_chain_vm_common_go.Common.{
  ℕ, suc, ◌+◌, ◌-◌, ◌*◌, ◌/◌, ◌%◌, Bool, true, false, not, List, [], ◌∷◌, ◌++◌, Option, none, some,
  Bytes, bytes_equal, ◌==◌, if◌then◌else◌, length, take, drop,
}
use k_chain_vm_common_go.Common.Int.{ℤ, pos}
use k_chain_vm_common_go.Numbers.{u64_mod, nat_bytes}
use k_chain_vm_common_go.Errors.{
  HostError, Error, Result, ok, err, address_is_not_dcdt_system_sc, nil_user_account,
  action_not_allowed,
}
use k_chain_vm_common_go.Exec.{
  Exec, pure, raise, gets, lift, reads, fail_if, index, element_at, ◌>>=◌, ◌>>◌,
}
use k_chain_vm_common_go.Vm.{ContractCallInput, VmOutput}
use k_chain_vm_common_go.Env.{Core, Env, World}
use k_chain_vm_common_go.Interfaces.{RoleHandler}
use k_chain_vm_common_go.Logs.{add_dcdt_entry_in_vm_output, new_output}
use k_chain_vm_common_go.Balance.{retrieved, save_at}
use k_chain_vm_common_go.Local.{check_basic_dcdt_arguments, not_nil}

unfoldable pub role_key_prefix : Core → Bytes
role_key_prefix c = c.protected_key_prefix ++ (c.dcdt_role_identifier ++ c.dcdt_key_identifier)

-- append(roleKeyPrefix, tokenID...)
abbrev pub dcdt_token_role_key : Core → Bytes → Bytes
dcdt_token_role_key c token_id = role_key_prefix c ++ token_id

-- getNonceKey
unfoldable pub get_nonce_key : Core → Bytes → Bytes
get_nonce_key c token_id =
    (c.protected_key_prefix ++ c.dcdt_nft_latest_nonce_identifier) ++ token_id

does_role_exist_from : ℕ → List Bytes → Bytes → Option ℕ
does_role_exist_from i [] role = none
does_role_exist_from i (current_role ∷ roles) role =
    if bytes_equal current_role role then some i else does_role_exist_from (suc i) roles role

-- doesRoleExist: the index of the first such role; `none` is (-1, false).
unfoldable pub does_role_exist : List Bytes → Bytes → Option ℕ
unfolding does_role_exist_from
does_role_exist = does_role_exist_from 0

-- The slice without the element at an index, as `copy` and a shorter slice leave it.
abbrev pub remove_at : List Bytes → ℕ → List Bytes
remove_at roles i = take i roles ++ drop (suc i) roles

-- One round of deleteRoles.
unfoldable pub delete_role : List Bytes → Bytes → List Bytes
delete_role roles role = elim (does_role_exist roles role) [
  | none ↦ roles
  | some i ↦ remove_at roles i
]

-- deleteRoles
unfoldable pub delete_roles : List Bytes → List Bytes → List Bytes
delete_roles roles [] = roles
delete_roles roles (role ∷ to_delete) = delete_roles (delete_role roles role) to_delete

-- uint64(destAddress[len(destAddress)-1]) times MaxUint64 / 256; an empty address panics.
unfoldable pub compute_start_nonce : Bytes → Result ℕ
compute_start_nonce dest_address = elim (element_at dest_address (length dest_address - 1)) [
  | ok last_byte_of_address ↦ ok ((u64_mod - 1) / 256 * last_byte_of_address % u64_mod)
  | err x ↦ err x
]

-- Whether the loop over the arguments meets the role.
abbrev pub has_argument : Bytes → List Bytes → Bool
has_argument role [] = false
has_argument role (arg ∷ args) = if bytes_equal arg role then true else has_argument role args

-- The roles that the function leaves, by whether it sets or unsets.
abbrev pub changed_roles : Bool → List Bytes → List Bytes → List Bytes
changed_roles set roles args = if set then roles ++ args else delete_roles roles args

module _ {A D : Type 0} (e : Env A D) where
  abbrev pub unmarshal_or_no_roles : Bytes → Result (List Bytes × Bool)
  unmarshal_or_no_roles [] = ok ([], true)
  unmarshal_or_no_roles (b ∷ bs) = elim (e.unmarshal_roles [] (b ∷ bs)) [
    | ok roles ↦ ok (roles, false)
    | err x ↦ err x
  ]

  -- getDCDTRolesForAcnt; the second component says that none are stored.
  unfoldable pub get_dcdt_roles_for_acnt : A → Bytes → Result (List Bytes × Bool)
  get_dcdt_roles_for_acnt acnt key = elim (retrieved (e.retrieve_value acnt key)) [
    | ok b ↦ unmarshal_or_no_roles b
    | err x ↦ err x
  ]

  -- The answer of CheckAllowedToExecute from the roles that were read.
  abbrev pub allows : Bytes → Result (List Bytes × Bool) → Result (Unit {0})
  allows action (err x) = err x
  allows action (ok (roles, true)) = err action_not_allowed
  allows action (ok (roles, false)) = elim (does_role_exist roles action) [
    | none ↦ err action_not_allowed
    | some i ↦ ok tt
  ]

  -- (*dcdtRoles).CheckAllowedToExecute
  unfoldable pub check_allowed_to_execute : World A D → Option ℕ → Bytes → Bytes → Result (Unit {0})
  check_allowed_to_execute w none token_id action = err nil_user_account
  check_allowed_to_execute w (some p) token_id action =
      allows action (get_dcdt_roles_for_acnt (w.accounts p) (dcdt_token_role_key e.core token_id))

  -- dcdtRoles as the DCDTRoleHandler of the other functions.
  unfoldable pub role_handler : RoleHandler (World A D)
  role_handler = record { check_allowed_to_execute = check_allowed_to_execute }

  -- saveLatestNonce
  unfoldable pub save_latest_nonce : ℕ → Bytes → ℕ → Exec (World A D) (Unit {0})
  save_latest_nonce p token_id nonce = save_at e p (get_nonce_key e.core token_id) (nat_bytes nonce)

  -- saveRolesToAccount
  unfoldable pub save_roles_to_account : ℕ → Bytes → List Bytes → Exec (World A D) (Unit {0})
  save_roles_to_account p key roles = do
    marshaled_data ← lift (e.marshal_roles roles)
    save_at e p key marshaled_data

  -- The loop over the arguments: the start nonce is saved once, if the multi-shard role is among
  -- them.
  abbrev pub save_start_nonce :
      ℕ → ContractCallInput → Bytes → List Bytes → Exec (World A D) (Unit {0})
  save_start_nonce p vm_input token_id args =
      if has_argument e.dcdt_role_nft_create_multi_shard args
      then (lift (compute_start_nonce vm_input.recipient_addr) >>= λ nonce.
          save_latest_nonce p token_id nonce)
      else pure tt

  -- (*dcdtRoles).ProcessBuiltinFunction
  unfoldable pub process_roles :
      Bool → Option ℕ → Option ContractCallInput → Exec (World A D) VmOutput
  unfolding check_basic_dcdt_arguments
  process_roles set acnt_dst input = do
    vm_input ← lift (check_basic_dcdt_arguments e input)
    fail_if (not (bytes_equal vm_input.caller_addr e.dcdt_sc_address)) address_is_not_dcdt_system_sc
    dst ← not_nil e acnt_dst
    token_id ← index vm_input.arguments 0
    let key = dcdt_token_role_key e.core token_id
    let args = drop 1 vm_input.arguments
    (roles, _) ← reads (λ w. get_dcdt_roles_for_acnt (w.accounts dst) key)
    save_start_nonce dst vm_input token_id args
    save_roles_to_account dst key (changed_roles set roles args)
    dst_address ← gets (λ w. e.address_bytes (w.accounts dst))
    pure (
        add_dcdt_entry_in_vm_output vm_input.function token_id 0 (pos 0) (dst_address ∷ args)
          (new_output 0))
