-- ===== src/Roles/Deletion.antt =====
-- deleteRoles takes one copy of a role away for each time that the role is named.
use k_chain_vm_common_go.Common.{
  ℕ, suc, ◌+◌, ◌-◌, ◌≡◌, ◌≢◌, refl, ◌↔◌, inl, inr, List, [], ◌∷◌, ◌++◌, Option, none, some, Bytes,
  arith, bytes_equal, bytes_equal_iff, if◌then◌else◌, Bool-cases, Option-cases,
}
use k_chain_vm_common_go.Roles.{does_role_exist, does_role_exist_from, delete_role, delete_roles}

-- How often a role is in a list.
unfoldable pub count_role : Bytes → List Bytes → ℕ
count_role role [] = 0
count_role role (r ∷ roles) =
    let n = count_role role roles in if bytes_equal r role then suc n else n

pub count_role-append :
    (role : Bytes) (rs ss : List Bytes)
    → count_role role (rs ++ ss) ≡ count_role role rs + count_role role ss
unfolding count_role
count_role-append role [] ss = omega arith
count_role-append role (r ∷ rs) ss = ground (arith, count_role-append role rs ss)

-- The list without its first copy of a role.
without_first : List Bytes → Bytes → List Bytes
without_first [] role = []
without_first (r ∷ roles) role =
    let rest = without_first roles role in if bytes_equal r role then roles else r ∷ rest

count-without_first_self :
    (roles : List Bytes) (role : Bytes)
    → count_role role (without_first roles role) ≡ count_role role roles - 1
unfolding count_role without_first
count-without_first_self [] role = omega arith
count-without_first_self (r ∷ roles) role = elim (Bool-cases (bytes_equal r role)) [
  | inl same ↦ rw same (omega arith)
  | inr other ↦ rw (other, other) (count-without_first_self roles role)
]

count-without_first_ne :
    (roles : List Bytes) (role s : Bytes)
    → role ≢ s
    → count_role s (without_first roles role) ≡ count_role s roles
unfolding count_role without_first
count-without_first_ne [] role s ne = refl
count-without_first_ne (r ∷ roles) role s ne = elim (Bool-cases (bytes_equal r role)) [
  | inl same ↦ ground (arith, same, bytes_equal_iff r role, bytes_equal_iff r s)
  | inr other ↦ ground (arith, other, count-without_first_ne roles role s ne)
]

-- A later start gives later indices.
abbrev later : Option ℕ → Option ℕ
later none = none
later (some i) = some (suc i)

does_role_exist-later :
    (k : ℕ) (roles : List Bytes) (role : Bytes)
    → does_role_exist_from (suc k) roles role ≡ later (does_role_exist_from k roles role)
unfolding does_role_exist_from
does_role_exist-later k [] role = refl
does_role_exist-later k (r ∷ roles) role = ground (arith, does_role_exist-later (suc k) roles role)

-- Removing at the index that was found is leaving out the first copy.
delete_role-without_first :
    (roles : List Bytes) (role : Bytes) → delete_role roles role ≡ without_first roles role
unfolding delete_role does_role_exist does_role_exist_from without_first
delete_role-without_first [] role = refl
delete_role-without_first (r ∷ roles) role =
    elim (Option-cases (does_role_exist_from 0 roles role)) [
      | inl missing ↦
          ground (
            arith,
            missing,
            does_role_exist-later 0 roles role,
            delete_role-without_first roles role,
          )
      | inr (i, found) ↦
          ground
            (arith, found, does_role_exist-later 0 roles role, delete_role-without_first roles role)
    ]

does_role_exist_none :
    (k : ℕ) (roles : List Bytes) (role : Bytes)
    → (does_role_exist_from k roles role ≡ none) ↔ (count_role role roles ≡ 0)
unfolding does_role_exist_from count_role
does_role_exist_none k [] role = (λ _. refl, λ _. refl)
does_role_exist_none k (r ∷ roles) role = (
  λ h. ground (arith, does_role_exist_none (suc k) roles role),
  λ h. ground (arith, does_role_exist_none (suc k) roles role),
)

pub does_role_exist_iff :
    (roles : List Bytes) (role : Bytes)
    → (does_role_exist roles role ≡ none) ↔ (count_role role roles ≡ 0)
unfolding does_role_exist
does_role_exist_iff roles role = does_role_exist_none 0 roles role

count-delete_role :
    (roles : List Bytes) (role s : Bytes)
    → count_role s (delete_role roles role)
      ≡ count_role s roles - (if bytes_equal role s then 1 else 0)
count-delete_role roles role s = elim (Bool-cases (bytes_equal role s)) [
  | inl same ↦
      rw (same, delete_role-without_first roles role, ← (bytes_equal_iff role s).0 same)
        (count-without_first_self roles role)
  | inr other ↦ ground (
    arith,
    other,
    delete_role-without_first roles role,
    count-without_first_ne roles role s (λ p. cc ((bytes_equal_iff role s).1 p)),
  )
]

-- Deleting roles lowers the count of each by the times that it is named, down to none.
pub count-delete_roles :
    (roles to_delete : List Bytes) (s : Bytes)
    → count_role s (delete_roles roles to_delete) ≡ count_role s roles - count_role s to_delete
unfolding delete_roles count_role
count-delete_roles roles [] s = omega arith
count-delete_roles roles (role ∷ to_delete) s =
    ground (
      arith,
      count-delete_roles (delete_role roles role) to_delete s,
      count-delete_role roles role s,
    )
