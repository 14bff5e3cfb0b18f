-- ===== src/Tests/Functions.antt =====
-- A container of functions, here numbers, at concrete calls.
use k_chain_vm_common_go.Common.{◌≡◌, List, [], ◌∷◌, none, some, codes, ℕ}
use k_chain_vm_common_go.Container.Refinement.{
  Call, add_call, replace_call, remove_call, Stands, after, specified_after, container-Stands,
}

abbrev calls : List (Call ℕ)
calls =
    add_call (codes "f") (some 1)
    ∷ add_call (codes "g") (some 2)
    ∷ add_call (codes "f") (some 3)
    ∷ replace_call (codes "g") (some 4)
    ∷ remove_call (codes "f")
    ∷ []

container-Stands_example :
    ((after calls []).0 ≡ (specified_after calls (λ k. none)).0)
    × Stands (after calls []).1 (specified_after calls (λ k. none)).1
container-Stands_example = container-Stands calls
