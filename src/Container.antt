-- ===== src/Container.antt =====
-- container/mutexMap.go and builtInFunctions/container.go: the built-in functions by name. A Go map is
-- a list of pairs, of which the first with a key counts.
pub mod Refinement
use k_chain_vm_common_go.Common.{
  ℕ, Bool, true, false, not, List, [], ◌∷◌, Option, none, some, Bytes, bytes_equal, ◌==◌,
  if◌then◌else◌, length, map,
}
use k_chain_vm_common_go.Errors.{
  Result, ok, err, invalid_container_key, nil_container_element, empty_function_name,
  container_key_already_exists,
}
use k_chain_vm_common_go.Exec.{Exec, pure, raise}

module _ {F : Type 0} where
  -- (*MutexMap).Get
  unfoldable pub get : Bytes → List (Bytes × F) → Option F
  get key [] = none
  get key ((k, v) ∷ m) = if bytes_equal k key then some v else get key m

  -- values[key] = val
  unfoldable pub assign : Bytes → F → List (Bytes × F) → List (Bytes × F)
  assign key val [] = (key, val) ∷ []
  assign key val ((k, v) ∷ m) =
      let rest = assign key val m in if bytes_equal k key then (key, val) ∷ m else (k, v) ∷ rest

  -- (*MutexMap).Insert
  unfoldable pub insert : Bytes → F → List (Bytes × F) → Bool × List (Bytes × F)
  insert key val m = elim (get key m) [ some v ↦ (false, m) | none ↦ (true, assign key val m) ]

  -- (*MutexMap).Remove
  unfoldable pub remove : Bytes → List (Bytes × F) → List (Bytes × F)
  remove key [] = []
  remove key ((k, v) ∷ m) =
      let rest = remove key m in if bytes_equal k key then rest else (k, v) ∷ rest

  -- (*MutexMap).Keys, in the order of the list.
  unfoldable pub keys : List (Bytes × F) → List Bytes
  keys [] = []
  keys ((k, v) ∷ m) = k ∷ keys m

  -- (*MutexMap).Values
  unfoldable pub values : List (Bytes × F) → List F
  values [] = []
  values ((k, v) ∷ m) = v ∷ values m

  -- (*functionContainer).Get
  unfoldable pub get_function : Bytes → List (Bytes × F) → Result F
  get_function key objects = elim (get key objects) [
    | none ↦ err invalid_container_key
    | some f ↦ ok f
  ]

  -- (*functionContainer).Add, where `none` is a nil function.
  unfoldable pub add : Bytes → Option F → Exec (List (Bytes × F)) (Unit {0})
  add key none objects = (err nil_container_element, objects)
  add key (some f) objects =
      if length key == 0
      then (err empty_function_name, objects)
      else (let (inserted, objects') = insert key f objects in
          if inserted then (ok tt, objects') else (err container_key_already_exists, objects'))

  -- (*functionContainer).Replace
  unfoldable pub replace : Bytes → Option F → Exec (List (Bytes × F)) (Unit {0})
  replace key none objects = (err nil_container_element, objects)
  replace key (some f) objects =
      if length key == 0 then (err empty_function_name, objects) else (ok tt, assign key f objects)
