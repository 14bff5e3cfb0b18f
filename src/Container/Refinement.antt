-- ===== src/Container/Refinement.antt =====
-- builtInFunctions/container.go and partial maps from names to functions.
use k_chain_vm_common_go.Common.{
  ◌≡◌, refl, sym, ◌∙◌, ap, inl, inr, Bool, true, false, Bool-cases, Option-cases, List, [], ◌∷◌,
  Option, none, some, Bytes, arith, bytes_equal, bytes_equal_iff, ◌==◌, if◌then◌else◌, length,
}
use k_chain_vm_common_go.Errors.{
  Result, ok, err, nil_container_element, empty_function_name, container_key_already_exists,
}
use k_chain_vm_common_go.Container.{get, assign, insert, remove, keys, add, replace}

mem : Bytes → List Bytes → Bool
mem k [] = false
mem k (j ∷ ks) = if bytes_equal j k then true else mem k ks

-- No name is there twice.
pub IsDistinct : List Bytes → Type 0
unfolding mem
IsDistinct [] = Unit {0}
IsDistinct (k ∷ ks) = (mem k ks ≡ false) × IsDistinct ks

name_of : (j k : Bytes) → bytes_equal j k ≡ true → j ≡ k
name_of j k h = ground (arith, bytes_equal_iff j k)

-- A change of the container.
pub data Call (F : Type 0) : Type 0 where
  add_call replace_call : Bytes → Option F → Call F
  remove_call : Bytes → Call F

module _ {F : Type 0} where
  get-assign :
      (key k : Bytes) (f : F) (m : List (Bytes × F))
      → get k (assign key f m) ≡ (if bytes_equal key k then some f else get k m)
  unfolding get assign
  get-assign key k f [] = refl
  get-assign key k f ((j, v) ∷ m) = ground (
    arith,
    get-assign key k f m,
    bytes_equal_iff j key,
    bytes_equal_iff key k,
    bytes_equal_iff j k,
  )

  get-remove :
      (key k : Bytes) (m : List (Bytes × F))
      → get k (remove key m) ≡ (if bytes_equal key k then none else get k m)
  unfolding get remove
  get-remove key k [] = ground arith
  get-remove key k ((j, v) ∷ m) =
      ground (
        arith,
        get-remove key k m,
        bytes_equal_iff j key,
        bytes_equal_iff key k,
        bytes_equal_iff j k,
      )

  -- A name is a key exactly where there is a function for it.
  pub has : Option F → Bool
  has none = false
  has (some f) = true

  mem-keys : (k : Bytes) (m : List (Bytes × F)) → mem k (keys m) ≡ has (get k m)
  unfolding mem keys get has
  mem-keys k [] = refl
  mem-keys k ((j, v) ∷ m) = ground (arith, mem-keys k m)

  assign-IsDistinct :
      (key : Bytes) (f : F) (m : List (Bytes × F))
      → IsDistinct (keys m)
      → IsDistinct (keys (assign key f m))
  unfolding keys assign IsDistinct
  assign-IsDistinct key f [] d = (refl, tt)
  assign-IsDistinct key f ((j, v) ∷ m) (fresh, d) = elim (Bool-cases (bytes_equal j key)) [
    | inl same ↦ rw same (ap (λ x. mem x (keys m)) (sym (name_of j key same)) ∙ fresh, d)
    | inr other ↦
        let still : mem j (keys (assign key f m)) ≡ false = ground (
          arith,
          mem-keys j (assign key f m),
          get-assign key j f m,
          mem-keys j m,
          bytes_equal_iff j key,
          bytes_equal_iff key j,
        ) in
        rw other (still, assign-IsDistinct key f m d)
  ]

  remove-IsDistinct :
      (key : Bytes) (m : List (Bytes × F)) → IsDistinct (keys m) → IsDistinct (keys (remove key m))
  unfolding keys remove IsDistinct
  remove-IsDistinct key [] d = tt
  remove-IsDistinct key ((j, v) ∷ m) (fresh, d) = elim (Bool-cases (bytes_equal j key)) [
    | inl same ↦ rw same (remove-IsDistinct key m d)
    | inr other ↦
        let still : mem j (keys (remove key m)) ≡ false = ground (
          arith,
          mem-keys j (remove key m),
          get-remove key j m,
          mem-keys j m,
          bytes_equal_iff j key,
          bytes_equal_iff key j,
        ) in
        rw other (still, remove-IsDistinct key m d)
  ]

  abbrev apply_call : Call F → List (Bytes × F) → Result (Unit {0}) × List (Bytes × F)
  apply_call (add_call key f) m = add key f m
  apply_call (replace_call key f) m = replace key f m
  apply_call (remove_call key) m = (ok tt, remove key m)

  -- A partial map, changed at one name.
  abbrev at_name : Bytes → Option F → (Bytes → Option F) → Bytes → Option F
  at_name key f s k = if bytes_equal key k then f else s k

  -- What each change promises on a partial map: no nil function and no empty name comes in, only
  -- Replace overwrites, and Remove takes out what may be there.
  specified : Call F → (Bytes → Option F) → Result (Unit {0}) × (Bytes → Option F)
  specified (add_call key none) s = (err nil_container_element, s)
  specified (add_call key (some f)) s =
      if length key == 0
      then (err empty_function_name, s)
      else if has (s key)
      then (err container_key_already_exists, s)
      else (ok tt, at_name key (some f) s)
  specified (replace_call key none) s = (err nil_container_element, s)
  specified (replace_call key (some f)) s =
      if length key == 0 then (err empty_function_name, s) else (ok tt, at_name key (some f) s)
  specified (remove_call key) s = (ok tt, at_name key none s)

  -- The list stands for the partial map.
  pub record Stands (m : List (Bytes × F)) (s : Bytes → Option F) : Type 0 where
    pub same : (k : Bytes) → get k m ≡ s k
    pub distinct : IsDistinct (keys m)

  assign-Stands :
      (key : Bytes) (f : F) (m : List (Bytes × F)) (s : Bytes → Option F)
      → Stands m s
      → Stands (assign key f m) (at_name key (some f) s)
  assign-Stands key f m s h = record {
    same = λ k. get-assign key k f m ∙ ap (λ o. if bytes_equal key k then some f else o) (h.same k);
    distinct = assign-IsDistinct key f m h.distinct;
  }

  remove-Stands :
      (key : Bytes) (m : List (Bytes × F)) (s : Bytes → Option F)
      → Stands m s
      → Stands (remove key m) (at_name key none s)
  remove-Stands key m s h = record {
    same = λ k. get-remove key k m ∙ ap (λ o. if bytes_equal key k then none else o) (h.same k);
    distinct = remove-IsDistinct key m h.distinct;
  }

  insert_free :
      (key : Bytes) (f : F) (m : List (Bytes × F))
      → get key m ≡ none
      → insert key f m ≡ (true, assign key f m)
  unfolding insert
  insert_free key f m h = rw (insert, h) refl

  insert_taken :
      (key : Bytes) (f g : F) (m : List (Bytes × F))
      → get key m ≡ some g
      → insert key f m ≡ (false, m)
  unfolding insert
  insert_taken key f g m h = rw (insert, h) refl

  call-Stands :
      (c : Call F) (m : List (Bytes × F)) (s : Bytes → Option F)
      → Stands m s
      → ((apply_call c m).0 ≡ (specified c s).0) × Stands (apply_call c m).1 (specified c s).1
  unfolding specified add replace has
  call-Stands (add_call key none) m s h = (refl, h)
  call-Stands (add_call key (some f)) m s h = elim (Bool-cases (length key == 0)) [
    | inl empty ↦ rw empty (refl, h)
    | inr named ↦ elim (Option-cases (get key m)) [
      | inl free ↦
          rw (named, insert_free key f m free, sym (h.same key) ∙ free)
            (refl, assign-Stands key f m s h)
      | inr (g, taken) ↦
          rw (named, insert_taken key f g m taken, sym (h.same key) ∙ taken) (refl, h)
    ]
  ]
  call-Stands (replace_call key none) m s h = (refl, h)
  call-Stands (replace_call key (some f)) m s h = elim (Bool-cases (length key == 0)) [
    | inl empty ↦ rw empty (refl, h)
    | inr named ↦ rw named (refl, assign-Stands key f m s h)
  ]
  call-Stands (remove_call key) m s h = (refl, remove-Stands key m s h)

  -- The changes in their order, with what each returns.
  pub after : List (Call F) → List (Bytes × F) → List (Result (Unit {0})) × List (Bytes × F)
  after [] m = ([], m)
  after (c ∷ cs) m = let (r, m') = apply_call c m in let (rs, m'') = after cs m' in (r ∷ rs, m'')

  pub specified_after :
      List (Call F) → (Bytes → Option F) → List (Result (Unit {0})) × (Bytes → Option F)
  unfolding specified
  specified_after [] s = ([], s)
  specified_after (c ∷ cs) s =
      let (r, s') = specified c s in let (rs, s'') = specified_after cs s' in (r ∷ rs, s'')

  calls-Stands :
      (cs : List (Call F)) (m : List (Bytes × F)) (s : Bytes → Option F)
      → Stands m s
      → ((after cs m).0 ≡ (specified_after cs s).0) × Stands (after cs m).1 (specified_after cs s).1
  unfolding after specified_after
  calls-Stands [] m s h = (refl, h)
  calls-Stands (c ∷ cs) m s h =
      let (r, h') = call-Stands c m s h in
      let (rs, h'') = calls-Stands cs (apply_call c m).1 (specified c s).1 h' in
      (rw (r, rs) refl, h'')

  -- After any calls of Add, Replace and Remove on a new container, each has returned what the partial
  -- map specifies, Get finds under each name what the map has there, and no name is there twice.
  pub container-Stands :
      (cs : List (Call F))
      → ((after cs []).0 ≡ (specified_after cs (λ k. none)).0)
        × Stands (after cs []).1 (specified_after cs (λ k. none)).1
  unfolding get IsDistinct keys
  container-Stands cs = calls-Stands cs [] (λ k. none) (record { same = λ k. refl; distinct = tt })
