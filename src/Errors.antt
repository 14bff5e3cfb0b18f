-- ===== src/Errors.antt =====
-- builtInFunctions/errors.go, errors.go and parsers/errors.go: the errors that the modelled code returns, and `Result`
-- for Go's pairs of a value and an error.
use k_chain_vm_common_go.Common.{◌≡◌, ◌≢◌, refl, ◌⊎◌, inl, inr, ℕ, Option, some, Bool, true, false}

-- What a storage or marshalling dependency reports; `core.IsGetNodeFromDBError` tells the first kind.
pub data HostError : Type 0 where
  get_node_from_db_error : ℕ → HostError
  other_error : ℕ → HostError

pub data Error : Type 0 where
  nil_vm_input nil_value built_in_function_called_with_value invalid_arguments : Error
  invalid_rcv_addr negative_value not_enough_gas nil_user_account : Error
  only_fungible_tokens_have_balance_transfer insufficient_funds : Error
  dcdt_is_frozen_for_account dcdt_token_is_paused action_not_allowed : Error
  address_is_not_dcdt_system_sc cannot_wipe_account_not_frozen account_not_payable : Error
  only_system_account_accepted wrong_type_assertion : Error
  subtraction_overflow nil_payable_handler : Error
  operation_not_permitted nil_sc_dest_account : Error
  new_nft_data_on_sender_address nil_dcdt_data invalid_liquidity_for_dcdt : Error
  nil_transaction_handler nft_does_not_have_metadata invalid_nft_quantity : Error
  invalid_address_length : Error
  nft_token_does_not_exist : Error
  invalid_container_key nil_container_element empty_function_name : Error
  container_key_already_exists : Error
  -- parsers/errors.go
  not_dcdt_transfer_input not_enough_arguments : Error
  -- a Go run-time panic: an index out of range, a nil pointer
  runtime_panic : Error
  host : HostError → Error

pub data Result {ℓ} (A : Type ℓ) : Type ℓ where
  ok : A → Result A
  err : Error → Result A

-- core.IsGetNodeFromDBError
abbrev pub is_get_node_from_db_error : Option HostError → Bool
is_get_node_from_db_error (some (get_node_from_db_error n)) = true
is_get_node_from_db_error _ = false

-- To split on a computed result and keep the equation.
pub Result-cases {ℓ} :
    {A : Type ℓ} (r : Result A) → ((a : A) × (r ≡ ok a)) ⊎ ((x : Error) × (r ≡ err x))
Result-cases (ok a) = inl (a, refl)
Result-cases (err x) = inr (x, refl)

pub ok_ne_err : {B : Type 0} {b : B} {x : Error} → ok b ≢ err x
ok_ne_err h = cc
