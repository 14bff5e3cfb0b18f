-- ===== src/TransferParser/Bounds.antt =====
-- parsers/dcdtTransferParser.go: the indices of its arguments, and the one value that may be nil.
use k_chain_vm_common_go.Common.{◌<◌, ◌≡◌, List, ◌∷◌, ◌++◌, Option, none, Bytes, length}
use k_chain_vm_common_go.Common.Int.{ℤ}
use k_chain_vm_common_go.Numbers.{set_bytes, to_u64}
use k_chain_vm_common_go.Errors.{Result, ok}
use k_chain_vm_common_go.Env.{Core}
use k_chain_vm_common_go.TokenStorage.Sent.{max_length_for_value_to_opt_transfer}

module _ (c : Core) (unmarshal_value : Bytes → Result (Option ℤ)) where
  -- Three arguments in a row are a transfer with a nonce, whose value is too long for a number and
  -- unmarshals into a token without a Value.
  pub record WithoutValue (args : List Bytes) : Type 0 where
    pub before : List Bytes
    pub token_name : Bytes
    pub nonce : Bytes
    pub value : Bytes
    pub after : List Bytes
    pub place : args ≡ before ++ (token_name ∷ nonce ∷ value ∷ after)
    pub some_nonce : 0 < to_u64 (set_bytes nonce)
    pub long : max_length_for_value_to_opt_transfer < length value
    pub no_value : unmarshal_value value ≡ ok none
