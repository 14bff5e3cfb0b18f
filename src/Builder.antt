-- ===== src/Builder.antt =====
-- txDataBuilder/builder.go: the text of a call, built element by element.
pub mod RoundTrip
use k_chain_vm_common_go.Common.{
  ℕ, Bool, true, false, List, [], ◌∷◌, ◌++◌, Bytes, codes, if◌then◌else◌, length,
}
use k_chain_vm_common_go.Common.Int.{ℤ, pos}
use k_chain_vm_common_go.Numbers.{int_bytes}
use k_chain_vm_common_go.Hex.{encode_to_string}
use k_chain_vm_common_go.Env.{Core}

pub record TxDataBuilder : Type 0 where
  pub function : Bytes
  pub elements : List Bytes
  pub separator : Bytes

unfoldable pub new_builder : TxDataBuilder
new_builder = record { function = []; elements = []; separator = codes "@" }

unfoldable pub clear : TxDataBuilder → TxDataBuilder
clear builder = record builder { function = []; elements = [] }

-- The loop of ToString, from the text so far.
unfoldable pub append_elements : Bytes → Bytes → List Bytes → Bytes
append_elements separator text [] = text
append_elements separator text (element ∷ elements) =
    append_elements separator ((text ++ separator) ++ element) elements

unfoldable pub to_string : TxDataBuilder → Bytes
unfolding append_elements
to_string builder = append_elements builder.separator builder.function builder.elements

unfoldable pub get_last : TxDataBuilder → Bytes
get_last builder = last builder.elements
  where
    last : List Bytes → Bytes
    last [] = []
    last (x ∷ []) = x
    last (x ∷ y ∷ xs) = last (y ∷ xs)

abbrev pub with_last : Bytes → List Bytes → List Bytes
with_last element [] = element ∷ []
with_last element (x ∷ []) = element ∷ []
with_last element (x ∷ y ∷ xs) = x ∷ with_last element (y ∷ xs)

unfoldable pub set_last : Bytes → TxDataBuilder → TxDataBuilder
set_last element builder = record builder { elements = with_last element builder.elements }

unfoldable pub func : Bytes → TxDataBuilder → TxDataBuilder
func function builder = record builder { function = function }

-- Bytes
unfoldable pub bytes : Bytes → TxDataBuilder → TxDataBuilder
unfolding encode_to_string
bytes bs builder = record builder { elements = builder.elements ++ encode_to_string bs ∷ [] }

-- Byte
unfoldable pub byte : ℕ → TxDataBuilder → TxDataBuilder
unfolding encode_to_string
byte value builder = record builder {
  elements = builder.elements ++ encode_to_string (value ∷ []) ∷ [];
}

-- Str
unfoldable pub str : Bytes → TxDataBuilder → TxDataBuilder
unfolding encode_to_string
str s builder = record builder { elements = builder.elements ++ encode_to_string s ∷ [] }

-- Int and Int64: the bytes of the absolute value.
unfoldable pub int64 : ℤ → TxDataBuilder → TxDataBuilder
unfolding encode_to_string int_bytes
int64 value builder = record builder {
  elements = builder.elements ++ encode_to_string (int_bytes value) ∷ [];
}

-- Bool, with True and False
unfoldable pub bool : Bool → TxDataBuilder → TxDataBuilder
unfolding str
bool value = if value then str (codes "true") else str (codes "false")

-- BigInt
unfoldable pub big_int : ℤ → TxDataBuilder → TxDataBuilder
unfolding bytes int_bytes
big_int value = bytes (int_bytes value)

-- IssueDCDT
unfoldable pub issue_dcdt : Bytes → Bytes → ℤ → ℕ → TxDataBuilder → TxDataBuilder
unfolding func str int64 byte
issue_dcdt token ticker supply num_decimals builder =
    byte num_decimals (int64 supply (str ticker (str token (func (codes "issue") builder))))

-- TransferDCDT
unfoldable pub transfer_dcdt : Core → Bytes → ℤ → TxDataBuilder → TxDataBuilder
unfolding func str int64
transfer_dcdt core token value builder =
    int64 value (str token (func core.built_in_function_dcdt_transfer builder))

-- TransferDCDTNFT
unfoldable pub transfer_dcdt_nft : Core → Bytes → ℤ → ℤ → TxDataBuilder → TxDataBuilder
unfolding func str int64
transfer_dcdt_nft core token nonce value builder =
    int64 value (int64 nonce (str token (func core.built_in_function_dcdt_nft_transfer builder)))

-- BurnDCDT
unfoldable pub burn_dcdt : Core → Bytes → ℤ → TxDataBuilder → TxDataBuilder
unfolding func str int64
burn_dcdt core token value builder =
    int64 value (str token (func core.built_in_function_dcdt_burn builder))

-- CanFreeze, CanWipe, CanPause, CanMint, CanBurn, CanTransferNFTCreateRole, CanAddSpecialRoles: a
-- property's name and its value.
pub data Property : Type 0 where
  can_freeze can_wipe can_pause can_mint can_burn : Property
  can_transfer_nft_create_role can_add_special_roles : Property

unfoldable pub property_name : Property → Bytes
property_name can_freeze = codes "canFreeze"
property_name can_wipe = codes "canWipe"
property_name can_pause = codes "canPause"
property_name can_mint = codes "canMint"
property_name can_burn = codes "canBurn"
property_name can_transfer_nft_create_role = codes "canTransferNFTCreateRole"
property_name can_add_special_roles = codes "canAddSpecialRoles"

unfoldable pub can : Property → Bool → TxDataBuilder → TxDataBuilder
unfolding str bool property_name
can property prop builder = bool prop (str (property_name property) builder)
