-- ===== src/Metadata.antt =====
-- builtInFunctions/dcdtMetaData.go and codeMetadata.go: flags packed into two bytes.
pub mod RoundTrip
use Prim.Native.Nat.{bit_and, bit_or}
use k_chain_vm_common_go.Common.{
  ℕ, ◌≡◌, refl, Bool, true, false, not, List, [], ◌∷◌, Bytes, ◌==◌, if◌then◌else◌,
}

abbrev pub metadata_paused : ℕ
metadata_paused = 1

abbrev pub metadata_limited_transfer : ℕ
metadata_limited_transfer = 2

abbrev pub metadata_burn_role_for_all : ℕ
metadata_burn_role_for_all = 4

abbrev pub metadata_frozen : ℕ
metadata_frozen = 1

-- (b & mask) != 0
abbrev pub has_bit : ℕ → ℕ → Bool
has_bit b mask = not (bit_and b mask == 0)

-- if flag { b |= mask }
abbrev pub with_bit : Bool → ℕ → ℕ → ℕ
with_bit flag mask b = if flag then bit_or b mask else b

pub record GlobalMetadata : Type 0 where
  pub paused : Bool
  pub limited_transfer : Bool
  pub burn_role_for_all : Bool

-- DCDTGlobalMetadataFromBytes
unfoldable pub global_metadata_from_bytes : Bytes → GlobalMetadata
global_metadata_from_bytes (b ∷ c ∷ []) = record {
  paused = has_bit b metadata_paused;
  limited_transfer = has_bit b metadata_limited_transfer;
  burn_role_for_all = has_bit b metadata_burn_role_for_all;
}
global_metadata_from_bytes _ = record {
  paused = false;
  limited_transfer = false;
  burn_role_for_all = false;
}

-- (*DCDTGlobalMetadata).ToBytes
unfoldable pub global_metadata_to_bytes : GlobalMetadata → Bytes
global_metadata_to_bytes m =
    with_bit m.burn_role_for_all metadata_burn_role_for_all
      (with_bit m.limited_transfer metadata_limited_transfer (with_bit m.paused metadata_paused 0))
    ∷ 0
    ∷ []

pub record UserMetadata : Type 0 where
  pub frozen : Bool

-- DCDTUserMetadataFromBytes
unfoldable pub user_metadata_from_bytes : Bytes → UserMetadata
user_metadata_from_bytes (b ∷ c ∷ []) = record { frozen = has_bit b metadata_frozen }
user_metadata_from_bytes _ = record { frozen = false }

-- (*DCDTUserMetadata).ToBytes
unfoldable pub user_metadata_to_bytes : UserMetadata → Bytes
user_metadata_to_bytes m = with_bit m.frozen metadata_frozen 0 ∷ 0 ∷ []

-- codeMetadata.go
pub record CodeMetadata : Type 0 where
  pub payable : Bool
  pub payable_by_sc : Bool
  pub upgradeable : Bool
  pub readable : Bool
  pub guarded : Bool

abbrev pub metadata_upgradeable : ℕ
metadata_upgradeable = 1

abbrev pub metadata_readable : ℕ
metadata_readable = 4

abbrev pub metadata_guarded : ℕ
metadata_guarded = 8

abbrev pub metadata_payable : ℕ
metadata_payable = 2

abbrev pub metadata_payable_by_sc : ℕ
metadata_payable_by_sc = 4

-- CodeMetadataFromBytes
unfoldable pub code_metadata_from_bytes : Bytes → CodeMetadata
code_metadata_from_bytes (b ∷ c ∷ []) = record {
  upgradeable = has_bit b metadata_upgradeable;
  readable = has_bit b metadata_readable;
  guarded = has_bit b metadata_guarded;
  payable = has_bit c metadata_payable;
  payable_by_sc = has_bit c metadata_payable_by_sc;
}
code_metadata_from_bytes _ = record {
  upgradeable = false;
  readable = false;
  guarded = false;
  payable = false;
  payable_by_sc = false;
}

-- (*CodeMetadata).ToBytes
unfoldable pub code_metadata_to_bytes : CodeMetadata → Bytes
code_metadata_to_bytes m =
    with_bit m.guarded metadata_guarded
      (with_bit m.readable metadata_readable (with_bit m.upgradeable metadata_upgradeable 0))
    ∷ with_bit m.payable_by_sc metadata_payable_by_sc (with_bit m.payable metadata_payable 0)
    ∷ []
