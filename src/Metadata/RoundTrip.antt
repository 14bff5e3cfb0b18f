-- ===== src/Metadata/RoundTrip.antt =====
-- Reading back the packed flags.
use k_chain_vm_common_go.Common.{◌≡◌, arith, AreBytes}
use k_chain_vm_common_go.Metadata.{
  GlobalMetadata, global_metadata_from_bytes, global_metadata_to_bytes, UserMetadata,
  user_metadata_from_bytes, user_metadata_to_bytes, CodeMetadata, code_metadata_from_bytes,
  code_metadata_to_bytes,
}

pub global_metadata_round_trip :
    (m : GlobalMetadata) → global_metadata_from_bytes (global_metadata_to_bytes m) ≡ m
unfolding global_metadata_from_bytes global_metadata_to_bytes
global_metadata_round_trip m = ground arith

user_metadata_round_trip :
    (m : UserMetadata) → user_metadata_from_bytes (user_metadata_to_bytes m) ≡ m
unfolding user_metadata_from_bytes user_metadata_to_bytes
user_metadata_round_trip m = ground arith

pub code_metadata_round_trip :
    (m : CodeMetadata) → code_metadata_from_bytes (code_metadata_to_bytes m) ≡ m
unfolding code_metadata_from_bytes code_metadata_to_bytes
code_metadata_round_trip m = ground arith

-- Global, user and code metadata are read back from their two bytes.
pub metadata_round_trips :
    (g : GlobalMetadata) (u : UserMetadata) (c : CodeMetadata)
    → (global_metadata_from_bytes (global_metadata_to_bytes g) ≡ g)
      × (user_metadata_from_bytes (user_metadata_to_bytes u) ≡ u)
      × (code_metadata_from_bytes (code_metadata_to_bytes c) ≡ c)
metadata_round_trips g u c =
    (global_metadata_round_trip g, user_metadata_round_trip u, code_metadata_round_trip c)

pub code_metadata-AreBytes : (m : CodeMetadata) → AreBytes (code_metadata_to_bytes m)
unfolding code_metadata_to_bytes
code_metadata-AreBytes m = ground arith
