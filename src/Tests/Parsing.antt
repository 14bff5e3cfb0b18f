-- ===== src/Tests/Parsing.antt =====
-- Multi transfers read from concrete arguments.
use k_chain_vm_common_go.Common.{
  zero, suc, ◌≤◌, ◌≡◌, refl, List, [], ◌∷◌, ◌++◌, Bytes, codes, arith, replicate, Option, none,
  some, map,
}
use k_chain_vm_common_go.Common.Int.{ℤ, pos}
use k_chain_vm_common_go.Numbers.{u64_mod, set_bytes}
use k_chain_vm_common_go.Errors.{Result, ok, err, runtime_panic}
use k_chain_vm_common_go.TransferParser.{multi_head, parse_transfers, parse_multi_dcdt_nft_transfer}
use k_chain_vm_common_go.TransferParser.RoundTrip.{
  RawTransfer, raw_arguments, described, parse_multi-raw_arguments,
}
use k_chain_vm_common_go.Tests.Bank.{core}
use k_chain_vm_common_go.Tests.Runs.{runs}

-- A marshaller of tokens that have only a value: no bytes and data that begin with 0 have none.
abbrev read_value : Bytes → Result (Option ℤ)
read_value [] = ok none
read_value (zero ∷ b) = ok none
read_value (suc n ∷ b) = ok (some (pos (suc n)))

abbrev alice : Bytes
alice = replicate 9 7

abbrev bob : Bytes
bob = replicate 9 8

abbrev two_transfers : List RawTransfer
two_transfers =
    record { token_name = codes "T"; nonce = 1 ∷ []; value = 2 ∷ [] }
    ∷ record { token_name = codes "U"; nonce = []; value = 5 ∷ [] }
    ∷ []

bob_is_long : u64_mod ≤ set_bytes bob
unfolding runs
bob_is_long = omega arith

two : set_bytes (2 ∷ []) ≡ 2
unfolding runs
two = refl

parse_multi-raw_arguments_example :
    parse_multi_dcdt_nft_transfer core read_value alice
      (bob ∷ (2 ∷ []) ∷ (raw_arguments two_transfers ++ (codes "f" ∷ codes "x" ∷ [])))
    ≡ ok (record {
      dcdt_transfers = map (described core) two_transfers;
      rcv_addr = bob;
      call_function = codes "f";
      call_args = codes "x" ∷ [];
    })
parse_multi-raw_arguments_example =
    parse_multi-raw_arguments core read_value alice bob (2 ∷ []) two_transfers
      (codes "f" ∷ codes "x" ∷ []) refl bob_is_long two (omega arith) (omega arith)

-- A transfer on the receiver's side: one, of a token with a nonce, whose data are long and have no
-- value.
abbrev without_value : List Bytes
without_value = (1 ∷ []) ∷ codes "T" ∷ (1 ∷ []) ∷ replicate 33 0 ∷ []

-- A number of transfers whose triple and one is 2 ^ 64: the least length wraps around to 0.
abbrev wrapping : List Bytes
wrapping = replicate 8 85 ∷ codes "T" ∷ [] ∷ (1 ∷ []) ∷ []

wrapping_panics : parse_multi_dcdt_nft_transfer core read_value alice wrapping ≡ err runtime_panic
unfolding runs multi_head parse_transfers parse_multi_dcdt_nft_transfer
wrapping_panics = refl
