-- ===== src/Tests/Limited.antt =====
-- A transfer of a token of limited transfer at concrete inputs.
use k_chain_vm_common_go.Common.{◌≡◌, refl, true, [], ◌∷◌, some, codes, ◌==◌, if◌then◌else◌}
use k_chain_vm_common_go.Errors.{ok, err, action_not_allowed}
use k_chain_vm_common_go.Vm.{VmOutput}
use k_chain_vm_common_go.Env.{World}
use k_chain_vm_common_go.Logs.{new_output}
use k_chain_vm_common_go.Settings.{settings_handler}
use k_chain_vm_common_go.Transfer.{TransferFunction, process_transfer}
use k_chain_vm_common_go.Transfer.Limited.{HasTransferRole, limited_transfer_needs_role}
use k_chain_vm_common_go.Tests.Bank.{Account, Db, bank}
use k_chain_vm_common_go.Tests.Town.{token, holder, town, to_bob, transfers, output_of}
use k_chain_vm_common_go.Tests.Runs.{runs}

-- Every token is of limited transfer.
abbrev limited_transfers : TransferFunction (World Account Db)
limited_transfers = record transfers {
  settings = record (settings_handler bank true) { is_limited_transfer = λ w key. true };
}

-- Account 1 has the transfer role.
abbrev licensed_town : World Account Db
licensed_town = record town {
  accounts = λ p.
      if p == 0
      then holder (codes "alice") 10 (codes "mint")
      else holder (codes "bob") 5 (codes "transfer");
}

abbrev licensed : VmOutput
licensed =
    output_of
      (process_transfer bank limited_transfers (some 0) (some 1) (some to_bob) licensed_town).0
      (new_output 0)

licensed_ok :
    (process_transfer bank limited_transfers (some 0) (some 1) (some to_bob) licensed_town).0
    ≡ ok licensed
unfolding runs
licensed_ok = refl

limited_transfer_needs_role_example :
    HasTransferRole bank limited_transfers licensed_town token to_bob 0 (some 1)
limited_transfer_needs_role_example =
    limited_transfer_needs_role bank limited_transfers 0 (some 1) to_bob token (3 ∷ []) []
      licensed_town licensed refl refl refl refl licensed_ok

-- Where no one has the role, the transfer is refused.
unlicensed_refused :
    (process_transfer bank limited_transfers (some 0) (some 1) (some to_bob) town).0
    ≡ err action_not_allowed
unfolding runs
unlicensed_refused = refl
