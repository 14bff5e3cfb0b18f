-- ===== src/Tests/Town.antt =====
-- A town of two accounts, and calls of one on the other.
use k_chain_vm_common_go.Common.{
  ℕ, true, false, List, [], ◌∷◌, some, Bytes, codes, ◌==◌, if◌then◌else◌,
}
use k_chain_vm_common_go.Common.Int.{pos}
use k_chain_vm_common_go.Errors.{Result, ok, err}
use k_chain_vm_common_go.Vm.{ContractCallInput, direct_call}
use k_chain_vm_common_go.Env.{World}
use k_chain_vm_common_go.Roles.{role_handler}
use k_chain_vm_common_go.Settings.{settings_handler}
use k_chain_vm_common_go.Payable.{payable_check}
use k_chain_vm_common_go.Local.{LocalFunction}
use k_chain_vm_common_go.Transfer.{TransferFunction}
use k_chain_vm_common_go.Tests.Bank.{Account, Db, bank, written}

abbrev pub token : Bytes
token = codes "T"

abbrev pub token_key : Bytes
token_key = codes "NdcdtT"

abbrev pub role_key : Bytes
role_key = codes "NroledcdtT"

-- An account with a balance and one role for the token.
abbrev pub holder : Bytes → ℕ → Bytes → Account
holder name amount role = record {
  address = name;
  trie = written (written (λ _. []) token_key (amount ∷ [])) role_key (1 ∷ role);
}

-- Account 0 holds 10 and may mint, every other account holds 5 and may burn.
abbrev pub town : World Account Db
town = record {
  accounts = λ p.
      if p == 0
      then holder (codes "alice") 10 (codes "mint")
      else holder (codes "bob") 5 (codes "burn");
  db = λ address key. [];
}

abbrev pub call : Bytes → Bytes → ℕ → ContractCallInput
call caller recipient amount = record {
  caller_addr = caller;
  arguments = token ∷ (amount ∷ []) ∷ [];
  call_value = some (pos 0);
  call_type = direct_call;
  gas_provided = 100;
  gas_locked = 0;
  return_call_after_error = false;
  recipient_addr = recipient;
  function = codes "f";
}

abbrev pub to_bob : ContractCallInput
to_bob = call (codes "alice") (codes "bob") 3

abbrev pub by_alice : ContractCallInput
by_alice = call (codes "alice") (codes "alice") 3

abbrev pub transfers : TransferFunction (World Account Db)
transfers = record {
  func_gas_cost = 7;
  settings = settings_handler bank true;
  roles = role_handler bank;
  payable_handler = payable_check bank (λ w snd dst. ok true);
}

abbrev pub output_of : {A : Type 0} → Result A → A → A
output_of (ok a) d = a
output_of (err x) d = d

abbrev pub locals : LocalFunction (World Account Db)
locals = record {
  func_gas_cost = 7;
  settings = settings_handler bank true;
  roles = role_handler bank;
}

-- A call of the system contract.
abbrev pub from_system : Bytes → List Bytes → ContractCallInput
from_system recipient args = record {
  caller_addr = codes "system";
  arguments = args;
  call_value = some (pos 0);
  call_type = direct_call;
  gas_provided = 0;
  gas_locked = 0;
  return_call_after_error = false;
  recipient_addr = recipient;
  function = codes "f";
}
