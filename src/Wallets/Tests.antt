-- ===== src/Wallets/Tests.antt =====
-- crates/wallets: the theorems at a list of impersonators.
use ethui.Common.{true, none, some, [], ◌∷◌, arith, text_Same}
use ethui.Common.Exec.{Result, ok}
use ethui.Wallets.{WalletControl, Wallets}
use ethui.Wallets.Selection.{IsValid, handle, remove_request, handle-IsValid}
use ethui.Wallets.Impersonator.{Impersonator, Params, impersonator_control}

abbrev ann : Impersonator
ann = record { name = "ann"; addresses = 11 ∷ 12 ∷ []; current = 0 }

abbrev bob : Impersonator
bob = record { name = "bob"; addresses = 21 ∷ []; current = 0 }

abbrev new_wallet : Params → Result Impersonator
new_wallet params = ok (record { name = "new"; addresses = 31 ∷ []; current = 0 })

abbrev control : WalletControl Params Impersonator
control = impersonator_control new_wallet

abbrev state : Wallets Impersonator
state = record { wallets = ann ∷ bob ∷ []; current = 1; file = none; sent = [] }

abbrev renaming : Params
renaming = record { name = some "bob"; addresses = none; current = none }

handle-IsValid_example : IsValid (handle control true (remove_request "ann") state).1
handle-IsValid_example = handle-IsValid control true (remove_request "ann") state (omega arith)
