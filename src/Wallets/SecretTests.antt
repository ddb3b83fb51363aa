-- ===== src/Wallets/SecretTests.antt =====
-- crates/wallets/src/secret_cache.rs: the theorems at a secret that expires.
use ethui.Common.{ℕ, String, Option, none, some, List, [], ◌∷◌, ◌==◌, text_Same, if◌then◌else◌}
use ethui.Common.Json.{object, str}
use ethui.Rpc.Method.{DialogMsg, payload, close}
use ethui.Wallets.Secrets.{
  Event, stores, passes, wakes, run, empty_cache, last_stored, Keeps60, run-Keeps60,
}

abbrev events : List Event
events = stores (1 ∷ []) ∷ passes 40 ∷ stores (2 ∷ []) ∷ passes 30 ∷ wakes ∷ []

run-Keeps60_example : Keeps60 (last_stored events none) (run events empty_cache)
run-Keeps60_example = run-Keeps60 events

abbrev try_decrypt : String → Option (List ℕ)
try_decrypt password = if password == "right" then some (1 ∷ []) else none

abbrev types_in : String → DialogMsg
types_in password = payload (object (("password", str password) ∷ []))

abbrev messages : List DialogMsg
messages = types_in "wrong" ∷ types_in "right" ∷ close ∷ []
