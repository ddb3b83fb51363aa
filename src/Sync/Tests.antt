-- ===== src/Sync/Tests.antt =====
-- crates/sync: the theorems at concrete messages.
use ethui.Common.{ℕ, ◌≡◌, false, ◌&&◌, List, [], ◌∷◌, nat_Same, pair_Same}
use ethui.Common.Dict
use ethui.Common.Exec.{Result, ok}
use ethui.Types.{Address}
use ethui.Sync.{track_address, track_network, poll_address, new_worker, run}
use ethui.Sync.Pairs.{Received, addr_tracked, chain_tracked, run-pairs}

abbrev no_tokens : ℕ → Result (List Address)
no_tokens c = ok []

-- Ethereum and Anvil, of which only the first is supported, for one address.
abbrev messages : List Received
messages =
    (track_network 1, no_tokens)
    ∷ (track_address 7, no_tokens)
    ∷ (track_network 31337, no_tokens)
    ∷ (poll_address 7, no_tokens)
    ∷ []

run-pairs_example :
    Dict.contains_key (run messages new_worker).workers (7, 1)
    ≡ (addr_tracked 7 messages false && chain_tracked 1 messages false)
run-pairs_example = run-pairs messages 7 1
