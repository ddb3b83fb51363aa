-- ===== src/Lib.antt =====
-- ethui, a developer wallet: a verification library for the core of its Rust crates.
--
-- The program is a set of actors in one process. Each keeps its state in memory, writes it to a JSON file
-- of its own and takes messages one by one; they tell each other and the interface of changes by broadcast.
-- The networks actor keeps the networks and the current one, the connections store what each web domain is
-- bound to, the wallets actor the wallets and the current one, the settings what the user chose, the sync
-- worker the pairs of an address and a chain that it follows, the tracker the blocks of each development
-- node, the artifacts actor the ABIs of the projects in the watched folders, and the stacks actor the
-- container of the local stacks. WalletConnect keeps the pairings and the sessions with web sites that are
-- elsewhere, and the web socket server the peers that are connected. The RPC methods work on these for a web
-- site, and ask the user by dialogs. The proxy detection finds the contract behind a proxy.
--
-- The files, and the code that each models:
-- - Common.antt, Common/: what the others share. Exec.antt is the monad of methods on `&mut self` that may
--   fail or panic, Dict.antt a map as an association list, Lists.antt the iterators, Tests.antt equality as
--   a class, Radix.antt the reading and writing of numbers by the standard library, Json.antt the values
--   that `serde_json::json!` builds and the code indexes.
-- - Types.antt: crates/types (network/mod.rs, network/id.rs, affinity.rs, new_network_params.rs).
-- - Broadcast.antt: the messages of crates/broadcast/src/lib.rs.
-- - Networks.antt: crates/networks/src/actor/mod.rs, an action for each message. Networks/Service.antt: the
--   status poller and the receiver of init.rs, and the start. Networks/Migrations.antt: migrations.rs.
--   Networks/Invariant, Lookup, Lowest, Current, Dedup and Statuses hold the proofs.
-- - Connections.antt: crates/connections/src (store.rs, ctx.rs, utils.rs, commands.rs). The `World` of a
--   handler is what it reaches: its domain, the store and the networks actor, which it asks only.
--   Connections/Migrations.antt: migrations.rs. Connections/Affinities and Switching hold the proofs.
--   Connections/Permissions.antt: permissions.rs.
-- - Rpc.antt: the chain id of crates/rpc/src/params.rs and the error codes of error.rs. Rpc/Method.antt: the
--   results of a method, and the loop over a dialog's messages. Rpc/Chains.antt: methods/chain_add.rs and
--   chain_update.rs over the networks actor, which handles the messages of others while a dialog is open.
--   Rpc/Tokens.antt and Rpc/Adding.antt: methods/token_add.rs, its data and checks, and its runs.
--   Rpc/Sending.antt: methods/send_transaction.rs and the parameters of send_call.rs, over a trace of what
--   reaches the user and the node. Rpc/Signing.antt: methods/sign_message.rs.
--   Rpc/Laws, Switching, Updating, Saving, Reviewing, Consenting, Creating, Signing/Agreement and Signing/Panics hold
--   the proofs.
-- - Wallets.antt: crates/wallets/src/lib.rs, over the interface of a wallet (wallet.rs) as a record of
--   operations. Wallets/Impersonator.antt: wallets/impersonator.rs, which fills the interface.
--   Wallets/Secrets.antt: secret_cache.rs. Wallets/Hd.antt: wallets/hd_wallet.rs with the derivation of utils.rs.
--   Wallets/Selection, Removal, Names, Derived and Kept hold the proofs.
-- - Settings.antt: crates/settings/src (lib.rs, onboarding.rs). Settings/Migrations.antt: migrations.rs.
--   Settings/Actor.antt: actor/mod.rs, where a value of the JSON map is a field that is absent, of the wrong
--   type, or a value. Settings/Steps and Setting hold the proofs.
-- - Sync.antt: crates/sync/src (lib.rs, worker.rs). Sync/Alchemy.antt: crates/sync/alchemy/src/networks.rs.
--   Sync/Spawning and Pairs hold the proofs.
-- - Devnet.antt: crates/sync/devnet/src/tracker: the wait for a node, the backfill and the loop of a run
--   (worker.rs, http.rs, ws.rs, utils.rs). Devnet/Consumer.antt: consumer.rs. Devnet/Watching.antt: the table
--   of workers (mod.rs) and the receiver of init.rs. Devnet/Order, Backoff and Following hold the proofs.
-- - Walletconnect.antt: crates/walletconnect/src: the tables, the envelopes (crypto.rs) and the pairings
--   (pairing.rs). Of session.rs, Walletconnect/Bodies.antt has what is published, Proposals.antt the handling
--   of a proposal to its settlement, Requests.antt the requests and the calls of the interface, and
--   Dispatch.antt `dispatch`, the tasks that it spawns, and the crate as a sequence of events. A task runs
--   whole when its turn comes; of a proposal whose task panics the topic is kept beside the code's state.
--   Walletconnect/Serving, Methods, Proposing and Envelopes hold the proofs.
-- - Artifacts/Actor.antt: crates/sol-artifacts/src/actor/mod.rs, and the score of utils.rs.
--   Artifacts/Abi.antt: abi.rs. Artifacts/Roots.antt: the actor's search for project roots, on the paths of
--   Artifacts/Paths.antt.
--   Artifacts/Debounce.antt: what reaches the actor, its own messages included. Artifacts/Covering and Updates
--   hold the proofs.
-- - Stacks.antt: crates/stacks/src/actor/mod.rs, with the state of a container as the index of its manager.
--   Stacks/Docker.antt: docker.rs, as the commands that it issues and what they answer, with the seven states of its
--   manager. Stacks/Enabled, Ordered and Replaced hold the proofs.
-- - Peers.antt: crates/ws/src (peers.rs, server.rs, init.rs), the connections as a sequence of events; a method that
--   panics ends the task of its connection.
--   Peers/Tended, Lives, Shares, Reached and Domains hold the proofs.
-- - Proxy.antt: crates/proxy-detect/src, every detector over what a node answers. Proxy/Minimal and Order hold
--   the proofs.
-- - The modules named Tests, or ending so, apply the theorems at concrete values.
--
-- How the code is modelled. A method on `&mut self` is a function from the state to a result and a state:
-- what was written before an error or a panic stays written, as in an actor, which goes on with the next
-- message. `file` is what the file holds; whether it can be written is a parameter. `sent` is what was
-- broadcast, in order; a task that only broadcasts is taken to run where it is spawned. The source leaves the
-- order of a `HashMap` open; here it is the list's, and the theorems are about every list. What a node
-- answers, the JSON of a new wallet, the calls of the database, and what the settings actor calls (the tests of
-- keys, the autostart, the log filter and `trim`) are parameters. So are the relay, the ciphers and the URL
-- parser, the token service, the file system and its watcher, the container program, the expanders of traces,
-- and what the user answers to a dialog. A URL is its text and an address a number.
--
-- Bounds. A `u64` or `usize` that is read from text is below 2 ^ 64, and the reading checks it; other numbers
-- are only compared and counted. Writing a number has 64 digits of fuel, enough at every radix from 2, as the
-- round trip shows. A migration has as much fuel as there are older formats; the theorems on it show that it
-- suffices.
--
-- Not modelled: files and the reading of JSON from them, channels, the table of RPC methods, the
-- wallets other than the impersonator and the one of a mnemonic, the indexers' HTTP, the expanders of traces and logs,
-- the listening of the web socket server, the windows of dialogs, the simulator, the database, the desktop shell and the web
-- interface.
pub mod Artifacts
pub mod Broadcast
pub mod Common
pub mod Connections
pub mod Devnet
pub mod Networks
pub mod Peers
pub mod Proxy
pub mod Rpc
pub mod Settings
pub mod Stacks
pub mod Sync
pub mod Types
pub mod Walletconnect
pub mod Wallets
