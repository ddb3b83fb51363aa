-- ===== src/Sync/Pairs.antt =====
-- crates/sync/src/worker.rs: which pairs of an address and a chain have a worker.
use ethui.Common.{
  ℕ, ◌≡◌, ◌∙◌, refl, sym, ap, Bool, true, false, not, ◌&&◌, Option, none, some, List, [], ◌∷◌, ◌++◌,
  map, ◌==◌, nat_Same, nat_same_iff, Bool-cases, pair_Same, if◌then◌else◌, arith, inl, inr,
}
use ethui.Common.Dict
use ethui.Common.Dict.{Dict, contains_key-insert, All-insert, contains_key-get}
use ethui.Common.Exec.{Result}
use ethui.Types.{Address, Network, chain_id}
use ethui.Broadcast.{network_removed}
use ethui.Sync.Alchemy.{supports_network}
use ethui.Sync.{
  Msg, fetch_full_tx_sync, track_address, untrack_address, track_network, untrack_network,
  poll_address, poll_network, Worker, new_worker, member, set_insert, track_addr, untrack_addr,
  track_chain, untrack_chain, poll_pair, prioritize_addr, prioritize_network, fetch_full_tx,
  update_chains, update_erc20_metadata, receive, run, try_from,
}
use ethui.Sync.Spawning.{
  member-set_insert, member-set_remove, contains_key-filter, spawn_all-keeps, any-pairs_addr,
  any-pairs_chain,
}

abbrev pub Received : Type 0
Received = Msg × (ℕ → Result (List Address))

-- Whether an address is tracked after a message, by whether it was before.
abbrev pub addr_after : Address → Msg → Bool → Bool
addr_after a (track_address x) before = if x == a then true else before
addr_after a (untrack_address x) before = if x == a then false else before
addr_after a _ before = before

-- Whether a chain is tracked after a message, by whether it was before: only a supported chain is.
abbrev pub chain_after : ℕ → Msg → Bool → Bool
chain_after c (track_network x) before = if x == c && supports_network c then true else before
chain_after c (untrack_network x) before = if x == c then false else before
chain_after c _ before = before

-- The last message on an address or a chain decides; at the start nothing is tracked.
abbrev pub addr_tracked : Address → List Received → Bool → Bool
addr_tracked a [] before = before
addr_tracked a ((msg, missing) ∷ rest) before = addr_tracked a rest (addr_after a msg before)

abbrev pub chain_tracked : ℕ → List Received → Bool → Bool
chain_tracked c [] before = before
chain_tracked c ((msg, missing) ∷ rest) before = chain_tracked c rest (chain_after c msg before)

-- The pairs that have a worker are those of a tracked address and a tracked chain.
abbrev HasPairs : Worker → Type 0
HasPairs w =
    (a c : ℕ) → Dict.contains_key w.workers (a, c) ≡ (member a w.addresses && member c w.chain_ids)

-- The worker after one message: the tracked sets, and a worker for exactly the tracked pairs.
record Step (msg : Msg) (w v : Worker) : Type 0 where
  addresses : (a : ℕ) → member a v.addresses ≡ addr_after a msg (member a w.addresses)
  chain_ids : (c : ℕ) → member c v.chain_ids ≡ chain_after c msg (member c w.chain_ids)
  pairs : HasPairs v

poll_pair-keeps :
    (a c : Option ℕ) (w : Worker)
    → let v = poll_pair a c w in
      (v.addresses ≡ w.addresses)
      × (v.chain_ids ≡ w.chain_ids)
      × (v.workers ≡ w.workers)
      × (v.tasks ≡ w.tasks)
unfolding poll_pair
poll_pair-keeps (some a) (some c) w = ground arith
poll_pair-keeps none c w = (refl, refl, refl, refl)
poll_pair-keeps (some a) none w = (refl, refl, refl, refl)

supported-after :
    (x c : ℕ) (before : Bool)
    → supports_network x ≡ true
    → chain_after c (track_network x) before ≡ (if x == c then true else before)
supported-after x c before s = ground (arith, nat_same_iff x c, ap supports_network {x = x} {y = c})

unsupported-after :
    (x c : ℕ) (before : Bool)
    → supports_network x ≡ false
    → chain_after c (track_network x) before ≡ before
unsupported-after x c before s =
    ground (arith, nat_same_iff x c, ap supports_network {x = x} {y = c})

track_chain-Step : (x : ℕ) (w : Worker) → HasPairs w → Step (track_network x) w (track_chain x w)
unfolding track_chain
track_chain-Step x w h =
    let u : Worker = record w { chain_ids = set_insert x w.chain_ids } in
    let (e, f, k) = spawn_all-keeps (map (λ a. (a, x)) w.addresses) u in
    elim (Bool-cases (supports_network x)) [
      | inl s ↦ rw s (record {
        addresses = λ a. rw e refl;
        chain_ids = λ c.
            rw (f, supported-after x c (member c w.chain_ids) s)
              (member-set_insert c x w.chain_ids);
        pairs = λ a c.
            rw
              (
                k (a, c),
                e,
                f,
                member-set_insert c x w.chain_ids,
                any-pairs_chain x a c w.addresses,
                h a c,
              )
              (ground arith);
      })
      | inr s ↦ rw s (record {
        addresses = λ a. refl;
        chain_ids = λ c. sym (unsupported-after x c (member c w.chain_ids) s);
        pairs = h;
      })
    ]

receive-Step : (msg : Msg) (w : Worker) → HasPairs w → Step msg w (receive msg w)
unfolding receive track_addr track_chain untrack_addr untrack_chain prioritize_addr
    prioritize_network fetch_full_tx
receive-Step (track_address x) w h =
    let u : Worker = record w { addresses = set_insert x w.addresses } in
    let (e, f, k) = spawn_all-keeps (map (λ c. (x, c)) w.chain_ids) u in
    record {
      addresses = λ a. rw e (member-set_insert a x w.addresses);
      chain_ids = λ c. rw f refl;
      pairs = λ a c.
          rw
            (
              k (a, c),
              e,
              f,
              member-set_insert a x w.addresses,
              any-pairs_addr x a c w.chain_ids,
              h a c,
            )
            (ground arith);
    }
receive-Step (untrack_address x) w h = record {
  addresses = λ a. member-set_remove a x w.addresses;
  chain_ids = λ c. refl;
  pairs = λ a c. ground (
    arith,
    contains_key-filter (λ p. not (p.0 == x)) w.workers (a, c),
    h a c,
    member-set_remove a x w.addresses,
    nat_same_iff x a,
    nat_same_iff a x,
  );
}
receive-Step (track_network x) w h =
    let t = track_chain-Step x w h in
    record { addresses = t.addresses; chain_ids = t.chain_ids; pairs = t.pairs }
receive-Step (untrack_network x) w h = record {
  addresses = λ a. refl;
  chain_ids = λ c. member-set_remove c x w.chain_ids;
  pairs = λ a c. ground (
    arith,
    contains_key-filter (λ p. not (p.1 == x)) w.workers (a, c),
    h a c,
    member-set_remove c x w.chain_ids,
    nat_same_iff x c,
    nat_same_iff c x,
  );
}
receive-Step (poll_address x) w h =
    let k = poll_pair-keeps (some x) w.current.1 (record w { current = (some x, w.current.1) }) in
    record {
      addresses = λ a. rw k.0 refl;
      chain_ids = λ c. rw k.1 refl;
      pairs = λ a c. rw (k.0, k.1, k.2) (h a c);
    }
receive-Step (poll_network x) w h =
    let k = poll_pair-keeps w.current.0 (some x) (record w { current = (w.current.0, some x) }) in
    elim (Bool-cases (supports_network x)) [
      | inl s ↦ rw s (record {
        addresses = λ a. rw k.0 refl;
        chain_ids = λ c. rw k.1 refl;
        pairs = λ a c. rw (k.0, k.1, k.2) (h a c);
      })
      | inr s ↦ rw s (record { addresses = λ a. refl; chain_ids = λ c. refl; pairs = h })
    ]
receive-Step (fetch_full_tx_sync x hash) w h = elim (Bool-cases (supports_network x)) [
  | inl s ↦ rw s (record { addresses = λ a. refl; chain_ids = λ c. refl; pairs = h })
  | inr s ↦ rw s (record { addresses = λ a. refl; chain_ids = λ c. refl; pairs = h })
]

update_chains-keeps :
    (missing : ℕ → Result (List Address)) (cs : List ℕ) (w : Worker)
    → let v = update_chains missing cs w in
      (v.addresses ≡ w.addresses)
      × (v.chain_ids ≡ w.chain_ids)
      × (v.workers ≡ w.workers)
      × (v.tasks ≡ w.tasks)
unfolding update_chains
update_chains-keeps missing [] w = (refl, refl, refl, refl)
update_chains-keeps missing (c ∷ cs) w = grind (arith, update_chains-keeps missing cs)

run-Step :
    (ms : List Received) (w : Worker)
    → HasPairs w
    → let v = run ms w in
      (a c : ℕ)
      → Dict.contains_key v.workers (a, c)
        ≡ (addr_tracked a ms (member a w.addresses) && chain_tracked c ms (member c w.chain_ids))
unfolding run update_erc20_metadata
run-Step [] w h = h
run-Step ((msg, missing) ∷ rest) w h =
    let s = receive-Step msg w h in
    let u = receive msg w in
    let k = update_chains-keeps missing u.chain_ids u in
    λ a c.
      run-Step rest (update_chains missing u.chain_ids u) (λ a c. rw (k.0, k.1, k.2) (s.pairs a c))
        a c
      ∙ rw (k.0, k.1, s.addresses a, s.chain_ids c) refl

-- Whatever messages a new worker has taken, a pair has a worker exactly when the last message to track
-- or untrack its address tracked it, and the last such message on its chain tracked it, where tracking a
-- chain that is not supported counts for nothing.
pub run-pairs :
    (ms : List Received) (a c : ℕ)
    → Dict.contains_key (run ms new_worker).workers (a, c)
      ≡ (addr_tracked a ms false && chain_tracked c ms false)
unfolding Dict.contains_key
run-pairs ms a c = run-Step ms new_worker (λ a c. refl) a c

chain_tracked_untrack :
    (ms : List Received) (c : ℕ) (missing : ℕ → Result (List Address)) (before : Bool)
    → chain_tracked c (ms ++ (untrack_network c, missing) ∷ []) before ≡ false
chain_tracked_untrack [] c missing before = ground (arith, nat_same_iff c c)
chain_tracked_untrack ((msg, m) ∷ ms) c missing before =
    chain_tracked_untrack ms c missing (chain_after c msg before)

-- The removal of a network untracks its whole chain: whatever came before, once the removal of `n` is
-- taken no address has a worker on the chain of another network `m` of that chain.
pub removal_untracks_shared :
    (ms : List Received) (n m : Network) (a : ℕ) (missing : ℕ → Result (List Address))
    → chain_id m ≡ chain_id n
    → (msg : Msg) × (try_from (network_removed n) ≡ some msg)
      × (Dict.contains_key (run (ms ++ (msg, missing) ∷ []) new_worker).workers (a, chain_id m)
          ≡ false)
unfolding try_from
removal_untracks_shared ms n m a missing e =
    let after : List Received = ms ++ (untrack_network (chain_id n), missing) ∷ [] in
    (
      untrack_network (chain_id n),
      refl,
      rw (e, run-pairs after a (chain_id n), chain_tracked_untrack ms (chain_id n) missing false)
          (ground arith),
    )
