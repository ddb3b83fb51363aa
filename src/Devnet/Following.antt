-- ===== src/Devnet/Following.antt =====
-- crates/sync/devnet/src/tracker: the worker and the consumer together, from the blocks of a node to the
-- events in the database and the notices to the interface.
use ethui.Common.{
  ℕ, ◌+◌, ◌≤◌, ◌≡◌, refl, ap, ◌∙◌, true, false, some, List, [], ◌∷◌, ◌++◌, map, length, arith, All,
}
use ethui.Common.Exec.{ok}
use ethui.Types.{Address}
use ethui.Devnet.{Hash, Header, Msg, reset, caught_up, block, of_header, Event, run_loop, start}
use ethui.Devnet.Order.{plan, IsQuiet, items_taken, run_loop-start_complete}
use ethui.Devnet.Consumer.{World, Env, Row, on_msg, save_metadata, process, consume}

abbrev pub IsBlock : Msg → Type 0
IsBlock (block hash number) = Unit
IsBlock _ = ⊥

-- What a node says that answers always, and what a database makes of calls that succeed.
pub record Works (Database : Type 0) : Type 0 where
  pub traces : ℕ → List Row
  pub logs : Hash → List Row
  pub truncated : Database → Database
  pub with_events : List Row → Database → Database
  pub missing : Database → List Address
  pub with_metadata : Address → Database → Database

module _ {Database : Type 0} where
  save_metadata-keeps :
      (env : Env Database) (missing : List Address) (w : World Database)
      → let v = (save_metadata env missing w).1 in (v.sent ≡ w.sent) × (v.caught_up ≡ w.caught_up)
  save_metadata-keeps env [] w = (refl, refl)
  save_metadata-keeps env (a ∷ more) w = ground (
    arith,
    save_metadata-keeps env more (record w { database = (env.save_metadata a w.database).1 }),
  )

  process-quiet :
      (env : Env Database) (hash : Hash) (number : ℕ) (w : World Database)
      → w.caught_up ≡ false
      → let v = (process env (block hash number) w).1 in (v.sent ≡ w.sent) × (v.caught_up ≡ false)
  unfolding process on_msg
  process-quiet env hash number w c = grind (arith, save_metadata-keeps)

  -- Until the consumer has caught up, blocks are not announced, whatever the node and the database do.
  pub consume-quiet :
      (messages : List (Env Database × Msg)) (w : World Database)
      → All (λ m. IsBlock m.1) messages
      → w.caught_up ≡ false
      → (consume messages w).sent ≡ w.sent
  unfolding consume
  consume-quiet [] w b c = refl
  consume-quiet ((env, reset) ∷ rest) w b c = absurd b.0
  consume-quiet ((env, caught_up) ∷ rest) w b c = absurd b.0
  consume-quiet ((env, block hash number) ∷ rest) w b c =
      let q = process-quiet env hash number w c in
      ground (arith, q, consume-quiet rest (process env (block hash number) w).1 b.1 q.1)

module _ {Database : Type 0} (good : Works Database) where
  -- The node and the database as they are if they do all that is asked of them.
  abbrev pub env_of : Env Database
  env_of = record {
    connects = true;
    trace_events = λ n. some (good.traces n);
    log_events = λ h. some (good.logs h);
    truncate_events = good.truncated;
    save_events = λ rows d. (true, good.with_events rows d);
    missing_metadata = λ d. some (good.missing d);
    save_metadata = λ a d. (true, good.with_metadata a d);
  }

  abbrev pub each_with_metadata : List Address → Database → Database
  each_with_metadata [] d = d
  each_with_metadata (a ∷ more) d = each_with_metadata more (good.with_metadata a d)

  -- The tokens that are without metadata get theirs.
  abbrev pub completed : Database → Database
  completed d = each_with_metadata (good.missing d) d

  -- After a block, the database has the events of its traces and then of its logs, and the metadata.
  abbrev pub followed : List Header → Database → Database
  followed [] d = d
  followed (h ∷ hs) d =
      followed hs (
        completed (good.with_events (good.logs h.hash) (good.with_events (good.traces h.number) d)))

  abbrev handed : List Msg → List (Env Database × Msg)
  handed msgs = map (λ m. (env_of, m)) msgs

  abbrev after_msg : Msg → Database → Database
  after_msg reset d = completed (good.truncated d)
  after_msg caught_up d = completed d
  after_msg (block hash number) d =
      completed (good.with_events (good.logs hash) (good.with_events (good.traces number) d))

  abbrev after : List Msg → Database → Database
  after [] d = d
  after (msg ∷ msgs) d = after msgs (after_msg msg d)

  save_metadata-each :
      (missing : List Address) (w : World Database)
      → let (r, v) = save_metadata env_of missing w in
        (r ≡ ok tt) × (v.database ≡ each_with_metadata missing w.database)
  save_metadata-each [] w = (refl, refl)
  save_metadata-each (a ∷ more) w =
      save_metadata-each more (record w { database = good.with_metadata a w.database })

  process-after :
      (msg : Msg) (w : World Database)
      → let (r, v) = process env_of msg w in (r ≡ ok tt) × (v.database ≡ after_msg msg w.database)
  unfolding process on_msg
  process-after reset w =
      let d = good.truncated w.database in
      ground (arith, save_metadata-each (good.missing d) (record w { database = d }))
  process-after caught_up w =
      ground (arith, save_metadata-each (good.missing w.database) (record w { caught_up = true }))
  process-after (block hash number) w =
      let d =
        good.with_events (good.logs hash) (good.with_events (good.traces number) w.database) in
      ground (arith, save_metadata-each (good.missing d) (record w { database = d }))

  consume-after :
      (msgs : List Msg) (w : World Database)
      → (consume (handed msgs) w).database ≡ after msgs w.database
  unfolding consume
  consume-after [] w = refl
  consume-after (msg ∷ msgs) w =
      let p = process-after msg w in
      ground (arith, p, consume-after msgs (process env_of msg w).1, ap (after msgs) p.1)

  after-append : (xs ys : List Msg) (d : Database) → after (xs ++ ys) d ≡ after ys (after xs d)
  after-append [] ys d = refl
  after-append (x ∷ xs) ys d = after-append xs ys (after_msg x d)

  after-blocks : (hs : List Header) (d : Database) → after (map of_header hs) d ≡ followed hs d
  after-blocks [] d = refl
  after-blocks (h ∷ hs) d = after-blocks hs (after_msg (of_header h) d)

  after-plan :
      (headers live : List Header) (d : Database)
      → after (plan headers live) d
        ≡ followed live (completed (followed headers (completed (good.truncated d))))
  after-plan headers live d =
      after-append (map of_header headers) (caught_up ∷ map of_header live)
        (completed (good.truncated d))
      ∙ after-blocks live (completed (after (map of_header headers) (completed (good.truncated d))))
      ∙ ap (λ (x : Database). followed live (completed x))
          (after-blocks headers (completed (good.truncated d)))

-- If the node answers the consumer always, and a block always in the same way, if every call of the database
-- succeeds, if no quit signal comes, the node always knows every block, and the items of the stream are asked
-- for as often as there are any, then once the consumer has handled what the run has sent, the database was
-- truncated once, and after that got the events of each block of the backfill and then of each live block, in
-- order, of each the traces before the logs. After each message, and with the notice of having caught up
-- between the two, the tokens without metadata got theirs.
pub run_loop-consume :
    {Database : Type 0} (good : Works Database) (headers live : List Header) (events : List Event)
    (w : World Database)
    → All IsQuiet events
    → length headers + 1 + length live ≤ items_taken events
    → (consume (map (λ m. (env_of good, m)) (run_loop events (start headers live))) w).database
      ≡ followed good live
          (completed good (followed good headers (completed good (good.truncated w.database))))
run_loop-consume good headers live events w q h =
    ap (λ (msgs : List Msg). (consume (map (λ m. (env_of good, m)) msgs) w).database)
      (run_loop-start_complete headers live events q h)
    ∙ consume-after good (plan headers live) w
    ∙ after-plan good headers live w.database
