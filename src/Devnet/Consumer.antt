-- ===== src/Devnet/Consumer.antt =====
-- crates/sync/devnet/src/tracker: the consumer of a worker's messages (consumer.rs, and `consume` of
-- worker.rs). What the node says is a parameter of each message, and so is what the calls of the database
-- (crates/db) make of it, whichever state it keeps.
use ethui.Common.{ℕ, String, Bool, true, Option, List, [], ◌∷◌, ◌++◌, if◌then◌else◌}
use ethui.Common.Exec.{Exec, Result, ok, err, ◌>>=◌, ◌>>◌, pure, raise, gets, modify, or_raise}
use ethui.Types.{Address}
use ethui.Broadcast.{
  Message, ui_notify, txs_updated, balances_updated, contracts_updated, contract_found,
}
use ethui.Devnet.{Hash, Msg, reset, caught_up, block}

-- What the expanders make of a trace or a log.
abbrev pub Row : Type 0
Row = String

-- Whether it has caught up, the database, and what was sent.
pub record World (Database : Type 0) : Type 0 where
  pub caught_up : Bool
  pub database : Database
  pub sent : List Message

-- The traces and the logs of a block as the expanders make events of them, and the calls of the database for
-- the network. A call that fails may have changed the database; a truncation's failure is not looked at.
pub record Env (Database : Type 0) : Type 0 where
  pub connects : Bool
  pub trace_events : ℕ → Option (List Row)
  pub log_events : Hash → Option (List Row)
  pub truncate_events : Database → Database
  pub save_events : List Row → Database → Bool × Database
  pub missing_metadata : Database → Option (List Address)
  pub save_metadata : Address → Database → Bool × Database

abbrev pub notices : List Message
notices =
    ui_notify txs_updated
    ∷ ui_notify balances_updated
    ∷ ui_notify contracts_updated
    ∷ contract_found
    ∷ []

module _ {Database : Type 0} where
  abbrev save_events : Env Database → List Row → Exec (World Database) (Unit {0})
  save_events env evs w =
      let (saved, d) = env.save_events evs w.database in
      if saved
      then pure tt (record w { database = d })
      else raise "database error" (record w { database = d })

  -- The match on the message, which gives whether to notify.
  unfoldable pub on_msg : Env Database → Msg → Exec (World Database) Bool
  on_msg env reset w = pure true (record w { database = env.truncate_events w.database })
  on_msg env caught_up w = pure true (record w { caught_up = true })
  on_msg env (block hash number) w =
      (do
        traces ← or_raise (env.trace_events number) "node error"
        logs ← or_raise (env.log_events hash) "node error"
        save_events env traces
        save_events env logs
        gets (λ v. v.caught_up))
        w

  -- The loop over the tokens without metadata; `unwrap` panics where they cannot be saved.
  abbrev pub save_metadata : Env Database → List Address → Exec (World Database) (Unit {0})
  save_metadata env [] w = pure tt w
  save_metadata env (a ∷ more) w =
      let (saved, d) = env.save_metadata a w.database in
      let rest = save_metadata env more (record w { database = d }) in
      if saved then rest else (Result.panic, record w { database = d })

  -- `EthuiConsumer::process`
  unfoldable pub process : Env Database → Msg → Exec (World Database) (Unit {0})
  unfolding on_msg
  process env msg w =
      (if env.connects
          then (do
            notify ← on_msg env msg
            database ← gets (λ v. v.database)
            missing ← or_raise (env.missing_metadata database) "database error"
            save_metadata env missing
            if notify then modify (λ v. record v { sent = v.sent ++ notices }) else pure tt)
          else raise "node error")
        w

  -- `consume` goes on after an error, and ends with a panic.
  unfoldable pub consume : List (Env Database × Msg) → World Database → World Database
  unfolding process
  consume [] w = w
  consume ((env, msg) ∷ rest) w =
      let (r, v) = process env msg w in
      elim r [ ok u ↦ consume rest v | err e ↦ consume rest v | Result.panic ↦ v ]
