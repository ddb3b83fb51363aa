-- ===== src/Artifacts/Actor.antt =====
-- crates/sol-artifacts/src: the messages of the actor (actor/mod.rs) and the score of two codes
-- (utils.rs). The order in which files and contracts are read at the same time is that of the list.
use ethui.Common.{
  list_Same, ℕ, zero, suc, ◌+◌, ◌-◌, ◌*◌, Bool, true, false, not, Option, none, some, List, [], ◌∷◌,
  ◌++◌, any, filter, find, ltb, ◌==◌, nat_Same, if◌then◌else◌,
}
use ethui.Common.Dict
use ethui.Common.Dict.{Dict, values}
use ethui.Common.Exec.{Exec, Result, ◌>>=◌, ◌>>◌, pure, raise, modify, or_raise}
use ethui.Common.Json.{Json}
use ethui.Common.Radix.{Text, u64_mod}
use ethui.Types.{NetworkId, Address}
use ethui.Broadcast.{Message, ui_notify, contracts_updated}
use ethui.Rpc.{bytes, contains_text}
use ethui.Artifacts.Paths.{Name, FilePath}
use ethui.Artifacts.Abi.{SolArtifact, Files, read_artifact}
use ethui.Artifacts.Roots
use ethui.Artifacts.Roots.{find_project_roots}

-- What the actor tells itself.
pub data Own : Type 0 where
  update_contracts_message poll_project_roots_message : Own

-- A contract that was found: its network, address, code, ABI and name.
pub record Contract : Type 0 where
  pub network : NetworkId
  pub address : Address
  pub code : Text
  pub abi : Json
  pub name : Name

pub record State : Type 0 where
  pub roots : List FilePath
  pub project_roots : List FilePath
  pub abis_by_path : Dict FilePath SolArtifact
  pub triggers : ℕ
  pub pending : List Own
  pub watched : List FilePath
  pub foundry_done : Bool
  pub stored : List Contract
  pub sent : List Message

-- `accepts` is whether the mailbox has room.
pub record Env : Type 0 where
  pub folders : Roots.Env
  pub files : Files
  pub glob : FilePath → Option (List FilePath)
  pub accepts : Bool
  pub has_settings : Bool
  pub can_watch : FilePath → Bool
  pub can_unwatch : FilePath → Bool
  pub incomplete_contracts : Option (List (NetworkId × Address × Option Text))
  pub get_code : ℕ → Address → Option Text
  pub can_insert : Contract → Bool
  pub checks_overflow : Bool

abbrev pub contains : List FilePath → FilePath → Bool
contains ps p = any (λ q. q == p) ps

abbrev pub insert_abi : SolArtifact → State → State
insert_abi abi s = record s { abis_by_path = Dict.insert s.abis_by_path abi.path abi }

abbrev pub remove_abi : FilePath → State → State
remove_abi path s = record s { abis_by_path = Dict.remove s.abis_by_path path }

unfoldable pub trigger_update_contracts : Env → State → State
trigger_update_contracts env s = record s {
  triggers = s.triggers + 1;
  pending = if env.accepts then s.pending ++ update_contracts_message ∷ [] else s.pending;
}

abbrev skip_patterns : List Text
skip_patterns = bytes "build-info" ∷ bytes "cache" ∷ bytes "temp" ∷ bytes "tmp" ∷ []

-- The name of the parent of a path.
abbrev parent_name : FilePath → Option Text
parent_name [] = none
parent_name (a ∷ []) = none
parent_name (a ∷ b ∷ rest) = elim rest [ [] ↦ some a | c ∷ more ↦ parent_name (b ∷ rest) ]

abbrev is_skipped : FilePath → Bool
is_skipped path = elim (parent_name path) [
  | none ↦ false
  | some name ↦ any (λ p. contains_text name p) skip_patterns
]

-- `root.join("out")`, or the folder of Hardhat.
abbrev pub join_out : FilePath → FilePath
join_out root = root ++ bytes "out" ∷ []

abbrev artifacts_dir : Env → FilePath → Option FilePath
artifacts_dir env root =
    let hardhat = root ++ bytes "artifacts" ∷ bytes "contracts" ∷ [] in
    if env.folders.exists (join_out root)
    then some (join_out root)
    else if env.folders.exists hardhat
    then some hardhat
    else none

abbrev pub insert_all_abis : Env → List FilePath → State → State
insert_all_abis env [] s = s
insert_all_abis env (path ∷ paths) s =
    insert_all_abis env paths
      (elim (read_artifact env.files path) [ none ↦ s | some abi ↦ insert_abi abi s ])

abbrev pub finish_foundry : State → State
finish_foundry s = elim (values s.abis_by_path) [
  | [] ↦ s
  | a ∷ rest ↦ record s { foundry_done = true }
]

unfoldable pub scan_project : Env → FilePath → Exec State (Unit {0})
unfolding trigger_update_contracts
scan_project env root s = elim (artifacts_dir env root) [
  | none ↦ pure tt s
  | some dir ↦
      (do
        paths ← or_raise (env.glob dir) "Glob pattern error"
        modify (insert_all_abis env (filter (λ p. not (is_skipped p)) paths))
        (λ t. if env.has_settings then pure tt t else raise "settings error" t)
        modify finish_foundry
        modify (trigger_update_contracts env))
        s
]

unfoldable pub scan_each : Env → List FilePath → Exec State (Unit {0})
scan_each env [] = pure tt
scan_each env (path ∷ paths) = do scan_project env path; scan_each env paths

unfoldable pub unwatch_each : Env → List FilePath → Exec State (Unit {0})
unwatch_each env [] = pure tt
unwatch_each env (path ∷ paths) = do
  if env.can_unwatch (join_out path)
      then modify (λ s. record s { watched = filter (λ p. not (p == join_out path)) s.watched })
      else raise "watch error"
  unwatch_each env paths

unfoldable pub watch_each : Env → List FilePath → Exec State (Unit {0})
watch_each env [] = pure tt
watch_each env (path ∷ paths) = do
  if env.can_watch (join_out path)
      then modify (λ s. record s { watched = s.watched ++ join_out path ∷ [] })
      else raise "watch error"
  watch_each env paths

unfoldable pub update_watches : Env → List FilePath → List FilePath → Exec State (Unit {0})
unfolding unwatch_each watch_each
update_watches env to_remove to_add = do unwatch_each env to_remove; watch_each env to_add

abbrev pub new_projects : Env → State → List FilePath
new_projects env s =
    filter (λ p. not (contains s.project_roots p)) (find_project_roots env.folders s.roots)

abbrev pub old_projects : Env → State → List FilePath
old_projects env s =
    filter (λ p. not (contains (find_project_roots env.folders s.roots) p)) s.project_roots

-- The new project roots are not stored, as in the code.
unfoldable pub update_project_roots : Env → Exec State (Unit {0})
unfolding scan_each update_watches
update_project_roots env s =
    (do
      scan_each env (new_projects env s)
      update_watches env (old_projects env s) (new_projects env s))
      s

unfoldable pub add_path : Env → FilePath → Exec State (Unit {0})
unfolding update_project_roots
add_path env path s =
    if contains s.roots path
    then pure tt s
    else update_project_roots env (record s { roots = s.roots ++ path ∷ [] })

unfoldable pub remove_path : Env → FilePath → Exec State (Unit {0})
unfolding update_project_roots
remove_path env path s =
    if contains s.roots path
    then update_project_roots env (record s { roots = filter (λ p. not (p == path)) s.roots })
    else pure tt s

-- Each path in turn, errors dropped.
abbrev pub each : (FilePath → Exec State (Unit {0})) → List FilePath → State → State
each f [] s = s
each f (p ∷ ps) s = each f ps (f p s).1

unfoldable pub update_roots : Env → List FilePath → State → State
unfolding add_path remove_path
update_roots env roots s =
    let to_remove = filter (λ p. not (contains roots p)) s.roots in
    let to_add = filter (λ p. not (contains s.roots p)) roots in
    let v = each (add_path env) to_add (each (remove_path env) to_remove s) in
    record v {
      pending = if env.accepts then v.pending ++ poll_project_roots_message ∷ [] else v.pending;
    }

-- A change of a file: an access, or another kind.
pub record FileEvent : Type 0 where
  pub path : FilePath
  pub is_access : Bool

-- `TryFrom<notify::Event> for SolArtifact`
abbrev pub artifact_of : Env → FileEvent → Option SolArtifact
artifact_of env event = if event.is_access then none else read_artifact env.files event.path

unfoldable pub process_debounced_events : Env → List FileEvent → State → State
unfolding trigger_update_contracts
process_debounced_events env [] s = trigger_update_contracts env s
process_debounced_events env (event ∷ events) s =
    process_debounced_events env events (elim (artifact_of env event) [
      | none ↦ remove_abi event.path s
      | some abi ↦ insert_abi abi s
    ])

-- The positions where two codes differ, up to the shorter one's end.
abbrev differences : Text → Text → ℕ
differences [] b = 0
differences (x ∷ a) [] = 0
differences (x ∷ a) (y ∷ b) = (if x == y then 0 else 1) + differences a b

abbrev cutoff : Text → Text → ℕ
cutoff [] b = 0
cutoff (x ∷ a) [] = 0
cutoff (x ∷ a) (y ∷ b) = 1 + cutoff a b

-- `diff_score(a, b) < FUZZ_DIFF_THRESHOLD`, where the score is 1 if there is nothing to compare.
abbrev pub is_similar : Text → Text → Bool
is_similar a b = ltb (5 * differences a b) (cutoff a b)

unfoldable pub get_abi_for : State → Text → Option SolArtifact
get_abi_for s code = find (λ a. is_similar a.code code) (values s.abis_by_path)

abbrev code_of : Env → NetworkId → Address → Option Text → Option Text
code_of env id address none = env.get_code id.chain_id address
code_of env id address (some []) = env.get_code id.chain_id address
code_of env id address (some (c ∷ cs)) = some (c ∷ cs)

-- The contracts with code that an ABI fits.
abbrev fitting : Env → State → List (NetworkId × Address × Option Text) → List Contract
fitting env s [] = []
fitting env s ((id, address, stored) ∷ rest) = elim (code_of env id address stored) [
  | none ↦ fitting env s rest
  | some code ↦ elim (get_abi_for s code) [
    | none ↦ fitting env s rest
    | some abi ↦
        (record { network = id; address = address; code = code; abi = abi.abi; name = abi.name })
        ∷ fitting env s rest
  ]
]

unfoldable pub insert_contracts : Env → List Contract → Exec State (Unit {0})
insert_contracts env [] = pure tt
insert_contracts env (c ∷ cs) = do
  if env.can_insert c
      then modify (λ s. record s { stored = s.stored ++ c ∷ [] })
      else raise "database error"
  insert_contracts env cs

abbrev pub notify_found : List Contract → State → State
notify_found [] s = s
notify_found (c ∷ cs) s = record s { sent = s.sent ++ ui_notify contracts_updated ∷ [] }

-- What is left to do once the counter is zero.
unfoldable pub match_contracts : Env → Exec State (Unit {0})
unfolding get_abi_for insert_contracts
match_contracts env s = elim env.incomplete_contracts [
  | none ↦ raise "database error" s
  | some contracts ↦
      let found = fitting env s contracts in
      (do insert_contracts env found; modify (notify_found found)) s
]

-- `update_contracts_triggers -= 1` panics at zero, or wraps.
unfoldable pub update_contracts : Env → Exec State (Unit {0})
unfolding match_contracts
update_contracts env s = elim s.triggers [
  | zero ↦
      if env.checks_overflow
      then (Result.panic, s)
      else pure tt (record s { triggers = u64_mod - 1 })
  | suc left ↦
      let v : State = record s { triggers = left } in
      if ltb 0 left then pure tt v else match_contracts env v
]
