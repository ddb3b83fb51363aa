-- ===== src/Stacks.antt =====
-- crates/stacks/src/actor/mod.rs: the actor that runs the container of the local stacks. What the
-- container program answers (docker.rs) is a parameter of each message.
pub mod Docker
pub mod Ordered
pub mod Replaced
pub mod Enabled
mod DockerTests
mod Tests
use ethui.Common.{
  ℕ, String, Bool, true, false, not, ◌&&◌, Option, none, some, List, [], ◌∷◌, ◌++◌, if◌then◌else◌,
}
use ethui.Common.Exec.{Result, ok, err, panic}

-- The states of the container that the type of a manager names.
pub data Container : Type 0 where
  not_running running : Container

pub record DockerManager (state : Container) : Type 0 where
  pub host_port : ℕ
  pub data_dir : String

-- `transition`
abbrev transition : {s t : Container} → DockerManager s → DockerManager t
transition m = record { host_port = m.host_port; data_dir = m.data_dir }

pub data RuntimeState : Type 0 where
  failed : String → RuntimeState
  initializing : RuntimeState
  stopped : DockerManager not_running → RuntimeState
  started : DockerManager running → RuntimeState

-- The calls that reach the stacks server are kept too.
pub record Actor : Type 0 where
  pub enabled : Bool
  pub port : ℕ
  pub config_dir : String
  pub manager : RuntimeState
  pub calls : List String

-- What the container program answers; an error is its text.
pub record Env : Type 0 where
  pub runs : Option String
  pub stops : Option String
  pub initializes : Option String

abbrev run_manager : Env → DockerManager not_running → RuntimeState
run_manager env m = elim env.runs [ none ↦ started (transition m) | some e ↦ failed e ]

-- A manager that cannot be stopped goes on.
abbrev stop_manager : Env → DockerManager running → RuntimeState
stop_manager env m = elim env.stops [ none ↦ stopped (transition m) | some e ↦ started m ]

abbrev on_enabled : Env → RuntimeState → Bool → RuntimeState
on_enabled env (stopped m) true = run_manager env m
on_enabled env (started m) false = stop_manager env m
on_enabled env (failed e) true = initializing
on_enabled env (stopped m) false = stopped m
on_enabled env (started m) true = started m
on_enabled env (failed e) false = failed e
on_enabled env initializing b = initializing

unfoldable pub new_actor : ℕ → String → Actor
new_actor port config_dir = record {
  enabled = false;
  port = port;
  config_dir = config_dir;
  manager = initializing;
  calls = [];
}

abbrev pub same_bool : Bool → Bool → Bool
same_bool true b = b
same_bool false b = not b

unfoldable pub set_enabled : Env → Bool → Actor → Actor
set_enabled env enabled a =
    if same_bool a.enabled enabled
    then a
    else record a { enabled = enabled; manager = on_enabled env a.manager enabled }

abbrev calls_server : String → Actor → Actor
calls_server call a = elim a.manager [
  | started m ↦ record a { calls = a.calls ++ call ∷ [] }
  | stopped m ↦ a
  | initializing ↦ a
  | failed e ↦ a
]

unfoldable pub create_stack : String → Actor → Actor
create_stack slug a = calls_server slug a

unfoldable pub remove_stack : String → Actor → Actor
remove_stack slug a = calls_server slug a

unfoldable pub shutdown : Env → Actor → Actor
shutdown env a = elim a.manager [
  | started m ↦ record a { manager = stop_manager env m }
  | stopped m ↦ a
  | initializing ↦ a
  | failed e ↦ a
]

-- `docker::initialize`
abbrev initialized : Env → Actor → RuntimeState
initialized env a =
    let m : DockerManager not_running = record { host_port = a.port; data_dir = a.config_dir } in
    elim env.initializes [
      | none ↦ (if a.enabled then run_manager env m else stopped m)
      | some e ↦ failed e
    ]

unfoldable pub initialize : Env → Actor → Actor
initialize env a = elim a.manager [
  | initializing ↦ record a { manager = initialized env a }
  | started m ↦ a
  | stopped m ↦ a
  | failed e ↦ a
]

-- `RuntimeState::as_str`
unfoldable pub as_str : RuntimeState → String
as_str (failed e) = e
as_str initializing = "Initializing"
as_str (stopped m) = "Stopped"
as_str (started m) = "Running"

pub data Request : Type 0 where
  set_enabled_request : Bool → Request
  create_stack_request remove_stack_request : String → Request
  shutdown_request initialize_request : Request

unfoldable pub handle : Env → Request → Actor → Actor
unfolding set_enabled create_stack remove_stack shutdown initialize
handle env (set_enabled_request b) a = set_enabled env b a
handle env (create_stack_request slug) a = create_stack slug a
handle env (remove_stack_request slug) a = remove_stack slug a
handle env shutdown_request a = shutdown env a
handle env initialize_request a = initialize env a

unfoldable pub run : List (Env × Request) → Actor → Actor
run [] a = a
run ((env, r) ∷ rest) a = run rest (handle env r a)
