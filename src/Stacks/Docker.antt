-- ===== src/Stacks/Docker.antt =====
-- crates/stacks/src/docker.rs: the manager of the container, whose type names how far it is. The commands that
-- it issues are kept in order, the making of its directory and the requests to the server among them, and what
-- each answers is a parameter. The binary is one of the two that the code names.
use ethui.Common.{
  ℕ, String, Bool, true, false, not, ◌&&◌, ◌||◌, Option, none, some, List, [], ◌∷◌, ◌++◌, ◌==◌, leb,
  append, nat_Same, list_Same, if◌then◌else◌,
}
use mathlib.Core.List.{reverse}
use ethui.Common.Exec.{Exec, ok, ◌>>=◌, ◌>>◌, pure, raise, or_raise}
use ethui.Common.Radix.{Text, to_text}
use ethui.Rpc.{contains_text}

pub data State : Type 0 where
  initial docker_socket_ready docker_installed image_available data_directory_ready : State
  container_running container_not_running : State

pub data Bin : Type 0 where
  podman docker : Bin

pub record Manager (state : State) : Type 0 where
  pub data_dir : String
  pub image_name : String
  pub container_name : String
  pub container_port : ℕ
  pub host_port : ℕ
  pub docker_bin : Option Bin
  pub socket_path : Option String

-- The arguments of `run`, less those that never change.
pub record RunArgs : Type 0 where
  pub data_dir : String
  pub home : String
  pub socket_path : String
  pub host_port : ℕ
  pub container_port : ℕ
  pub replace : Bool
  pub name : String
  pub image : String

pub data Command : Type 0 where
  version_of : Bin → Command
  pull_image list_images list_ports stop_container remove_container : Bin → String → Command
  run_container : Bin → RunArgs → Command
  create_dir : String → Command
  post_stack delete_stack : ℕ → String → Command
  get_stacks : ℕ → Command

-- The output of a command; for a request, what the status says, and the slugs that the body reads to.
pub record Output : Type 0 where
  pub success : Bool
  pub stdout : Text
  pub slugs : Option (List String)

-- What a command answers after those before it, if it can be issued; the environment's variables; the
-- canonical form of a path, if there is one; and the joining of two.
pub record Env : Type 0 where
  pub answer : List Command → Command → Option Output
  pub var : String → Option String
  pub canonicalize : String → Option String
  pub join : String → String → String

abbrev pub or_else : Option String → String → String
or_else none d = d
or_else (some s) d = s

abbrev pub succeeded : Option Output → Bool
succeeded none = false
succeeded (some o) = o.success

-- `char::is_whitespace`, of the ASCII characters.
abbrev is_whitespace : ℕ → Bool
is_whitespace c = (leb 9 c && leb c 13) || c == 32

abbrev trim_start : Text → Text
trim_start [] = []
trim_start (c ∷ cs) = let rest = trim_start cs in if is_whitespace c then rest else c ∷ cs

abbrev pub trim : Text → Text
trim cs = reverse (trim_start (reverse (trim_start cs)))

abbrev pub is_empty : Text → Bool
is_empty [] = true
is_empty (c ∷ cs) = false

abbrev pub is_docker : Bin → Bool
is_docker docker = true
is_docker podman = false

abbrev pub transition : {s t : State} → Manager s → Manager t
transition m = record {
  data_dir = m.data_dir;
  image_name = m.image_name;
  container_name = m.container_name;
  container_port = m.container_port;
  host_port = m.host_port;
  docker_bin = m.docker_bin;
  socket_path = m.socket_path;
}

abbrev pub get_docker_bin : {s : State} → Manager s → Exec (List Command) Bin
get_docker_bin m = or_raise m.docker_bin "Docker binary not set"

abbrev pub get_socket_path : {s : State} → Manager s → Exec (List Command) String
get_socket_path m = or_raise m.socket_path "Socket path not set"

module _ (env : Env) where
  -- A command is issued, whatever it answers.
  abbrev pub issue : Command → Exec (List Command) (Option Output)
  issue c t = (ok (env.answer t c), t ++ c ∷ [])

  -- `output()?`
  abbrev pub output : Command → Exec (List Command) Output
  output c = do o ← issue c; or_raise o "the command could not be issued"

  -- A command that has to succeed.
  abbrev pub succeed : String → Output → Exec (List Command) (Unit {0})
  succeed e o = if o.success then pure tt else raise e

  abbrev pub is_container_running : {s : State} → Manager s → Exec (List Command) Bool
  is_container_running m = do
    bin ← get_docker_bin m
    o ← output (list_ports bin m.container_name)
    pure (
        contains_text (trim o.stdout)
          (to_text 10 m.host_port ++ b'-' ∷ b'>' ∷ to_text 10 m.container_port))

  abbrev pub with_bin : Option Output → Manager initial → Manager docker_socket_ready
  with_bin o m =
      if succeeded o
      then transition (record m {
        docker_bin = some podman;
        socket_path =
            some
              (append (or_else (env.var "XDG_RUNTIME_DIR") "/run/user/1000") "/podman/podman.sock");
      })
      else transition
          (record m { docker_bin = some docker; socket_path = some "/var/run/docker.sock" })

  unfoldable pub check_socket_and_bin :
      Manager initial → Exec (List Command) (Manager docker_socket_ready)
  check_socket_and_bin m = do o ← issue (version_of podman); pure (with_bin o m)

  unfoldable pub check_docker_installed :
      Manager docker_socket_ready → Exec (List Command) (Manager docker_installed)
  check_docker_installed m = do
    bin ← get_docker_bin m
    o ← output (version_of bin)
    succeed "Docker/Podman is not installed" o
    pure (transition m)

  unfoldable pub check_image_available :
      Manager docker_installed → Exec (List Command) (Manager image_available)
  check_image_available m = do
    bin ← get_docker_bin m
    pulled ← output (pull_image bin m.image_name)
    succeed "Failed to pull image" pulled
    o ← output (list_images bin m.image_name)
    (if is_empty (trim o.stdout) then raise "Image not found after pull" else pure (transition m))

  unfoldable pub ensure_data_directory :
      Manager image_available → Exec (List Command) (Manager data_directory_ready)
  ensure_data_directory m = do
    o ← output (create_dir m.data_dir)
    succeed "Failed to create directory" o
    pure (transition m)

  -- `initialize` of the module
  unfoldable pub initialize : ℕ → String → Exec (List Command) (Manager container_not_running)
  initialize port config_dir = do
    ready ← check_socket_and_bin (record {
      data_dir = env.join config_dir "local/";
      image_name = "ghcr.io/ethui/stacks:latest";
      container_name = "ethui-local-stacks";
      container_port = 4000;
      host_port = port;
      docker_bin = none;
      socket_path = none;
    })
    installed ← check_docker_installed ready
    available ← check_image_available installed
    m ← ensure_data_directory available
    pure (transition m)

  -- The container is stopped, if the binary is Docker's and the container runs.
  abbrev pub stop_running : Bool → Bin → String → Exec (List Command) (Unit {0})
  stop_running runs bin name =
      if not (runs && is_docker bin)
      then pure tt
      else do o ← output (stop_container bin name); succeed "Failed to stop container" o

  -- The start of the container, the same in both `run`s.
  unfoldable pub start_container :
      {s : State} → Bin → Manager s → Exec (List Command) (Manager container_running)
  start_container bin m = do
    socket ← get_socket_path m
    home ← or_raise (env.canonicalize (or_else (env.var "HOME") "/home/user")) "no such directory"
    data_dir ← or_raise (env.canonicalize m.data_dir) "no such directory"
    o ← output (
        run_container bin (record {
          data_dir = data_dir;
          home = env.join home ".config/ethui/stacks/local";
          socket_path = socket;
          host_port = m.host_port;
          container_port = m.container_port;
          replace = not (is_docker bin);
          name = m.container_name;
          image = m.image_name;
        }))
    succeed "Failed to start container" o
    pure (transition m)

  -- `run` of a manager whose container was not run before.
  unfoldable pub run :
      Manager data_directory_ready → Exec (List Command) (Manager container_running)
  run m = do
    bin ← get_docker_bin m
    runs ← is_container_running m
    stop_running runs bin m.container_name
    (if is_docker bin then output (remove_container bin m.container_name) >> pure tt else pure tt)
    start_container bin m

  -- `run` of a manager whose container does not run.
  unfoldable pub run_again :
      Manager container_not_running → Exec (List Command) (Manager container_running)
  run_again m = do
    bin ← get_docker_bin m
    runs ← is_container_running m
    stop_running runs bin m.container_name
    (if runs && is_docker bin
        then output (remove_container bin m.container_name) >> pure tt
        else pure tt)
    start_container bin m

  unfoldable pub check_health :
      Manager container_running → Exec (List Command) (Manager container_running)
  check_health m = do
    runs ← is_container_running m
    (if runs then pure m else raise "Container not running")

  unfoldable pub check_stopped :
      Manager container_not_running → Exec (List Command) (Manager container_not_running)
  check_stopped m = do
    runs ← is_container_running m
    (if not runs then pure m else raise "Container is still running")

  unfoldable pub stop :
      Manager container_running → Exec (List Command) (Manager container_not_running)
  stop m = do
    runs ← is_container_running m
    (if not runs then pure (transition m) else do
      bin ← get_docker_bin m
      o ← output (stop_container bin m.container_name)
      succeed "Failed to stop container" o
      output (remove_container bin m.container_name)
      pure (transition m))

  unfoldable pub create_stack : String → Manager container_running → Exec (List Command) (Unit {0})
  create_stack slug m = do
    o ← output (post_stack m.host_port slug)
    succeed "Failed to create stack" o

  unfoldable pub list_stacks : Manager container_running → Exec (List Command) (List String)
  list_stacks m = do
    o ← output (get_stacks m.host_port)
    succeed "Failed to list stacks" o
    or_raise o.slugs "Failed to parse stacks response"

  unfoldable pub remove_stack : String → Manager container_running → Exec (List Command) (Unit {0})
  remove_stack slug m = do
    o ← output (delete_stack m.host_port slug)
    succeed "Failed to delete stack" o
