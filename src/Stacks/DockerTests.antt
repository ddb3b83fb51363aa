-- ===== src/Stacks/DockerTests.antt =====
-- crates/stacks/src/docker.rs: the theorems at a Docker whose container runs already.
use ethui.Common.{◌≡◌, refl, true, false, Option, none, some, List, [], ◌∷◌, append}
use ethui.Common.Radix.{to_text, digits, digit_char}
use ethui.Common.Exec.{ok}
use ethui.Stacks.Docker.{
  container_running, container_not_running, podman, docker, Manager, RunArgs, Command, version_of,
  pull_image, list_images, list_ports, stop_container, remove_container, run_container, create_dir,
  post_stack, delete_stack, get_stacks, Output, Env, initialize, start_container, run_again,
}
use ethui.Stacks.Ordered.{IsOrdered, chosen, initialize-IsOrdered}
use ethui.Stacks.Replaced.{IsReplaced, run_again-IsReplaced}

-- The ports that are listed are `4000->4000`, and there is no Podman.
abbrev answer : List Command → Command → Option Output
answer before (version_of podman) = none
answer before (version_of docker) = some (record { success = true; stdout = []; slugs = none })
answer before (list_ports b name) = some (record {
  success = true;
  stdout = b'4' ∷ b'0' ∷ b'0' ∷ b'0' ∷ b'-' ∷ b'>' ∷ b'4' ∷ b'0' ∷ b'0' ∷ b'0' ∷ 10 ∷ [];
  slugs = none;
})
answer before (pull_image b i) = some (record { success = true; stdout = []; slugs = none })
answer before (list_images b i) = some (record { success = true; stdout = b'a' ∷ []; slugs = none })
answer before (stop_container b n) = some (record { success = true; stdout = []; slugs = none })
answer before (remove_container b n) = some (record { success = true; stdout = []; slugs = none })
answer before (run_container b a) = some (record { success = true; stdout = []; slugs = none })
answer before (create_dir d) = some (record { success = true; stdout = []; slugs = none })
answer before (post_stack p s) = none
answer before (delete_stack p s) = none
answer before (get_stacks p) = none

abbrev env : Env
env = record {
  answer = answer;
  var = λ name. none;
  canonicalize = λ path. some path;
  join = append;
}

abbrev manager : Manager container_not_running
manager = record {
  data_dir = "config/local/";
  image_name = "ghcr.io/ethui/stacks:latest";
  container_name = "ethui-local-stacks";
  container_port = 4000;
  host_port = 4000;
  docker_bin = some docker;
  socket_path = some "/var/run/docker.sock";
}

abbrev running : Manager container_running
running = record {
  data_dir = "config/local/";
  image_name = "ghcr.io/ethui/stacks:latest";
  container_name = "ethui-local-stacks";
  container_port = 4000;
  host_port = 4000;
  docker_bin = some docker;
  socket_path = some "/var/run/docker.sock";
}

abbrev args : RunArgs
args = record {
  data_dir = "config/local/";
  home = "/home/user.config/ethui/stacks/local";
  socket_path = "/var/run/docker.sock";
  host_port = 4000;
  container_port = 4000;
  replace = false;
  name = "ethui-local-stacks";
  image = "ghcr.io/ethui/stacks:latest";
}

abbrev issued : List Command
issued =
    list_ports docker "ethui-local-stacks"
    ∷ stop_container docker "ethui-local-stacks"
    ∷ remove_container docker "ethui-local-stacks"
    ∷ run_container docker args
    ∷ []

runs_again : run_again env manager [] ≡ (ok running, issued)
unfolding run_again start_container to_text digits digit_char
runs_again = refl

run_again-IsReplaced_example : IsReplaced env docker manager [] issued
run_again-IsReplaced_example =
    run_again-IsReplaced env docker manager running [] issued refl runs_again

initialize-IsOrdered_example :
    IsOrdered env (chosen env) (env.join "config/" "local/") (initialize env 4000 "config/" [])
initialize-IsOrdered_example = initialize-IsOrdered env 4000 "config/"
