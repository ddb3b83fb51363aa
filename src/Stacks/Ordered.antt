-- ===== src/Stacks/Ordered.antt =====
-- crates/stacks/src/docker.rs: what is issued before the container can be run.
use ethui.Common.{
  ℕ, ◌≡◌, refl, sym, inl, inr, String, Bool, true, false, not, ◌&&◌, Option, none, some, List, [],
  ◌∷◌, ◌++◌, arith, Bool-cases, Option-cases, append, if◌then◌else◌,
}
use mathlib.Core.Path.{subst}
use ethui.Common.Exec.{Exec, Result, ok, err, panic, ◌>>=◌, pure}
use ethui.Stacks.Docker.{
  docker_socket_ready, container_not_running, Bin, podman, docker, Manager, Command, version_of,
  pull_image, list_images, list_ports, stop_container, remove_container, run_container, create_dir,
  post_stack, delete_stack, get_stacks, Output, Env, or_else, succeeded, trim, is_empty, transition,
  check_socket_and_bin, check_docker_installed, check_image_available, ensure_data_directory,
  initialize,
}

abbrev pub is_ok : {A : Type 0} → Result A → Bool
is_ok (ok a) = true
is_ok (err e) = false
is_ok panic = false

-- Whether an answer lets the manager go on: a list of images has to be answered with one.
abbrev pub passes : Command → Option Output → Bool
passes c none = false
passes (list_images b i) (some o) = not (is_empty (trim o.stdout))
passes (version_of b) (some o) = o.success
passes (pull_image b i) (some o) = o.success
passes (create_dir d) (some o) = o.success
passes (list_ports b n) (some o) = true
passes (stop_container b n) (some o) = o.success
passes (remove_container b n) (some o) = true
passes (run_container b a) (some o) = o.success
passes (post_stack p s) (some o) = o.success
passes (delete_stack p s) (some o) = o.success
passes (get_stacks p) (some o) = o.success

module _ (env : Env) where
  -- Whether all commands pass, issued in order after the ones before.
  abbrev pub all_pass : List Command → List Command → Bool
  all_pass before [] = true
  all_pass before (c ∷ cs) = passes c (env.answer before c) && all_pass (before ++ c ∷ []) cs

  abbrev pub image : String
  image = "ghcr.io/ethui/stacks:latest"

  -- The commands after the choice of the binary.
  abbrev pub script : Bin → String → List Command
  script b dir = version_of b ∷ pull_image b image ∷ list_images b image ∷ create_dir dir ∷ []

  -- The binary is Podman if that can be run, or else Docker.
  abbrev pub chosen : Bin
  chosen = if succeeded (env.answer [] (version_of podman)) then podman else docker

  -- The commands of the script are issued in order up to the first that does not pass, and there is a manager,
  -- of the binary and with a socket, exactly if all pass.
  abbrev pub IsOrdered :
      Bin → String → Result (Manager container_not_running) × List Command → Type 0
  IsOrdered b dir (r, t) =
      (is_ok r ≡ all_pass (version_of podman ∷ []) (script b dir))
      × ((left : List Command) × (t ++ left ≡ version_of podman ∷ script b dir)
          × ((m : Manager container_not_running)
              → r ≡ ok m
              → (left ≡ []) × (m.docker_bin ≡ some b) × ((s : String) × m.socket_path ≡ some s)))

  stopped :
      (b : Bin) (dir e : String) (done left : List Command)
      (x : Result (Manager container_not_running) × List Command)
      → x ≡ (err e, done)
      → all_pass (version_of podman ∷ []) (script b dir) ≡ false
      → done ++ left ≡ version_of podman ∷ script b dir
      → IsOrdered b dir x
  stopped b dir e done left x k p q = subst (IsOrdered b dir) (sym k) (sym p, (left, q, λ m h. cc))

  abbrev prepare : Manager docker_socket_ready → Exec (List Command) (Manager container_not_running)
  prepare m = check_docker_installed env m >>= λ i.
      check_image_available env i >>= λ a. ensure_data_directory env a >>= λ d. pure (transition d)

  module _ (b : Bin) (dir name socket : String) (cp hp : ℕ) where
    abbrev ready : Manager docker_socket_ready
    ready = record {
      data_dir = dir;
      image_name = image;
      container_name = name;
      container_port = cp;
      host_port = hp;
      docker_bin = some b;
      socket_path = some socket;
    }

    abbrev after_version : List Command
    after_version = version_of podman ∷ version_of b ∷ []

    abbrev after_pull : List Command
    after_pull = version_of podman ∷ version_of b ∷ pull_image b image ∷ []

    abbrev after_list : List Command
    after_list = version_of podman ∷ version_of b ∷ pull_image b image ∷ list_images b image ∷ []

    abbrev after_create : List Command
    after_create = version_of podman ∷ script b dir

    abbrev prepared : Result (Manager container_not_running) × List Command
    prepared = prepare ready (version_of podman ∷ [])

    fails :
        (e : String) (done left : List Command)
        → prepared ≡ (err e, done)
        → all_pass (version_of podman ∷ []) (script b dir) ≡ false
        → done ++ left ≡ after_create
        → IsOrdered b dir prepared
    fails e done left = stopped b dir e done left prepared

    succeeds :
        prepared ≡ (ok (transition ready), after_create)
        → all_pass (version_of podman ∷ []) (script b dir) ≡ true
        → IsOrdered b dir prepared
    succeeds k p =
        subst (IsOrdered b dir) (sym k)
          (sym p, ([], refl, λ m h. (refl, ground (arith, h), (socket, ground (arith, h)))))

    prepared-IsOrdered : IsOrdered b dir prepared
    unfolding check_docker_installed check_image_available ensure_data_directory
    prepared-IsOrdered = elim (Option-cases (env.answer (version_of podman ∷ []) (version_of b))) [
      | inl n1 ↦
          fails "the command could not be issued" after_version
            (pull_image b image ∷ list_images b image ∷ create_dir dir ∷ []) (ground (arith, n1))
            (ground (arith, n1)) refl
      | inr (o1, h1) ↦ elim (Bool-cases o1.success) [
        | inr f1 ↦
            fails "Docker/Podman is not installed" after_version
              (pull_image b image ∷ list_images b image ∷ create_dir dir ∷ [])
              (ground (arith, h1, f1)) (ground (arith, h1, f1)) refl
        | inl s1 ↦ elim (Option-cases (env.answer after_version (pull_image b image))) [
          | inl n2 ↦
              fails "the command could not be issued" after_pull
                (list_images b image ∷ create_dir dir ∷ []) (ground (arith, h1, s1, n2))
                (ground (arith, h1, s1, n2)) refl
          | inr (o2, h2) ↦ elim (Bool-cases o2.success) [
            | inr f2 ↦
                fails "Failed to pull image" after_pull (list_images b image ∷ create_dir dir ∷ [])
                  (ground (arith, h1, s1, h2, f2)) (ground (arith, h1, s1, h2, f2)) refl
            | inl s2 ↦ elim (Option-cases (env.answer after_pull (list_images b image))) [
              | inl n3 ↦
                  fails "the command could not be issued" after_list (create_dir dir ∷ [])
                    (ground (arith, h1, s1, h2, s2, n3)) (ground (arith, h1, s1, h2, s2, n3)) refl
              | inr (o3, h3) ↦ elim (Bool-cases (is_empty (trim o3.stdout))) [
                | inl f3 ↦
                    fails "Image not found after pull" after_list (create_dir dir ∷ [])
                      (ground (arith, h1, s1, h2, s2, h3, f3))
                      (ground (arith, h1, s1, h2, s2, h3, f3)) refl
                | inr s3 ↦ elim (Option-cases (env.answer after_list (create_dir dir))) [
                  | inl n4 ↦
                      fails "the command could not be issued" after_create []
                        (ground (arith, h1, s1, h2, s2, h3, s3, n4))
                        (ground (arith, h1, s1, h2, s2, h3, s3, n4)) refl
                  | inr (o4, h4) ↦ elim (Bool-cases o4.success) [
                    | inr f4 ↦
                        fails "Failed to create directory" after_create []
                          (ground (arith, h1, s1, h2, s2, h3, s3, h4, f4))
                          (ground (arith, h1, s1, h2, s2, h3, s3, h4, f4)) refl
                    | inl s4 ↦
                        succeeds (rw (h1, s1, h2, s2, h3, s3, h4, s4) refl)
                          (ground (arith, h1, s1, h2, s2, h3, s3, h4, s4))
                  ]
                ]
              ]
            ]
          ]
        ]
      ]
    ]

  -- What is issued until a manager is ready is the version of Podman and then, by the binary chosen, its
  -- version, the pull of the image, the list of the image and the making of the directory, in this order and
  -- up to the first that does not pass. There is a manager exactly if all pass; it has the binary and a socket.
  pub initialize-IsOrdered :
      (port : ℕ) (config_dir : String)
      → IsOrdered chosen (env.join config_dir "local/") (initialize env port config_dir [])
  unfolding initialize check_socket_and_bin
  initialize-IsOrdered port config_dir =
      elim (Bool-cases (succeeded (env.answer [] (version_of podman)))) [
        | inl has ↦
            rw (has, initialize)
              (prepared-IsOrdered podman (env.join config_dir "local/") "ethui-local-stacks"
                (append (or_else (env.var "XDG_RUNTIME_DIR") "/run/user/1000")
                  "/podman/podman.sock")
                4000 port)
        | inr lacks ↦
            rw (lacks, initialize)
              (prepared-IsOrdered docker (env.join config_dir "local/") "ethui-local-stacks"
                "/var/run/docker.sock" 4000 port)
      ]
