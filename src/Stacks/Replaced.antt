-- ===== src/Stacks/Replaced.antt =====
-- crates/stacks/src/docker.rs: what a run of the container does to the one that runs already.
use ethui.Common.{
  ◌≡◌, refl, sym, ◌∙◌, inl, inr, String, Bool, true, false, not, ◌&&◌, some, List, [], ◌∷◌, ◌++◌,
  arith, Bool-cases, Option-cases, if◌then◌else◌,
}
use mathlib.Core.Path.{subst}
use mathlib.Core.List.{append_assoc}
use ethui.Common.Exec.{ok}
use ethui.Common.Radix.{to_text}
use ethui.Rpc.{contains_text}
use ethui.Stacks.Docker.{
  State, container_running, container_not_running, Bin, Manager, RunArgs, Command, list_ports,
  stop_container, remove_container, run_container, Output, Env, or_else, succeeded, trim, is_docker,
  start_container, run_again,
}
use ethui.Stacks.Ordered.{all_pass}

module _ (env : Env) where
  -- The container is started as the last command, which succeeds, at the port and by the name of the manager.
  abbrev pub IsStarted : {s : State} → Bin → Manager s → List Command → List Command → Type 0
  IsStarted b m t u =
      (args : RunArgs) × (u ≡ t ++ run_container b args ∷ [])
      × (succeeded (env.answer t (run_container b args)) ≡ true)
      × (args.host_port ≡ m.host_port)
      × (args.name ≡ m.container_name)

  abbrev args_of : {s : State} → Bin → Manager s → String → String → String → RunArgs
  args_of b m socket home dir = record {
    data_dir = dir;
    home = env.join home ".config/ethui/stacks/local";
    socket_path = socket;
    host_port = m.host_port;
    container_port = m.container_port;
    replace = not (is_docker b);
    name = m.container_name;
    image = m.image_name;
  }

  start_container-IsStarted :
      {s : State} (b : Bin) (m : Manager s) (t u : List Command) (v : Manager container_running)
      → start_container env b m t ≡ (ok v, u)
      → IsStarted b m t u
  unfolding start_container
  start_container-IsStarted b m t u v e = elim (Option-cases m.socket_path) [
    | inl n ↦ absurd (ground (arith, n, e))
    | inr (socket, h1) ↦
        elim (Option-cases (env.canonicalize (or_else (env.var "HOME") "/home/user"))) [
          | inl n ↦ absurd (ground (arith, h1, n, e))
          | inr (home, h2) ↦ elim (Option-cases (env.canonicalize m.data_dir)) [
            | inl n ↦ absurd (ground (arith, h1, h2, n, e))
            | inr (dir, h3) ↦
                elim (Option-cases (env.answer t (run_container b (args_of b m socket home dir)))) [
                  | inl n ↦ absurd (ground (arith, h1, h2, h3, n, e))
                  | inr (o, h4) ↦ elim (Bool-cases o.success) [
                    | inr f ↦ absurd (ground (arith, h1, h2, h3, h4, f, e))
                    | inl s ↦ (
                      args_of b m socket home dir,
                      ground (arith, h1, h2, h3, h4, s, e),
                      ground (arith, h4, s),
                      refl,
                      refl,
                    )
                  ]
                ]
          ]
        ]
  ]

  -- Whether the ports that are listed have the one of the manager.
  abbrev pub lists_port : {s : State} → Manager s → Output → Bool
  lists_port m o =
      contains_text (trim o.stdout)
        (to_text 10 m.host_port ++ b'-' ∷ b'>' ∷ to_text 10 m.container_port)

  -- The commands that clear Docker's container away.
  abbrev pub clearing : Bin → String → Bool → List Command
  clearing b name clears =
      if clears then stop_container b name ∷ remove_container b name ∷ [] else []

  abbrev pub IsCleared : {s : State} → Bin → Manager s → List Command → List Command → Bool → Type 0
  IsCleared b m t u clears =
      (all_pass env (t ++ list_ports b m.container_name ∷ []) (clearing b m.container_name clears)
        ≡ true)
      × IsStarted b m (t ++ list_ports b m.container_name ∷ clearing b m.container_name clears) u

  abbrev pub IsReplaced : {s : State} → Bin → Manager s → List Command → List Command → Type 0
  IsReplaced b m t u =
      (o : Output) × (env.answer t (list_ports b m.container_name) ≡ some o)
      × IsCleared b m t u (lists_port m o && is_docker b)

  idle-IsCleared :
      (b : Bin) (m : Manager container_not_running) (w : Manager container_running)
      (t u : List Command) (o : Output)
      → m.docker_bin ≡ some b
      → env.answer t (list_ports b m.container_name) ≡ some o
      → lists_port m o && is_docker b ≡ false
      → run_again env m t ≡ (ok w, u)
      → IsCleared b m t u false
  unfolding run_again
  idle-IsCleared b m w t u o bin h idle e = (
    refl,
    start_container-IsStarted b m (t ++ list_ports b m.container_name ∷ []) u w
        (sym (rw (bin, h, idle) refl) ∙ e),
  )

  clears-IsCleared :
      (b : Bin) (m : Manager container_not_running) (w : Manager container_running)
      (t u : List Command) (o : Output)
      → m.docker_bin ≡ some b
      → env.answer t (list_ports b m.container_name) ≡ some o
      → lists_port m o && is_docker b ≡ true
      → run_again env m t ≡ (ok w, u)
      → IsCleared b m t u true
  unfolding run_again
  clears-IsCleared b m w t u o bin h clears e =
      let p : List Command = t ++ list_ports b m.container_name ∷ [] in
      let q : List Command = p ++ stop_container b m.container_name ∷ [] in
      elim (Option-cases (env.answer p (stop_container b m.container_name))) [
        | inl n ↦ absurd (ground (arith, bin, h, clears, n, e))
        | inr (o1, h1) ↦ elim (Bool-cases o1.success) [
          | inr f ↦ absurd (ground (arith, bin, h, clears, h1, f, e))
          | inl s ↦ elim (Option-cases (env.answer q (remove_container b m.container_name))) [
            | inl n ↦ absurd (ground (arith, bin, h, clears, h1, s, n, e))
            | inr (o2, h2) ↦ (
              ground (arith, h1, s, h2),
              subst (λ (r : List Command). IsStarted b m r u)
                  (append_assoc p (stop_container b m.container_name ∷ [])
                      (remove_container b m.container_name ∷ [])
                    ∙ append_assoc t (list_ports b m.container_name ∷ []) (
                        stop_container b m.container_name
                        ∷ remove_container b m.container_name
                        ∷ []))
                  (start_container-IsStarted b m (q ++ remove_container b m.container_name ∷ []) u w
                    (sym (rw (bin, h, clears, h1, s, h2) refl) ∙ e)),
            )
          ]
        ]
      ]

  -- A run that succeeds asks for the container's ports first. If they have the manager's and the binary is
  -- Docker, the container is stopped, which succeeds, and removed; otherwise nothing is cleared away. The last
  -- command starts the container, by the manager's name and port, and succeeds.
  pub run_again-IsReplaced :
      (b : Bin) (m : Manager container_not_running) (w : Manager container_running)
      (t u : List Command)
      → m.docker_bin ≡ some b
      → run_again env m t ≡ (ok w, u)
      → IsReplaced b m t u
  unfolding run_again
  run_again-IsReplaced b m w t u bin e =
      elim (Option-cases (env.answer t (list_ports b m.container_name))) [
        | inl n ↦ absurd (ground (arith, bin, n, e))
        | inr (o, h) ↦ elim (Bool-cases (lists_port m o && is_docker b)) [
          | inr idle ↦
              (o, h, subst (IsCleared b m t u) (sym idle) (idle-IsCleared b m w t u o bin h idle e))
          | inl clears ↦ (
            o,
            h,
            subst (IsCleared b m t u) (sym clears) (clears-IsCleared b m w t u o bin h clears e),
          )
        ]
      ]
