-- ===== src/Artifacts/Tests.antt =====
-- crates/sol-artifacts: the theorems at two projects, one inside the other.
use ethui.Common.{
  ◌||◌, ◌++◌, list_Same, refl, Bool, true, false, none, some, [], ◌∷◌, All, ◌==◌, nat_Same,
}
use ethui.Rpc.{bytes}
use ethui.Artifacts.Paths.{FilePath}
use ethui.Artifacts.Roots
use ethui.Artifacts.Roots.{walked, find_project_roots, IsFlat, find_project_roots-IsFlat}
use ethui.Artifacts.Covering.{CoversProjects, find_project_roots-CoversProjects}
use ethui.Artifacts.Actor.{State, Env, update_contracts_message}
use ethui.Artifacts.Debounce.{new_contract, turn, files_changed, run}
use ethui.Artifacts.Updates.{IsBalanced, run-IsBalanced}

abbrev home : FilePath
home = bytes "home" ∷ []

abbrev app : FilePath
app = bytes "home" ∷ bytes "app" ∷ []

abbrev lib : FilePath
lib = bytes "home" ∷ bytes "app" ∷ bytes "lib" ∷ []

-- The application and the library in it have a configuration file.
abbrev folders : Roots.Env
folders = record {
  walk = λ keeps root. root ∷ lib ∷ app ∷ [];
  exists =
      λ file. file == app ++ bytes "foundry.toml" ∷ [] || file == lib ++ bytes "foundry.toml" ∷ [];
}

abbrev env : Bool → Env
env room = record {
  folders = folders;
  files = record { exists = λ p. true; read_json = λ p. none; parse_bytes = λ t. none };
  glob = λ p. some [];
  accepts = room;
  has_settings = true;
  can_watch = λ p. true;
  can_unwatch = λ p. true;
  incomplete_contracts = some [];
  get_code = λ c a. none;
  can_insert = λ c. true;
  checks_overflow = false;
}

abbrev start : State
start = record {
  roots = [];
  project_roots = [];
  abis_by_path = [];
  triggers = 0;
  pending = [];
  watched = [];
  foundry_done = false;
  stored = [];
  sent = [];
}

find_project_roots-IsFlat_example : IsFlat (find_project_roots folders (home ∷ app ∷ []))
find_project_roots-IsFlat_example = find_project_roots-IsFlat folders (home ∷ app ∷ [])

find_project_roots-CoversProjects_example :
    All
      (λ root.
        CoversProjects folders (find_project_roots folders (home ∷ app ∷ [])) (walked folders root))
      (home ∷ app ∷ [])
find_project_roots-CoversProjects_example =
    find_project_roots-CoversProjects folders (home ∷ app ∷ [])

run-IsBalanced_example :
    IsBalanced
      (run ((env true, new_contract) ∷ (env true, files_changed []) ∷ (env true, turn) ∷ []) start)
run-IsBalanced_example =
    run-IsBalanced ((env true, new_contract) ∷ (env true, files_changed []) ∷ (env true, turn) ∷ [])
      start (refl, (refl, (refl, tt))) refl

-- Two updates wait.
abbrev waiting : State
waiting = record start {
  triggers = 2;
  pending = update_contracts_message ∷ update_contracts_message ∷ [];
}
