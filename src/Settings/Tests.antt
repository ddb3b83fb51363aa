-- ===== src/Settings/Tests.antt =====
-- crates/settings: the theorems at a concrete onboarding, concrete files and a concrete actor.
use ethui.Common.{◌≡◌, true, false, none, some, [], ◌∷◌}
use ethui.Settings.{alchemy, wallet, Onboarding, auto}
use ethui.Settings.Migrations.{SettingsV1, v1, run_migrations, meant, run_migrations-meant}
use ethui.Common.{◌==◌, text_Same, nat_Same, if◌then◌else◌}
use ethui.Common.Exec.{ok, err}
use ethui.Settings.{dark}
use ethui.Settings.Actor.{Env, SettingsActor, SettingsMap, default_settings}

abbrev begun : Onboarding
begun = record { hidden = false; steps = (alchemy, true) ∷ (wallet, true) ∷ [] }

abbrev old : SettingsV1
old = record {
  dark_mode = auto;
  abi_watch_path = none;
  alchemy_api_key = some "key";
  etherscan_api_key = none;
  hide_empty_tokens = true;
  aliases = (7, "seven") ∷ [];
  onboarded = true;
  fast_mode = false;
  autostart = true;
  start_minimized = false;
  rust_log = "warn";
}

run_migrations-meant_example : run_migrations 3 (v1 old) ≡ some (meant (v1 old))
run_migrations-meant_example = run_migrations-meant (v1 old)

-- The key "bad" fails, and texts have no space to trim.
abbrev env : Env
env = record {
  can_write = true;
  update_autostart = λ b. ok tt;
  reload_log = λ f. ok tt;
  test_alchemy = λ k. if k == "bad" then err "invalid key" else ok tt;
  test_etherscan = λ k. ok tt;
  trim = λ v. v;
}

abbrev actor : SettingsActor
actor = record { inner = default_settings; file = none; sent = []; told = [] }

abbrev bad_key : SettingsMap
bad_key = record {
  dark_mode = some (some dark);
  abi_watch_path = none;
  alchemy_api_key = some (some "bad");
  etherscan_api_key = none;
  walletconnect_project_id = none;
  hide_empty_tokens = none;
  autostart = none;
  start_minimized = none;
  fast_mode = some (some true);
  rust_log = none;
  run_local_stacks = none;
}
