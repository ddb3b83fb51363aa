-- ===== src/Settings/Migrations.antt =====
-- crates/settings/src/migrations.rs: the formats of the settings file, and the migration of an old one to
-- the latest. The version of a format is its constructor.
use ethui.Common.{
  ℕ, zero, suc, String, Bool, true, false, ◌≡◌, refl, Option, none, some, if◌then◌else◌, arith, [],
}
use ethui.Common.Dict.{Dict, insert}
use ethui.Types.{Address}
use ethui.Settings.{
  DarkMode, Settings, Onboarding, OnboardingStep, default_onboarding, all_done, deserialize,
  finish_step,
}

pub record SettingsV0 : Type 0 where
  pub dark_mode : DarkMode
  pub abi_watch_path : Option String
  pub alchemy_api_key : Option String
  pub etherscan_api_key : Option String
  pub hide_empty_tokens : Bool
  pub aliases : Dict Address String
  pub onboarded : Bool
  pub fast_mode : Bool
  pub autostart : Bool
  pub start_minimized : Bool
  pub rust_log : String

pub record SettingsV1 : Type 0 where
  pub dark_mode : DarkMode
  pub abi_watch_path : Option String
  pub alchemy_api_key : Option String
  pub etherscan_api_key : Option String
  pub hide_empty_tokens : Bool
  pub aliases : Dict Address String
  pub onboarded : Bool
  pub fast_mode : Bool
  pub autostart : Bool
  pub start_minimized : Bool
  pub rust_log : String

pub record SettingsV2 : Type 0 where
  pub dark_mode : DarkMode
  pub abi_watch_path : Option String
  pub alchemy_api_key : Option String
  pub etherscan_api_key : Option String
  pub hide_empty_tokens : Bool
  pub aliases : Dict Address String
  pub fast_mode : Bool
  pub autostart : Bool
  pub start_minimized : Bool
  pub rust_log : String
  pub onboarding : Onboarding

pub data Versions : Type 0 where
  v0 : SettingsV0 → Versions
  v1 : SettingsV1 → Versions
  v2 : SettingsV2 → Versions
  v3 : Settings → Versions

abbrev pub to_v1 : SettingsV0 → SettingsV1
to_v1 v = record {
  dark_mode = v.dark_mode;
  abi_watch_path = v.abi_watch_path;
  alchemy_api_key = v.alchemy_api_key;
  etherscan_api_key = v.etherscan_api_key;
  hide_empty_tokens = v.hide_empty_tokens;
  aliases = v.aliases;
  fast_mode = v.fast_mode;
  autostart = v.autostart;
  start_minimized = v.start_minimized;
  rust_log = v.rust_log;
  onboarded = v.onboarded;
}

abbrev pub to_v2 : SettingsV1 → SettingsV2
to_v2 v = record {
  dark_mode = v.dark_mode;
  abi_watch_path = v.abi_watch_path;
  alchemy_api_key = v.alchemy_api_key;
  etherscan_api_key = v.etherscan_api_key;
  hide_empty_tokens = v.hide_empty_tokens;
  aliases = v.aliases;
  fast_mode = v.fast_mode;
  autostart = v.autostart;
  start_minimized = v.start_minimized;
  rust_log = v.rust_log;
  onboarding = if v.onboarded then all_done else default_onboarding;
}

abbrev pub to_v3 : SettingsV2 → Settings
to_v3 v = record {
  dark_mode = v.dark_mode;
  abi_watch_path = v.abi_watch_path;
  alchemy_api_key = v.alchemy_api_key;
  etherscan_api_key = v.etherscan_api_key;
  hide_empty_tokens = v.hide_empty_tokens;
  aliases = v.aliases;
  fast_mode = v.fast_mode;
  autostart = v.autostart;
  start_minimized = v.start_minimized;
  rust_log = v.rust_log;
  onboarding = v.onboarding;
  run_local_stacks = false;
  check_for_updates = true;
  walletconnect_project_id = none;
}

-- `run_migrations`, whose loop takes one format to the next; the fuel bounds its turns.
unfoldable pub run_migrations : ℕ → Versions → Option Settings
run_migrations fuel (v3 latest) = some latest
run_migrations (suc fuel) (v0 s) = run_migrations fuel (v1 (to_v1 s))
run_migrations (suc fuel) (v1 s) = run_migrations fuel (v2 (to_v2 s))
run_migrations (suc fuel) (v2 s) = run_migrations fuel (v3 (to_v3 s))
run_migrations zero (v0 s) = none
run_migrations zero (v1 s) = none
run_migrations zero (v2 s) = none

-- The settings that a file of any format holds, where the fields it does not have are the defaults and
-- the flag `onboarded` of the old formats decides whether the onboarding is hidden.
abbrev pub meant : Versions → Settings
meant (v0 s) = record {
  dark_mode = s.dark_mode;
  abi_watch_path = s.abi_watch_path;
  alchemy_api_key = s.alchemy_api_key;
  etherscan_api_key = s.etherscan_api_key;
  hide_empty_tokens = s.hide_empty_tokens;
  aliases = s.aliases;
  fast_mode = s.fast_mode;
  autostart = s.autostart;
  start_minimized = s.start_minimized;
  rust_log = s.rust_log;
  onboarding = record { hidden = s.onboarded; steps = [] };
  run_local_stacks = false;
  check_for_updates = true;
  walletconnect_project_id = none;
}
meant (v1 s) = record {
  dark_mode = s.dark_mode;
  abi_watch_path = s.abi_watch_path;
  alchemy_api_key = s.alchemy_api_key;
  etherscan_api_key = s.etherscan_api_key;
  hide_empty_tokens = s.hide_empty_tokens;
  aliases = s.aliases;
  fast_mode = s.fast_mode;
  autostart = s.autostart;
  start_minimized = s.start_minimized;
  rust_log = s.rust_log;
  onboarding = record { hidden = s.onboarded; steps = [] };
  run_local_stacks = false;
  check_for_updates = true;
  walletconnect_project_id = none;
}
meant (v2 s) = record {
  dark_mode = s.dark_mode;
  abi_watch_path = s.abi_watch_path;
  alchemy_api_key = s.alchemy_api_key;
  etherscan_api_key = s.etherscan_api_key;
  hide_empty_tokens = s.hide_empty_tokens;
  aliases = s.aliases;
  fast_mode = s.fast_mode;
  autostart = s.autostart;
  start_minimized = s.start_minimized;
  rust_log = s.rust_log;
  onboarding = s.onboarding;
  run_local_stacks = false;
  check_for_updates = true;
  walletconnect_project_id = none;
}
meant (v3 s) = s

-- Three turns of the loop bring a settings file of any format to the latest one: each field of the old
-- format stays, the others get the default, and the flag `onboarded` decides whether the onboarding is
-- hidden.
pub run_migrations-meant : (v : Versions) → run_migrations 3 v ≡ some (meant v)
unfolding run_migrations
run_migrations-meant (v0 s) = ground arith
run_migrations-meant (v1 s) = ground arith
run_migrations-meant (v2 s) = ground arith
run_migrations-meant (v3 s) = refl

-- A user of an old format who was onboarded sees the onboarding again: it is hidden after the migration,
-- but not after a start from the file that the migrated settings are saved to, nor after any step is
-- finished.
pub all_done-reappears :
    (s : SettingsV1)
    → s.onboarded ≡ true
    → (r : Settings) × (run_migrations 3 (v1 s) ≡ some r)
      × (r.onboarding.hidden ≡ true)
      × ((deserialize r.onboarding.steps).hidden ≡ false)
      × ((step : OnboardingStep) → (finish_step step r.onboarding).hidden ≡ false)
unfolding run_migrations deserialize finish_step insert
all_done-reappears s h = (_, refl, ground (arith, h), ground (arith, h), λ step. ground (arith, h))
