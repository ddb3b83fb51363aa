-- ===== src/Settings/Actor.antt =====
-- crates/settings/src/actor/mod.rs: the messages of the settings actor.
use ethui.Common.{
  String, Bool, true, false, Option, none, some, List, [], ◌∷◌, ◌++◌, ◌==◌, nat_Same, text_Same,
  if◌then◌else◌,
}
use ethui.Common.Dict
use ethui.Common.Exec.{Exec, Result, ◌>>=◌, ◌>>◌, pure, raise, lift, gets, modify, unwrap}
use ethui.Types.{Address}
use ethui.Broadcast.{Message, settings_updated, ui_notify, settings_changed}
use ethui.Settings.{
  OnboardingStep, alchemy, etherscan, DarkMode, auto, default_onboarding, Settings, finish_step,
  finish, is_step_finished,
}

-- A field of the JSON map of `SetValue::All`: absent, of the wrong type, or a value.
abbrev pub Field : Type 0 → Type 0
Field A = Option (Option A)

pub record SettingsMap : Type 0 where
  pub dark_mode : Field DarkMode
  pub abi_watch_path : Field (Option String)
  pub alchemy_api_key : Field String
  pub etherscan_api_key : Field String
  pub walletconnect_project_id : Field String
  pub hide_empty_tokens : Field Bool
  pub autostart : Field Bool
  pub start_minimized : Field Bool
  pub fast_mode : Field Bool
  pub rust_log : Field String
  pub run_local_stacks : Field Bool

pub data SetValue : Type 0 where
  set_all : SettingsMap → SetValue
  set_dark_mode : DarkMode → SetValue
  set_fast_mode : Bool → SetValue
  finish_onboarding_step : OnboardingStep → SetValue
  finish_onboarding : SetValue
  set_alias : Address → Option String → SetValue
  set_run_local_stacks : Bool → SetValue

-- The actor, the contents of its file, the messages sent, and the messages that it has told itself.
pub record SettingsActor : Type 0 where
  pub inner : Settings
  pub file : Option Settings
  pub sent : List Message
  pub told : List SetValue

-- What the actor calls: the file, the system's autostart, the log filter, the two key tests and `trim`.
pub record Env : Type 0 where
  pub can_write : Bool
  pub update_autostart : Bool → Result (Unit {0})
  pub reload_log : String → Result (Unit {0})
  pub test_alchemy : String → Result (Unit {0})
  pub test_etherscan : String → Result (Unit {0})
  pub trim : String → String

abbrev put : (Settings → Settings) → Exec SettingsActor (Unit {0})
put f = modify (λ s. record s { inner = f s.inner })

unfoldable pub save : Env → Exec SettingsActor (Unit {0})
save env s =
    if env.can_write
    then modify
        (λ t. record t {
          file = some t.inner;
          sent = t.sent ++ (settings_updated ∷ ui_notify settings_changed ∷ []);
        })
        s
    else raise "io error" s

-- `if let Some(v) = map.get(..)`, where a value of the wrong type panics.
abbrev on_field :
    {A : Type 0} → Field A → (A → Exec SettingsActor (Unit {0})) → Exec SettingsActor (Unit {0})
on_field none f s = pure tt s
on_field (some v) f s = (unwrap v >>= f) s

-- `filter(|s| !s.is_empty())`
abbrev pub non_empty : String → Option String
non_empty v = if v == "" then none else some v

abbrev pub test_some : (String → Result (Unit {0})) → Option String → Result (Unit {0})
test_some test none = Result.ok tt
test_some test (some key) = test key

-- An unfinished step is finished by a message to the actor itself.
unfoldable pub tell_step : OnboardingStep → Exec SettingsActor (Unit {0})
tell_step step s =
    if is_step_finished s.inner.onboarding step
    then pure tt s
    else modify (λ t. record t { told = t.told ++ finish_onboarding_step step ∷ [] }) s

unfoldable pub set_alchemy : Env → Field String → Exec SettingsActor (Unit {0})
unfolding tell_step
set_alchemy env none s = pure tt s
set_alchemy env (some field) s =
    (do
      tell_step alchemy
      v ← unwrap field
      let key = non_empty v
      lift (test_some env.test_alchemy key)
      put (λ t. record t { alchemy_api_key = key }))
      s

unfoldable pub set_etherscan : Env → Field String → Exec SettingsActor (Unit {0})
unfolding tell_step
set_etherscan env none s = pure tt s
set_etherscan env (some field) s =
    (do
      tell_step etherscan
      v ← unwrap field
      let key = non_empty v
      lift (test_some env.test_etherscan key)
      put (λ t. record t { etherscan_api_key = key }))
      s

-- The fields of `SetValue::All`, in the order of the code.
unfoldable pub set_fields : Env → SettingsMap → Exec SettingsActor (Unit {0})
unfolding set_alchemy set_etherscan
set_fields env map = do
  on_field map.dark_mode (λ v. put (λ t. record t { dark_mode = v }))
  on_field map.abi_watch_path (λ v. put (λ t. record t { abi_watch_path = v }))
  set_alchemy env map.alchemy_api_key
  set_etherscan env map.etherscan_api_key
  on_field map.walletconnect_project_id
      (λ v. put (λ t. record t { walletconnect_project_id = non_empty v }))
  on_field map.hide_empty_tokens (λ v. put (λ t. record t { hide_empty_tokens = v }))
  on_field map.autostart
      (λ v. put (λ t. record t { autostart = v }) >> lift (env.update_autostart v))
  on_field map.start_minimized (λ v. put (λ t. record t { start_minimized = v }))
  on_field map.fast_mode (λ v. put (λ t. record t { fast_mode = v }))
  on_field map.rust_log (λ v. lift (env.reload_log v) >> put (λ t. record t { rust_log = v }))
  on_field map.run_local_stacks (λ v. put (λ t. record t { run_local_stacks = v }))

abbrev alias_of : Env → Option String → Option String
alias_of env none = none
alias_of env (some v) = non_empty (env.trim v)

unfoldable pub apply : Env → SetValue → Exec SettingsActor (Unit {0})
apply env (set_all map) = set_fields env map
apply env (set_dark_mode mode) = put (λ t. record t { dark_mode = mode })
apply env (set_fast_mode mode) = put (λ t. record t { fast_mode = mode })
apply env (finish_onboarding_step step) =
    put (λ t. record t { onboarding = finish_step step t.onboarding })
apply env finish_onboarding = put (λ t. record t { onboarding = finish t.onboarding })
apply env (set_alias address alias) = put (λ t. record t {
  aliases = elim (alias_of env alias) [
    | none ↦ Dict.remove t.aliases address
    | some a ↦ Dict.insert t.aliases address a
  ];
})
apply env (set_run_local_stacks mode) = put (λ t. record t { run_local_stacks = mode })

unfoldable pub set : Env → SetValue → Exec SettingsActor (Unit {0})
unfolding apply save
set env value = apply env value >> save env

unfoldable pub get_alias : SettingsActor → Address → Option String
get_alias s address = Dict.get s.inner.aliases address

-- `Settings::default` of lib.rs.
abbrev pub default_settings : Settings
default_settings = record {
  dark_mode = auto;
  abi_watch_path = none;
  alchemy_api_key = none;
  etherscan_api_key = none;
  walletconnect_project_id = none;
  hide_empty_tokens = true;
  aliases = [];
  fast_mode = false;
  autostart = false;
  start_minimized = false;
  check_for_updates = true;
  rust_log = "warn";
  run_local_stacks = false;
  onboarding = default_onboarding;
}

-- `on_start`, with the migrated settings that the file holds, if there is one.
unfoldable pub on_start : Env → Option Settings → Exec SettingsActor (Unit {0})
unfolding save
on_start env stored = do
  put (λ t. elim stored [ none ↦ default_settings | some inner ↦ inner ])
  save env
  s ← gets (λ s. s.inner)
  lift (env.update_autostart s.autostart)
  lift (env.reload_log s.rust_log)
