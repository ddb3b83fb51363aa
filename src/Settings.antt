-- ===== src/Settings.antt =====
-- crates/settings: the settings (lib.rs), the onboarding steps (onboarding.rs) and the messages of the
-- settings actor (actor/mod.rs).
pub mod Steps
pub mod Actor
pub mod Setting
pub mod Migrations
mod Tests
use ethui.Common.{
  ℕ, String, Bool, true, false, not, ◌&&◌, Option, none, some, List, [], ◌∷◌, ◌++◌, ◌==◌, nat_Same,
  text_Same, Same, ◌↔◌, ◌≡◌, arith, length, if◌then◌else◌,
}
use ethui.Common.Dict
use ethui.Common.Dict.{Dict, values}
use ethui.Common.Exec.{Exec, ◌>>=◌, ◌>>◌, pure, raise, gets, modify}
use ethui.Types.{Address}
use ethui.Broadcast.{Message, settings_updated, ui_notify, settings_changed}

pub data OnboardingStep : Type 0 where
  alchemy etherscan wallet extension foundry : OnboardingStep

abbrev pub step_same : OnboardingStep → OnboardingStep → Bool
step_same alchemy alchemy = true
step_same etherscan etherscan = true
step_same wallet wallet = true
step_same extension extension = true
step_same foundry foundry = true
step_same _ _ = false

pub step_same_iff : (a b : OnboardingStep) → (step_same a b ≡ true) ↔ (a ≡ b)
step_same_iff alchemy b = ground arith
step_same_iff _ _ = ground arith

instance abbrev pub step_Same : Same OnboardingStep
step_Same = record { same = step_same; same_iff = step_same_iff }

abbrev pub step_count : ℕ
step_count = 5

pub record Onboarding : Type 0 where
  pub hidden : Bool
  pub steps : Dict OnboardingStep Bool

abbrev pub all_true : List Bool → Bool
all_true [] = true
all_true (b ∷ bs) = b && all_true bs

abbrev pub default_onboarding : Onboarding
default_onboarding = record { hidden = false; steps = [] }

abbrev pub all_done : Onboarding
all_done = record { hidden = true; steps = [] }

abbrev pub all_finished : Dict OnboardingStep Bool → Bool
all_finished steps = length steps == step_count && all_true (values steps)

unfoldable pub is_all_finished : Onboarding → Bool
is_all_finished o = all_finished o.steps

unfoldable pub finish_step : OnboardingStep → Onboarding → Onboarding
finish_step step o =
    let steps = Dict.insert o.steps step true in
    record { hidden = all_finished steps; steps = steps }

unfoldable pub finish : Onboarding → Onboarding
finish o =
    let s1 = Dict.insert o.steps extension true in
    let s2 = Dict.insert s1 wallet true in
    let s3 = Dict.insert s2 alchemy true in
    let s4 = Dict.insert s3 etherscan true in
    record { hidden = true; steps = Dict.insert s4 foundry true }

unfoldable pub is_step_finished : Onboarding → OnboardingStep → Bool
is_step_finished o step = elim (Dict.get o.steps step) [ none ↦ false | some b ↦ b ]

-- `Deserialize for Onboarding`, from the steps that a file holds.
unfoldable pub deserialize : Dict OnboardingStep Bool → Onboarding
deserialize steps = record { hidden = all_finished steps; steps = steps }

pub data DarkMode : Type 0 where
  auto dark light : DarkMode

pub record Settings : Type 0 where
  pub dark_mode : DarkMode
  pub abi_watch_path : Option String
  pub alchemy_api_key : Option String
  pub etherscan_api_key : Option String
  pub walletconnect_project_id : Option String
  pub hide_empty_tokens : Bool
  pub aliases : Dict Address String
  pub fast_mode : Bool
  pub autostart : Bool
  pub start_minimized : Bool
  pub check_for_updates : Bool
  pub rust_log : String
  pub run_local_stacks : Bool
  pub onboarding : Onboarding
