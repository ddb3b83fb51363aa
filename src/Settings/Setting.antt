-- ===== src/Settings/Setting.antt =====
-- crates/settings/src/actor/mod.rs: what a `set` leaves behind.
use ethui.Common.{
  String, ◌≡◌, true, false, Option, none, some, [], ◌∷◌, ◌++◌, ◌==◌, nat_Same, text_Same,
  if◌then◌else◌, arith,
}
use ethui.Common.Dict.{get-insert, get-remove}
use ethui.Common.Exec.{ok, err}
use ethui.Types.{Address}
use ethui.Broadcast.{settings_updated, ui_notify, settings_changed}
use ethui.Settings.{alchemy, DarkMode, is_step_finished}
use ethui.Settings.Actor.{
  Env, SettingsActor, SetValue, SettingsMap, set_all, set_alias, finish_onboarding_step, set, apply,
  save, set_fields, set_alchemy, tell_step, get_alias,
}

save-ok :
    (env : Env) (s : SettingsActor)
    → (save env s).0 ≡ ok tt
    → let t = (save env s).1 in
      (t.file ≡ some t.inner)
      × (t.sent ≡ s.sent ++ (settings_updated ∷ ui_notify settings_changed ∷ []))
unfolding save
save-ok env s e = ground arith

-- Whatever is set, if the call succeeds then the file holds the settings.
pub set-saved :
    (env : Env) (value : SetValue) (s : SettingsActor)
    → (set env value s).0 ≡ ok tt
    → (set env value s).1.file ≡ some (set env value s).1.inner
unfolding set
set-saved env value s e = grind (arith, save-ok)

-- An alias is trimmed: if the file can be written, then an address that is given one has what is left of
-- it, none if nothing is left or none was given, and every other address has what it had.
pub set_alias-get :
    (env : Env) (a b : Address) (alias : Option String) (s : SettingsActor)
    → env.can_write ≡ true
    → let (r, t) = set env (set_alias a alias) s in
      (r ≡ ok tt)
      × (get_alias t b ≡ (
          if a == b
          then (elim alias [
            | none ↦ none
            | some v ↦ if env.trim v == "" then none else some (env.trim v)
          ])
          else get_alias s b))
unfolding set apply save get_alias
set_alias-get env a b none s w = ground (arith, get-remove s.inner.aliases a b)
set_alias-get env a b (some v) s w =
    ground (arith, get-remove s.inner.aliases a b, get-insert s.inner.aliases a b (env.trim v))

-- A key that fails its test finishes its step all the same, and what was set before it stays unsaved: if
-- the map has a dark mode and a non-empty key that fails, and the step is open, then `set` fails, the dark
-- mode is the new one in memory only, and the actor has told itself to finish the step.
pub set_all-failed_key :
    (env : Env) (map : SettingsMap) (mode : DarkMode) (key e : String) (s : SettingsActor)
    → map.dark_mode ≡ some (some mode)
    → map.abi_watch_path ≡ none
    → map.alchemy_api_key ≡ some (some key)
    → (key == "") ≡ false
    → env.test_alchemy key ≡ err e
    → is_step_finished s.inner.onboarding alchemy ≡ false
    → let (r, t) = set env (set_all map) s in
      (r ≡ err e)
      × (t.inner ≡ record s.inner { dark_mode = mode })
      × (t.file ≡ s.file)
      × (t.told ≡ s.told ++ finish_onboarding_step alchemy ∷ [])
unfolding set apply set_fields set_alchemy tell_step
set_all-failed_key env map mode key e s d p k n bad undone = ground arith
