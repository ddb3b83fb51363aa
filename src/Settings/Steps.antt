-- ===== src/Settings/Steps.antt =====
-- crates/settings/src/onboarding.rs: when the onboarding is hidden.
use ethui.Common.{
  ℕ, ◌+◌, ◌≡◌, ◌≢◌, refl, ap, Bool, true, false, ◌↔◌, none, some, [], ◌∷◌, arith, ◌==◌, length,
  if◌then◌else◌, Option-cases, inl, inr,
}
use ethui.Common.Dict
use ethui.Common.Dict.{Dict, values, get-insert, Distinct, insert-Distinct}
use ethui.Settings.{
  OnboardingStep, alchemy, etherscan, wallet, extension, foundry, step_Same, step_same_iff,
  Onboarding, all_true, all_finished, finish_step, finish, is_step_finished, deserialize,
  step_count,
}

-- Finishing a step finishes that step and no other one.
is_step_finished-finish_step :
    (o : Onboarding) (s t : OnboardingStep)
    → is_step_finished (finish_step s o) t ≡ (if s == t then true else is_step_finished o t)
unfolding is_step_finished finish_step
is_step_finished-finish_step o s t = ground (arith, get-insert o.steps s t true)

abbrev has : Dict OnboardingStep Bool → OnboardingStep → ℕ
has d k = elim (Dict.get d k) [ none ↦ 0 | some b ↦ 1 ]

-- There are five steps, so five entries are all of them.
length-has :
    (d : Dict OnboardingStep Bool)
    → Distinct d
    → length d ≡ has d alchemy + has d etherscan + has d wallet + has d extension + has d foundry
unfolding Dict.get
length-has [] h = omega arith
length-has ((alchemy, v) ∷ d) h = ground (arith, length-has d h.1)
length-has ((etherscan, v) ∷ d) h = ground (arith, length-has d h.1)
length-has ((wallet, v) ∷ d) h = ground (arith, length-has d h.1)
length-has ((extension, v) ∷ d) h = ground (arith, length-has d h.1)
length-has ((foundry, v) ∷ d) h = ground (arith, length-has d h.1)

length-five :
    (d : Dict OnboardingStep Bool) (k : OnboardingStep)
    → Distinct d
    → length d ≡ step_count
    → Dict.get d k ≢ none
length-five d alchemy h e q = ground (arith, length-has d h)
length-five d etherscan h e q = ground (arith, length-has d h)
length-five d wallet h e q = ground (arith, length-has d h)
length-five d extension h e q = ground (arith, length-has d h)
length-five d foundry h e q = ground (arith, length-has d h)

all_true-get :
    (d : Dict OnboardingStep Bool) (k : OnboardingStep) (b : Bool)
    → all_true (values d) ≡ true
    → Dict.get d k ≡ some b
    → b ≡ true
unfolding Dict.get
all_true-get [] k b a e = cc
all_true-get ((j, v) ∷ d) k b a e = ground (arith, all_true-get d k b)

get-all_true :
    (d : Dict OnboardingStep Bool)
    → Distinct d
    → ((k : OnboardingStep) → Dict.get d k ≢ some false)
    → all_true (values d) ≡ true
unfolding Dict.get
get-all_true [] h f = refl
get-all_true ((j, v) ∷ d) h f =
    ground (arith, f j, step_same_iff j j, get-all_true d h.1 (λ k e. f k (behind k e)))
  where
    behind : (k : OnboardingStep) → Dict.get d k ≡ some false → Dict.get ((j, v) ∷ d) k ≡ some false
    behind k e = ground (arith, h.0, step_same_iff j k, ap (Dict.get d) {x = j} {y = k})

all_finished_iff :
    (d : Dict OnboardingStep Bool)
    → Distinct d
    → (all_finished d ≡ true) ↔ ((k : OnboardingStep) → Dict.get d k ≡ some true)
all_finished_iff d h = (
  (λ a k. elim (Option-cases (Dict.get d k)) [
    | inl missing ↦ absurd (length-five d k h (ground arith) missing)
    | inr (b, e) ↦ ground (arith, all_true-get d k b)
  ]),
  λ f. ground (
    arith,
    length-has d h,
    f alchemy,
    f etherscan,
    f wallet,
    f extension,
    f foundry,
    get-all_true d h (λ k e. ground (arith, f k)),
  ),
)

-- If no step stands twice among the steps, then after a step is finished the onboarding is hidden
-- exactly when every step is finished.
pub finish_step-hides :
    (s : OnboardingStep) (o : Onboarding)
    → Distinct o.steps
    → ((finish_step s o).hidden ≡ true)
      ↔ ((t : OnboardingStep) → is_step_finished (finish_step s o) t ≡ true)
unfolding finish_step is_step_finished
finish_step-hides s o h =
    let d = Dict.insert o.steps s true in
    let both = all_finished_iff d (insert-Distinct o.steps s true h) in
    (
      (λ a t. ground (arith, both.0 a t)),
      λ f. both.1 (λ t. elim (Option-cases (Dict.get d t)) [
        | inl missing ↦ absurd (ground (arith, f t))
        | inr (b, e) ↦ ground (arith, f t)
      ]),
    )

get-finish : (o : Onboarding) (t : OnboardingStep) → Dict.get (finish o).steps t ≡ some true
unfolding finish
get-finish o t =
    let s1 = Dict.insert o.steps extension true in
    let s2 = Dict.insert s1 wallet true in
    let s3 = Dict.insert s2 alchemy true in
    let s4 = Dict.insert s3 etherscan true in
    elim t as (λ t. Dict.get (finish o).steps t ≡ some true) [
      | alchemy ↦ ground (
        arith,
        get-insert s4 foundry alchemy true,
        get-insert s3 etherscan alchemy true,
        get-insert s2 alchemy alchemy true,
      )
      | etherscan ↦
          ground
            (arith, get-insert s4 foundry etherscan true, get-insert s3 etherscan etherscan true)
      | wallet ↦ ground (
        arith,
        get-insert s4 foundry wallet true,
        get-insert s3 etherscan wallet true,
        get-insert s2 alchemy wallet true,
        get-insert s1 wallet wallet true,
      )
      | extension ↦ ground (
        arith,
        get-insert s4 foundry extension true,
        get-insert s3 etherscan extension true,
        get-insert s2 alchemy extension true,
        get-insert s1 wallet extension true,
        get-insert o.steps extension extension true,
      )
      | foundry ↦ ground (arith, get-insert s4 foundry foundry true)
    ]

finish-Distinct : (o : Onboarding) → Distinct o.steps → Distinct (finish o).steps
unfolding finish
finish-Distinct o h =
    let s1 = Dict.insert o.steps extension true in
    let s2 = Dict.insert s1 wallet true in
    let s3 = Dict.insert s2 alchemy true in
    let s4 = Dict.insert s3 etherscan true in
    insert-Distinct s4 foundry true (
      insert-Distinct s3 etherscan true (
        insert-Distinct s2 alchemy true
          (insert-Distinct s1 wallet true (insert-Distinct o.steps extension true h))))

-- Finishing everything hides the onboarding and finishes each step, and a start from the saved steps
-- hides it again if no step stood twice.
pub finish-hides :
    (o : Onboarding)
    → Distinct o.steps
    → ((finish o).hidden ≡ true)
      × ((t : OnboardingStep) → is_step_finished (finish o) t ≡ true)
      × ((deserialize (finish o).steps).hidden ≡ true)
unfolding finish is_step_finished deserialize
finish-hides o h = (
  refl,
  (λ t. ground (arith, get-finish o t)),
  (all_finished_iff (finish o).steps (finish-Distinct o h)).1 (get-finish o),
)
