-- ===== src/Owner/Profile.antt =====
-- The profile of a run, src/data/delivery-system/executionProfile.ts.
use autopilot_beta.Prelude.{
  ◌≡◌, refl, ◌⊎◌, ◌↔◌, Bool, true, false, ◌&&◌, Option, none, some, Text, text_eq, text_eq_iff,
  text_eq→≡, text_eq_refl, opt_text_eq, Result, ok, guard, guard-ok, &&_split3, arith, List, [],
  ◌∷◌,
}

pub data RunProfile : Type 0 where
  dev prod : RunProfile

-- WorkUnitRisk of efficiencyPolicy.ts.
pub data Risk : Type 0 where
  ordinary high : Risk

-- The two classes of WorkUnitClass (efficiencyPolicy.ts) that a profile assigns.
pub data WorkClass : Type 0 where
  high_risk bounded_implementation : WorkClass

pub data VerificationMode : Type 0 where
  diff_scoped full_fail_closed : VerificationMode

pub data Effort : Type 0 where
  low medium high xhigh max ultra : Effort

abbrev pub effort_eq : Effort → Effort → Bool
effort_eq low low = true
effort_eq medium medium = true
effort_eq high high = true
effort_eq xhigh xhigh = true
effort_eq max max = true
effort_eq ultra ultra = true
effort_eq _ _ = false

-- The lanes of governed dispatch.
pub data Vendor : Type 0 where
  codex_cli claude_cli agy_cli openrouter_api : Vendor

unfoldable pub supported_reasoning_efforts : Vendor → List Effort
supported_reasoning_efforts codex_cli = low ∷ medium ∷ high ∷ xhigh ∷ max ∷ ultra ∷ []
supported_reasoning_efforts claude_cli = low ∷ medium ∷ high ∷ xhigh ∷ max ∷ []
supported_reasoning_efforts agy_cli = low ∷ medium ∷ high ∷ []
supported_reasoning_efforts openrouter_api = []

unfoldable pub resolve_verification_mode : RunProfile → Risk → VerificationMode
resolve_verification_mode prod risk = full_fail_closed
resolve_verification_mode dev high = full_fail_closed
resolve_verification_mode dev ordinary = diff_scoped

unfoldable pub classify_work_unit_for_profile : RunProfile → Bool → WorkClass × Risk
classify_work_unit_for_profile prod touches = (high_risk, high)
classify_work_unit_for_profile dev true = (high_risk, high)
classify_work_unit_for_profile dev false = (bounded_implementation, ordinary)

pub record RouteSnapshot : Type 0 where
  pub provider : Text
  pub model : Option Text
  pub reasoning : Option Effort

pub data ProfileError : Type 0 where
  silent_route_change_forbidden : ProfileError

abbrev pub opt_effort_eq : Option Effort → Option Effort → Bool
opt_effort_eq none none = true
opt_effort_eq (some a) (some b) = effort_eq a b
opt_effort_eq _ _ = false

unfoldable pub assert_no_silent_route_change :
    RouteSnapshot → RouteSnapshot → Result ProfileError (Unit {0})
assert_no_silent_route_change before after =
    guard
      (text_eq before.provider after.provider
        && opt_text_eq before.model after.model
        && opt_effort_eq before.reasoning after.reasoning)
      silent_route_change_forbidden

opt_text_eq_iff : (a b : Option Text) → (opt_text_eq a b ≡ true) ↔ (a ≡ b)
opt_text_eq_iff none none = (λ _. refl, λ _. refl)
opt_text_eq_iff none (some b) = (λ h. cc, λ h. cc)
opt_text_eq_iff (some a) none = (λ h. cc, λ h. cc)
opt_text_eq_iff (some a) (some b) =
    (λ h. let e = text_eq→≡ a b h in cc, λ h. let e : a ≡ b = cc in rw e (text_eq_refl b))

opt_effort_eq_iff : (a b : Option Effort) → (opt_effort_eq a b ≡ true) ↔ (a ≡ b)
opt_effort_eq_iff a b = ground arith

-- The check accepts exactly the routes whose provider, model and effort are the same.
pub assert_no_silent_route_change_iff :
    (before after : RouteSnapshot)
    → (assert_no_silent_route_change before after ≡ ok tt) ↔ (
        (before.provider ≡ after.provider)
        × (before.model ≡ after.model)
        × (before.reasoning ≡ after.reasoning))
unfolding assert_no_silent_route_change
assert_no_silent_route_change_iff before after = (
  λ h.
      let (p, m, r) = &&_split3 _ _ _ (guard-ok _ _ h) in
      (
        (text_eq_iff before.provider after.provider).0 p,
        (opt_text_eq_iff before.model after.model).0 m,
        (opt_effort_eq_iff before.reasoning after.reasoning).0 r,
      ),
  λ (p, m, r).
      rw
        (
          (text_eq_iff before.provider after.provider).1 p,
          (opt_text_eq_iff before.model after.model).1 m,
          (opt_effort_eq_iff before.reasoning after.reasoning).1 r,
        )
        refl,
)

-- Work is verified in full exactly if the run is for production or the work touches a boundary of
-- high risk, and then it is classed as high risk.
pub classify_work_unit_for_profile_lem :
    (profile : RunProfile) (touches : Bool)
    → ((resolve_verification_mode profile (classify_work_unit_for_profile profile touches).1
          ≡ full_fail_closed)
        ↔ ((profile ≡ prod) ⊎ (touches ≡ true)))
      × (((classify_work_unit_for_profile profile touches).0 ≡ high_risk)
          ↔ ((profile ≡ prod) ⊎ (touches ≡ true)))
unfolding resolve_verification_mode classify_work_unit_for_profile
classify_work_unit_for_profile_lem profile touches = ground arith
