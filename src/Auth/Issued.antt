-- ===== src/Auth/Issued.antt =====
-- The service token, src/data/delivery-system/authSessionRegistry.ts.
use autopilot_beta.Prelude.{
  ℕ, ◌+◌, arith, ◌≡◌, refl, sym, ap, ◌∙◌, subst, true, not, Option, none, some, Text, text_eq_refl,
  ok, guard, bind-ok, guard-ok, ok-injective,
}
use autopilot_beta.Auth.Registry.{
  ServiceToken, Files, Host, invalid_auth_token, invalid_auth_epoch, write_failed, is_service_token,
  is_epoch, verify_service_token, next_generation, store_service_token, issued_token, with_token,
}
use autopilot_beta.Auth.Sessions.{pair₀, pair₁}

next_generation_lem :
    (o : Option ServiceToken)
    → next_generation o ≡ elim o [ none ↦ 1 | some stored ↦ stored.generation + 1 ]
next_generation_lem none = refl
next_generation_lem (some stored) = omega arith

-- A service token that has been stored is accepted. Its generation is 1 if there was none before it, and
-- else one more than that of the token that it replaces.
pub store_service_token-verify :
    (host : Host) (token : Text) (now : ℕ) (files next : Files) (issued : ServiceToken)
    → store_service_token host token now files ≡ ok (issued, next)
    → (verify_service_token host token next ≡ true)
      × (issued.generation
          ≡ elim files.service_token [ none ↦ 1 | some stored ↦ stored.generation + 1 ])
unfolding store_service_token verify_service_token
store_service_token-verify host token now files next issued h =
    let (_, a, h₁) = bind-ok (guard (is_service_token token) invalid_auth_token) _ h in
    let (_, _, h₂) = bind-ok (guard (is_epoch now) invalid_auth_epoch) _ h₁ in
    let (_, _, h₃) =
      bind-ok (guard (not (host.write_fails (with_token host token now files))) write_failed) _
        h₂ in
    let valid = guard-ok (is_service_token token) invalid_auth_token a in
    let accepted : verify_service_token host token (with_token host token now files) ≡ true =
      rw (valid, text_eq_refl (host.sha256 token)) refl in
    let same : (issued_token host token now files, with_token host token now files)
        ≡ (issued, next) =
      ok-injective h₃ in
    (
      subst (λ (f : Files). verify_service_token host token f ≡ true) (pair₁ same) accepted,
      ap (λ (t : ServiceToken). t.generation) (sym (pair₀ same))
          ∙ next_generation_lem files.service_token,
    )
