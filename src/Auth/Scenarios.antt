-- ===== src/Auth/Scenarios.antt =====
-- A sign-in, a lookup a day later, a sign-out, and a service token.
use autopilot_beta.Prelude.{
  ℕ, List, false≢true, ap, ◌+◌, ◌≡◌, refl, true, false, Option, none, some, [], ◌∷◌, Text, codes,
  text_eq, includes, ok, arith,
}
use autopilot_beta.Auth.Registry.{
  SessionRecord, Lookup, Files, Host, session_ttl_ms, is_session_token, is_service_token,
  create_session, lookup_session, delete_session, verify_service_token, ServiceToken,
  store_service_token,
}
use autopilot_beta.Auth.Sessions.{IsCurrent, lookup_session-IsCurrent}
use autopilot_beta.Auth.History.{Call, signing_in, looking_up, signing_out, storing, perform_all}
use autopilot_beta.Auth.Lifetime.{create_session-lookup, delete_session-lookup}
use autopilot_beta.Auth.Issued.{store_service_token-verify}

abbrev host : Host
host = record { sha256 = λ t. t; before = λ a b. true; write_fails = λ f. false }

abbrev token : Text
token = codes "abcdefghijklmnopqrstuvwxyzABCDEFGHIJKLMNOPQ"

abbrev service : Text
service = codes "0123456789abcdef0123456789abcdef0123456789abcdef0123456789abcdef"

abbrev empty : Files
empty = record { sessions = []; service_token = none }

abbrev created : SessionRecord
created = record {
  expires_at_epoch = 1000 + session_ttl_ms;
  credential_generation = 1;
  created_at_epoch = 1000;
}

abbrev signed_in : Files
signed_in = record { sessions = (token, created) ∷ []; service_token = none }

-- Names what the examples compute with.
machine : Unit {0}
unfolding text_eq includes is_session_token is_service_token create_session lookup_session
    delete_session store_service_token
machine = tt

first_sign_in : create_session host token 1 1000 empty ≡ ok (created, signed_in)
unfolding machine
first_sign_in = refl

a_day_later :
    lookup_session host token 1 86401000 signed_in
    ≡ ok (some (record { session = created; refresh_cookie = false }), signed_in)
unfolding machine
a_day_later = refl

lookup_session-IsCurrent_example :
    IsCurrent 1 86401000 (record { session = created; refresh_cookie = false })
lookup_session-IsCurrent_example =
    lookup_session-IsCurrent host token 1 86401000 signed_in signed_in
      (record { session = created; refresh_cookie = false }) a_day_later

-- Another session's token.
abbrev other_token : Text
other_token = codes "ABCDEFGHIJKLMNOPQabcdefghijklmnopqrstuvwxyz"

other_token_differs : ¬ (other_token ≡ token)
unfolding machine
other_token_differs same = false≢true (ap (λ x. text_eq x token) same)

-- What happens between a sign-in and a lookup twenty days later.
abbrev busy_days : List Call
busy_days =
    signing_in other_token 1 2000
    ∷ looking_up token 1 864000000
    ∷ signing_out other_token
    ∷ storing service 5
    ∷ []

create_session-lookup_example :
    (l : Lookup) × (after : Files) × (lookup_session host token 1 1728000000
        (perform_all host busy_days signed_in)
      ≡ ok (some l, after))
create_session-lookup_example =
    create_session-lookup host token 1 1000 1728000000 busy_days empty signed_in created (λ f. refl)
      first_sign_in
      ((other_token_differs, omega arith), (omega arith, (other_token_differs, (tt, tt))))
      (λ some_left. omega arith) (omega arith) refl

-- What happens after a sign-out.
abbrev afterwards : List Call
afterwards = signing_in other_token 1 3000 ∷ looking_up token 1 4000 ∷ storing service 5 ∷ []

abbrev left_over : Files
left_over = perform_all host afterwards empty

delete_session-lookup_example : ◌≡◌ {A = Option Lookup} none none
unfolding machine perform_all
delete_session-lookup_example =
    delete_session-lookup host token 1 5000 afterwards signed_in empty left_over none refl
      (other_token_differs, (tt, (tt, tt))) refl

abbrev other_service : Text
other_service = codes "fedcba9876543210fedcba9876543210fedcba9876543210fedcba9876543210"

abbrev first_issued : Files
first_issued = record {
  sessions = [];
  service_token = some (record { digest = service; issued_at_epoch = 5; generation = 1 });
}

abbrev second_token : ServiceToken
second_token = record { digest = other_service; issued_at_epoch = 6; generation = 2 }

abbrev second_issued : Files
second_issued = record { sessions = []; service_token = some second_token }

store_service_token-verify_example :
    (verify_service_token host other_service second_issued ≡ true) × ◌≡◌ {A = ℕ} 2 (1 + 1)
unfolding machine
store_service_token-verify_example =
    store_service_token-verify host other_service 6 first_issued second_issued second_token refl
