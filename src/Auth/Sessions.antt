-- ===== src/Auth/Sessions.antt =====
-- What a sign-in, a lookup and a sign-out promise, src/data/delivery-system/authSessionRegistry.ts.
use autopilot_beta.Prelude.{
  ℕ, ◌+◌, ◌<◌, ◌≡◌, refl, sym, ap, subst, inl, inr, true, not, ◌&&◌, Option, none, some, List, Text,
  ltb→lt, ==_iff, ◌==◌, Bool-cases, Option-cases, arith, ok, guard, bind-ok, ok-injective,
  none≢some, some-injective,
}
use autopilot_beta.Auth.Registry.{
  SessionRecord, Lookup, Entry, Files, Host, invalid_auth_epoch, write_failed, is_session_token,
  is_epoch, valid_generation, prune_expired, get_session, set_session, write_sessions, write_pruned,
  is_fresh, renewed, extend_session, of_generation, find_session, lookup_session, session_ttl_ms,
}
use autopilot_beta.Auth.Store.{get_session-unexpired}

pub write_sessions-ok :
    (host : Host) (files next : Files) (es : List Entry)
    → write_sessions host files es ≡ ok next
    → next ≡ record files { sessions = es }
unfolding write_sessions
write_sessions-ok host files next es h =
    let (_, _, h') =
      bind-ok (guard (not (host.write_fails (record files { sessions = es }))) write_failed) _ h in
    sym (ok-injective h')

pub pair₀ : {A B : Type 0} {a a' : A} {b b' : B} → ◌≡◌ {A = A × B} (a, b) (a', b') → a ≡ a'
pair₀ h = ap (λ p. p.0) h

pub pair₁ : {A B : Type 0} {a a' : A} {b b' : B} → ◌≡◌ {A = A × B} (a, b) (a', b') → b ≡ b'
pair₁ h = ap (λ p. p.1) h

pub of_generation-some :
    (g : ℕ) (o : Option SessionRecord) (r : SessionRecord)
    → of_generation g o ≡ some r
    → (o ≡ some r) × (r.credential_generation ≡ g)
unfolding of_generation
of_generation-some g none r h = absurd (none≢some h)
of_generation-some g (some x) r h = elim (Bool-cases (x.credential_generation == g)) [
  | inr other ↦ absurd (none≢some (rw (of_generation, other) at h))
  | inl same ↦
      let e : x ≡ r = some-injective (rw (of_generation, same) at h) in
      (
        ap some e,
        subst (λ (y : SessionRecord). y.credential_generation ≡ g) e
            ((==_iff x.credential_generation g).0 same),
      )
]

-- What a lookup returns belongs to the current generation of credentials and has not expired; where the
-- cookie is to be refreshed, the session lasts a whole term from now.
pub record IsCurrent (generation now : ℕ) (l : Lookup) : Type 0 where
  pub of_current_generation : l.session.credential_generation ≡ generation
  pub unexpired : now < l.session.expires_at_epoch
  pub extended : l.refresh_cookie ≡ true → l.session.expires_at_epoch ≡ now + session_ttl_ms

extend_session-IsCurrent :
    (host : Host) (d : Text) (now g : ℕ) (files next : Files) (es : List Entry) (r : SessionRecord)
    (l : Lookup)
    → r.credential_generation ≡ g
    → now < r.expires_at_epoch
    → extend_session host d now files es r ≡ ok (some l, next)
    → IsCurrent g now l
unfolding extend_session
extend_session-IsCurrent host d now g files next es r l same alive h =
    elim (Bool-cases (is_fresh now r)) [
      | inl fresh ↦
          let (f, _, h') =
            bind-ok (write_pruned host files es) _ (rw (extend_session, fresh) at h) in
          let e = some-injective (pair₀ (ok-injective h')) in
          subst (IsCurrent g now) e
            (record { of_current_generation = same; unexpired = alive; extended = λ no. cc })
      | inr stale ↦
          let (f, _, h') =
            bind-ok (write_sessions host files (set_session d (renewed now r) es)) _
              (rw (extend_session, stale) at h) in
          let e = some-injective (pair₀ (ok-injective h')) in
          subst (IsCurrent g now) e
            (record { of_current_generation = same; unexpired = omega arith; extended = λ _. refl })
    ]

find_session-IsCurrent :
    (host : Host) (d : Text) (g now : ℕ) (files next : Files) (l : Lookup)
    → find_session host d g now files (prune_expired now files.sessions) ≡ ok (some l, next)
    → IsCurrent g now l
unfolding find_session
find_session-IsCurrent host d g now files next l h =
    elim (Option-cases (of_generation g (get_session d (prune_expired now files.sessions)))) [
      | inl missing ↦
          let (f, _, h') =
            bind-ok (write_pruned host files (prune_expired now files.sessions)) _
              (rw (find_session, missing) at h) in
          absurd (none≢some (pair₀ (ok-injective h')))
      | inr (r, found) ↦
          let (got, same) = of_generation-some g _ r found in
          let alive =
            ltb→lt now r.expires_at_epoch (get_session-unexpired now d files.sessions r got) in
          extend_session-IsCurrent host d now g files next (prune_expired now files.sessions) r l
            same alive (rw (find_session, found) at h)
    ]

-- A lookup that returns a session returns one of the current generation that has not expired, and one
-- whose cookie is refreshed lasts a whole term from now.
pub lookup_session-IsCurrent :
    (host : Host) (token : Text) (g now : ℕ) (files next : Files) (l : Lookup)
    → lookup_session host token g now files ≡ ok (some l, next)
    → IsCurrent g now l
unfolding lookup_session
lookup_session-IsCurrent host token g now files next l h =
    elim (Bool-cases (is_session_token token && valid_generation g)) [
      | inr refused ↦ absurd (none≢some (pair₀ (ok-injective (rw (lookup_session, refused) at h))))
      | inl accepted ↦
          let (_, _, h') =
            bind-ok (guard (is_epoch now) invalid_auth_epoch) _
              (rw (lookup_session, accepted) at h) in
          find_session-IsCurrent host (host.sha256 token) g now files next l h'
    ]
