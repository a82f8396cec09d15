-- ===== src/Auth/Lifetime.antt =====
-- From a sign-in to a sign-out, src/data/delivery-system/authSessionRegistry.ts.
use autopilot_beta.Prelude.{
  ℕ, ◌+◌, ◌≤◌, All, arith, ◌<◌, ◌≡◌, refl, sym, ap, ◌∙◌, subst, inl, inr, true, false, ◌&&◌, Option,
  none, some, List, Text, any, ==_iff, ◌==◌, Bool-cases, &&_split, Result, ok, guard, bind-ok,
  guard-ok, ok-injective, length,
}
use autopilot_beta.Auth.Registry.{
  max_auth_sessions, SessionRecord, Lookup, Entry, Files, Host, AuthError, invalid_auth_token,
  invalid_auth_epoch, invalid_credential_generation, is_session_token, is_epoch, valid_generation,
  prune_expired, has_digest, get_session, set_session, make_room, write_sessions, create_session,
  write_pruned, is_fresh, renewed, extend_session, of_generation, find_session, lookup_session,
  delete_session,
}
use autopilot_beta.Auth.Store.{any-delete, get_session-none}
use autopilot_beta.Auth.History.{Call, perform_all}
use autopilot_beta.Auth.Absent.{IsNoSignIn, perform_all-absent}
use autopilot_beta.Auth.Alive.{get_session-prune, get_session-set_session}
use autopilot_beta.Auth.Lasting.{Spares, sign_ins, IsAlive, perform_all-IsAlive}
use autopilot_beta.Auth.Sessions.{write_sessions-ok, pair₀, pair₁}

abbrev Succeeds : Files → Result AuthError Files → Type 0
Succeeds files r = (next : Files) × (r ≡ ok next)

module _ (host : Host) (writes : (f : Files) → host.write_fails f ≡ false) where
  write_sessions-Succeeds :
      (files : Files) (es : List Entry) → Succeeds files (write_sessions host files es)
  unfolding write_sessions
  write_sessions-Succeeds files es =
      (record files { sessions = es }, rw (writes (record files { sessions = es })) refl)

  write_pruned-Succeeds :
      (files : Files) (es : List Entry) → Succeeds files (write_pruned host files es)
  unfolding write_pruned
  write_pruned-Succeeds files es = elim (Bool-cases (length es == length files.sessions)) [
    | inl same ↦ (files, rw same refl)
    | inr pruned ↦
        let (next, e) = write_sessions-Succeeds files es in (next, rw (write_pruned, pruned) e)
  ]

  extend_session-succeeds :
      (d : Text) (now : ℕ) (files : Files) (es : List Entry) (r : SessionRecord)
      → (l : Lookup) × (next : Files) × (extend_session host d now files es r ≡ ok (some l, next))
  unfolding extend_session
  extend_session-succeeds d now files es r = elim (Bool-cases (is_fresh now r)) [
    | inl fresh ↦
        let (next, e) = write_pruned-Succeeds files es in
        (record { session = r; refresh_cookie = false }, next, rw (fresh, e) refl)
    | inr stale ↦
        let (next, e) = write_sessions-Succeeds files (set_session d (renewed now r) es) in
        (record { session = renewed now r; refresh_cookie = true }, next, rw (stale, e) refl)
  ]

create_session-ok :
    (host : Host) (token : Text) (g now : ℕ) (files next : Files) (c : SessionRecord)
    → create_session host token g now files ≡ ok (c, next)
    → (is_session_token token ≡ true)
      × (valid_generation g ≡ true)
      × (c.credential_generation ≡ g)
      × (es : List Entry) × (next.sessions ≡ set_session (host.sha256 token) c es)
unfolding create_session
create_session-ok host token g now files next c h =
    let (_, a, h₁) = bind-ok (guard (is_session_token token) invalid_auth_token) _ h in
    let (_, _, h₂) = bind-ok (guard (is_epoch now) invalid_auth_epoch) _ h₁ in
    let (_, b, h₃) = bind-ok (guard (valid_generation g) invalid_credential_generation) _ h₂ in
    let (f, written, h₄) = bind-ok (write_sessions host files _) _ h₃ in
    let e : _ ≡ c = pair₀ (ok-injective h₄) in
    let stored = write_sessions-ok host files f _ written in
    (
      guard-ok (is_session_token token) invalid_auth_token a,
      guard-ok (valid_generation g) invalid_credential_generation b,
      ap (λ (x : SessionRecord). x.credential_generation) (sym e),
      make_room host (prune_expired now files.sessions),
      ap (λ (x : Files). x.sessions) (sym (pair₁ (ok-injective h₄)) ∙ stored)
          ∙ ap
              (λ x.
                set_session (host.sha256 token) x
                  (make_room host (prune_expired now files.sessions)))
              e,
    )

lookup_session-alive :
    (host : Host) (token : Text) (g e later : ℕ) (files : Files)
    → ((f : Files) → host.write_fails f ≡ false)
    → is_session_token token ≡ true
    → valid_generation g ≡ true
    → IsAlive (host.sha256 token) g e 0 files.sessions
    → later < e
    → is_epoch later ≡ true
    → (l : Lookup) × (after : Files) × (lookup_session host token g later files
        ≡ ok (some l, after))
unfolding lookup_session find_session of_generation
lookup_session-alive host token g e later files writes token_ok generation_ok alive early timely =
    let got : get_session (host.sha256 token) (prune_expired later files.sessions)
        ≡ some alive.session =
      get_session-prune later (host.sha256 token) files.sessions alive.session alive.stands
        (omega (arith, alive.lasts, early)) in
    let (l, after, e) =
      extend_session-succeeds host writes (host.sha256 token) later files
        (prune_expired later files.sessions) alive.session in
    (
      l,
      after,
      rw
          (
            token_ok,
            generation_ok,
            timely,
            find_session,
            got,
            (==_iff alive.session.credential_generation g).1 alive.of_generation,
          )
          e,
    )

-- A sign-in lasts. After it come any calls of the registry at times before the session that it created
-- expires, with any outcomes: lookups, new service tokens, and sign-ins and sign-outs with tokens of other
-- digests. If there are sign-ins among them, they and the sessions that the first one left are no more
-- than 256. Then a lookup with its token and the same generation, at a time before that session expires,
-- finds a session, if the state file can be written.
pub create_session-lookup :
    (host : Host) (token : Text) (g now later : ℕ) (cs : List Call) (files next : Files)
    (c : SessionRecord)
    → ((f : Files) → host.write_fails f ≡ false)
    → create_session host token g now files ≡ ok (c, next)
    → All (Spares host (host.sha256 token) c.expires_at_epoch) cs
    → (0 < sign_ins cs → length next.sessions + sign_ins cs ≤ max_auth_sessions)
    → later < c.expires_at_epoch
    → is_epoch later ≡ true
    → (l : Lookup) × (after : Files) × (lookup_session host token g later (perform_all host cs next)
        ≡ ok (some l, after))
create_session-lookup host token g now later cs files next c writes h spared room early timely =
    let (token_ok, generation_ok, same, es, stored) =
      create_session-ok host token g now files next c h in
    let start : IsAlive (host.sha256 token) g c.expires_at_epoch (sign_ins cs) next.sessions =
      record {
        session = c;
        stands =
            ap (get_session (host.sha256 token)) stored
            ∙ get_session-set_session (host.sha256 token) c es;
        lasts = omega arith;
        of_generation = same;
        room = room;
      } in
    lookup_session-alive host token g c.expires_at_epoch later (perform_all host cs next) writes
      token_ok generation_ok
      (perform_all-IsAlive host (host.sha256 token) g c.expires_at_epoch cs next spared start) early
      timely

find_session-absent :
    (host : Host) (d : Text) (g now : ℕ) (files after : Files) (found : Option Lookup)
    → get_session d (prune_expired now files.sessions) ≡ none
    → find_session host d g now files (prune_expired now files.sessions) ≡ ok (found, after)
    → found ≡ none
unfolding find_session of_generation
find_session-absent host d g now files after found missing h =
    let (_, _, h') =
      bind-ok (write_pruned host files (prune_expired now files.sessions)) _
        (rw (find_session, missing, of_generation) at h) in
    sym (pair₀ (ok-injective h'))

lookup_session-absent :
    (host : Host) (token : Text) (g now : ℕ) (files after : Files) (found : Option Lookup)
    → (is_session_token token ≡ true → any (has_digest (host.sha256 token)) files.sessions ≡ false)
    → lookup_session host token g now files ≡ ok (found, after)
    → found ≡ none
unfolding lookup_session
lookup_session-absent host token g now files after found absent h =
    elim (Bool-cases (is_session_token token && valid_generation g)) [
      | inr refused ↦ sym (pair₀ (ok-injective (rw (lookup_session, refused) at h)))
      | inl accepted ↦
          let (_, _, h') =
            bind-ok (guard (is_epoch now) invalid_auth_epoch) _
              (rw (lookup_session, accepted) at h) in
          let gone = absent (&&_split (is_session_token token) (valid_generation g) accepted).0 in
          find_session-absent host (host.sha256 token) g now files after found
            (get_session-none now (host.sha256 token) files.sessions gone) h'
    ]

delete_session-ok :
    (host : Host) (token : Text) (files next : Files)
    → delete_session host token files ≡ ok next
    → is_session_token token ≡ true
    → any (has_digest (host.sha256 token)) next.sessions ≡ false
unfolding delete_session
delete_session-ok host token files next h valid =
    elim (Bool-cases (any (has_digest (host.sha256 token)) files.sessions)) [
      | inl present ↦
          let e = write_sessions-ok host files next _ (rw (delete_session, valid, present) at h) in
          rw e (any-delete (host.sha256 token) files.sessions)
      | inr absent ↦
          let e : files ≡ next = ok-injective (rw (delete_session, valid, absent) at h) in
          subst (λ (f : Files). any (has_digest (host.sha256 token)) f.sessions ≡ false) e absent
    ]

-- A sign-out ends the session. After it come any calls of the registry, with any outcomes, none of which
-- signs in with a token of the same digest: then no lookup with its token finds a session, at any time
-- and generation.
pub delete_session-lookup :
    (host : Host) (token : Text) (g now : ℕ) (cs : List Call) (files next after : Files)
    (found : Option Lookup)
    → delete_session host token files ≡ ok next
    → All (IsNoSignIn host (host.sha256 token)) cs
    → lookup_session host token g now (perform_all host cs next) ≡ ok (found, after)
    → found ≡ none
delete_session-lookup host token g now cs files next after found h others =
    lookup_session-absent host token g now (perform_all host cs next) after found (λ valid.
      perform_all-absent host (host.sha256 token) cs next others
        (delete_session-ok host token files next h valid))
