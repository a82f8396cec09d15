-- ===== src/Auth/History.antt =====
-- Calls of the class AuthSessionRegistry one after the other, in any order and with any outcome,
-- src/data/delivery-system/authSessionRegistry.ts, and what each makes of the sessions.
use autopilot_beta.Prelude.{
  ℕ, ◌+◌, ◌≡◌, inl, inr, true, false, ◌&&◌, ◌==◌, Option, none, some, List, [], ◌∷◌, Text, any,
  length, Bool-cases, Option-cases, Result, ok, err, ◌>>=◌,
}
use autopilot_beta.Auth.Registry.{
  session_ttl_ms, SessionRecord, Lookup, Entry, Files, Host, AuthError, Outcome, is_session_token,
  is_service_token, is_epoch, valid_generation, prune_expired, has_digest, get_session, set_session,
  delete_session_of, make_room, write_sessions, create_session, write_pruned, is_fresh, renewed,
  extend_session, of_generation, find_session, lookup_session, delete_session, with_token,
  store_service_token,
}
use autopilot_beta.Auth.Sessions.{of_generation-some}

-- A sign-in or a lookup with a token, a generation and a time, a sign-out, or a new service token.
pub data Call : Type 0 where
  signing_in looking_up : Text → ℕ → ℕ → Call
  signing_out : Text → Call
  storing : Text → ℕ → Call

-- The files that a method leaves: as they were, where it throws.
abbrev pub files_after : {A : Type 0} → Files → Outcome A → Files
files_after files (ok p) = p.1
files_after files (err e) = files

abbrev pub files_or : Files → Result AuthError Files → Files
files_or files (ok next) = next
files_or files (err e) = files

unfoldable pub perform : Host → Call → Files → Files
unfolding create_session lookup_session delete_session store_service_token
perform host (signing_in token g now) files =
    files_after files (create_session host token g now files)
perform host (looking_up token g now) files =
    files_after files (lookup_session host token g now files)
perform host (signing_out token) files = files_or files (delete_session host token files)
perform host (storing token now) files =
    files_after files (store_service_token host token now files)

unfoldable pub perform_all : Host → List Call → Files → Files
unfolding perform
perform_all host [] files = files
perform_all host (c ∷ cs) files = perform_all host cs (perform host c files)

-- A property of the sessions that holds of the files holds of what a call leaves, where it holds of
-- the sessions that the call writes.
module _ (P : List Entry → Type 0) (host : Host) (files : Files) (before : P files.sessions) where
  then-keeps :
      {A : Type 0} (a : A) (r : Result AuthError Files)
      → P (files_or files r).sessions
      → P (files_after files (r >>= (λ next. ok (a, next)))).sessions
  then-keeps a (ok next) h = h
  then-keeps a (err e) h = h

  write_sessions-keeps :
      (es : List Entry) → P es → P (files_or files (write_sessions host files es)).sessions
  unfolding write_sessions
  write_sessions-keeps es h =
      elim (Bool-cases (host.write_fails (record files { sessions = es }))) [
        | inl fails ↦ rw (fails, write_sessions) before
        | inr writes ↦ rw (writes, write_sessions) h
      ]

  write_pruned-keeps :
      (es : List Entry) → P es → P (files_or files (write_pruned host files es)).sessions
  unfolding write_pruned
  write_pruned-keeps es h = elim (Bool-cases (length es == length files.sessions)) [
    | inl same ↦ rw (same, write_pruned) before
    | inr pruned ↦ rw (pruned, write_pruned) (write_sessions-keeps es h)
  ]

  extend_session-keeps :
      (d : Text) (now : ℕ) (es : List Entry) (r : SessionRecord)
      → P es
      → (is_fresh now r ≡ false → P (set_session d (renewed now r) es))
      → P (files_after files (extend_session host d now files es r)).sessions
  unfolding extend_session
  extend_session-keeps d now es r h longer = elim (Bool-cases (is_fresh now r)) [
    | inl fresh ↦
        rw (fresh, extend_session)
          (then-keeps (some (record { session = r; refresh_cookie = false }))
            (write_pruned host files es) (write_pruned-keeps es h))
    | inr stale ↦
        rw (stale, extend_session)
          (then-keeps (some (record { session = renewed now r; refresh_cookie = true }))
            (write_sessions host files (set_session d (renewed now r) es))
            (write_sessions-keeps _ (longer stale)))
  ]

  find_session-keeps :
      (d : Text) (g now : ℕ) (es : List Entry)
      → P es
      → ((r : SessionRecord)
          → get_session d es ≡ some r
          → is_fresh now r ≡ false
          → P (set_session d (renewed now r) es))
      → P (files_after files (find_session host d g now files es)).sessions
  unfolding find_session
  find_session-keeps d g now es h longer =
      elim (Option-cases (of_generation g (get_session d es))) [
        | inl missing ↦
            rw (missing, find_session)
              (then-keeps {A = Option Lookup} none (write_pruned host files es)
                (write_pruned-keeps es h))
        | inr (r, found) ↦
            rw (found, find_session)
              (extend_session-keeps d now es r h (longer r (of_generation-some g _ r found).0))
      ]

  pub lookup_session-keeps :
      (token : Text) (g now : ℕ)
      → P (prune_expired now files.sessions)
      → ((r : SessionRecord)
          → get_session (host.sha256 token) (prune_expired now files.sessions) ≡ some r
          → is_fresh now r ≡ false
          → P (set_session (host.sha256 token) (renewed now r) (prune_expired now files.sessions)))
      → P (perform host (looking_up token g now) files).sessions
  unfolding perform lookup_session
  lookup_session-keeps token g now h longer =
      elim (Bool-cases (is_session_token token && valid_generation g)) [
        | inr refused ↦ rw (refused, lookup_session) before
        | inl accepted ↦ elim (Bool-cases (is_epoch now)) [
          | inr untimely ↦ rw (accepted, untimely, lookup_session) before
          | inl timely ↦
              rw (accepted, timely, lookup_session)
                (find_session-keeps (host.sha256 token) g now _ h longer)
        ]
      ]

  pub create_session-keeps :
      (token : Text) (g now : ℕ)
      → ((c : SessionRecord)
          → P (
              set_session
                (host.sha256 token)
                c
                (make_room host (prune_expired now files.sessions))))
      → P (perform host (signing_in token g now) files).sessions
  unfolding perform create_session
  create_session-keeps token g now h = elim (Bool-cases (is_session_token token)) [
    | inr refused ↦ rw (refused, create_session) before
    | inl a ↦ elim (Bool-cases (is_epoch now)) [
      | inr untimely ↦ rw (a, untimely, create_session) before
      | inl b ↦ elim (Bool-cases (valid_generation g)) [
        | inr bad ↦ rw (a, b, bad, create_session) before
        | inl c ↦
            let made : SessionRecord = record {
              expires_at_epoch = now + session_ttl_ms;
              credential_generation = g;
              created_at_epoch = now;
            } in
            let es = make_room host (prune_expired now files.sessions) in
            rw (a, b, c, create_session)
              (then-keeps made (write_sessions host files (set_session (host.sha256 token) made es))
                (write_sessions-keeps _ (h made)))
      ]
    ]
  ]

  pub delete_session-keeps :
      (token : Text)
      → P (delete_session_of (host.sha256 token) files.sessions)
      → P (perform host (signing_out token) files).sessions
  unfolding perform delete_session
  delete_session-keeps token h =
      elim (Bool-cases
        (is_session_token token && any (has_digest (host.sha256 token)) files.sessions)) [
          | inl present ↦ rw (present, delete_session) (write_sessions-keeps _ h)
          | inr absent ↦ rw (absent, delete_session) before
        ]

  pub store_service_token-keeps :
      (token : Text) (now : ℕ) → P (perform host (storing token now) files).sessions
  unfolding perform store_service_token
  store_service_token-keeps token now = elim (Bool-cases (is_service_token token)) [
    | inr refused ↦ rw (refused, store_service_token) before
    | inl a ↦ elim (Bool-cases (is_epoch now)) [
      | inr untimely ↦ rw (a, untimely, store_service_token) before
      | inl b ↦ elim (Bool-cases (host.write_fails (with_token host token now files))) [
        | inl fails ↦ rw (a, b, fails, store_service_token) before
        | inr writes ↦ rw (a, b, writes, store_service_token) before
      ]
    ]
  ]
