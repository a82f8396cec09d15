-- ===== src/Auth/Registry.antt =====
-- The operations of the class AuthSessionRegistry, src/data/delivery-system/authSessionRegistry.ts, on
-- what its two files hold. Reading the files (their permissions, JSON and checks) is left out.
use autopilot_beta.Prelude.{
  ℕ, suc, ◌+◌, ◌-◌, ◌*◌, ◌/◌, Bool, true, false, not, ◌&&◌, ◌||◌, Option, none, some, List, [], ◌∷◌,
  map, Text, text_eq, includes, take, length, every, any, find, filter, leb, ltb, ◌==◌,
  if◌then◌else◌, Result, ok, ◌>>=◌, ◌>>◌, guard,
}

abbrev pub session_ttl_ms : ℕ
session_ttl_ms = 30 * 24 * 60 * 60 * 1000

abbrev pub session_renew_after_ms : ℕ
session_renew_after_ms = session_ttl_ms / 4

abbrev pub max_auth_sessions : ℕ
max_auth_sessions = 256

abbrev pub max_safe_integer : ℕ
max_safe_integer = 9007199254740991

-- AuthSessionRecord
pub record SessionRecord : Type 0 where
  pub expires_at_epoch : ℕ
  pub credential_generation : ℕ
  pub created_at_epoch : ℕ

-- AuthSessionLookup
pub record Lookup : Type 0 where
  pub session : SessionRecord
  pub refresh_cookie : Bool

pub record ServiceToken : Type 0 where
  pub digest : Text
  pub issued_at_epoch : ℕ
  pub generation : ℕ

abbrev pub Entry : Type 0
Entry = Text × SessionRecord

-- What the files hold: the records of sessions by the digest of their token, and the service token.
pub record Files : Type 0 where
  pub sessions : List Entry
  pub service_token : Option ServiceToken

-- The SHA-256 of `node:crypto`, the order of `localeCompare` on digests, and whether the atomic write
-- of a file fails.
pub record Host : Type 0 where
  pub sha256 : Text → Text
  pub before : Text → Text → Bool
  pub write_fails : Files → Bool

pub data AuthError : Type 0 where
  invalid_auth_token invalid_auth_epoch invalid_credential_generation write_failed : AuthError

-- A method returns its result with the files it leaves, or throws and leaves them as they were.
abbrev pub Outcome : Type 0 → Type 0
Outcome A = Result AuthError (A × Files)

abbrev is_lower_hex : ℕ → Bool
is_lower_hex c = leb 48 c && leb c 57 || leb 97 c && leb c 102

-- /^[A-Za-z0-9_-]$/
abbrev is_token_char : ℕ → Bool
is_token_char c =
    leb 65 c && leb c 90 || leb 97 c && leb c 122 || leb 48 c && leb c 57 || c == 95 || c == 45

unfoldable pub is_session_token : Text → Bool
is_session_token t = (length t == 43) && every is_token_char t

unfoldable pub is_service_token : Text → Bool
is_service_token t = (length t == 64) && every is_lower_hex t

abbrev pub is_epoch : ℕ → Bool
is_epoch n = leb n max_safe_integer

abbrev pub valid_generation : ℕ → Bool
valid_generation g = leb g max_safe_integer && leb 1 g

unfoldable pub prune_expired : ℕ → List Entry → List Entry
prune_expired now = filter (λ e. ltb now e.1.expires_at_epoch)

abbrev pub has_digest : Text → Entry → Bool
has_digest d e = text_eq e.0 d

-- `sessions[digest]`
abbrev pub record_of : Option Entry → Option SessionRecord
record_of none = none
record_of (some e) = some e.1

unfoldable pub get_session : Text → List Entry → Option SessionRecord
get_session d entries = record_of (find (has_digest d) entries)

-- `sessions[digest] = record`: a key that is there keeps its place.
unfoldable pub set_session : Text → SessionRecord → List Entry → List Entry
set_session d r [] = (d, r) ∷ []
set_session d r (e ∷ es) = if has_digest d e then (d, r) ∷ es else e ∷ set_session d r es

-- `delete sessions[digest]`
unfoldable pub delete_session_of : Text → List Entry → List Entry
delete_session_of d = filter (λ e. not (has_digest d e))

-- By the time of creation, and then by digest.
abbrev pub is_older : Host → Entry → Entry → Bool
is_older host a b =
    ltb a.1.created_at_epoch b.1.created_at_epoch
    || (a.1.created_at_epoch == b.1.created_at_epoch) && host.before a.0 b.0

unfoldable pub insert_entry : Host → Entry → List Entry → List Entry
insert_entry host e [] = e ∷ []
insert_entry host e (x ∷ xs) = if is_older host x e then x ∷ insert_entry host e xs else e ∷ x ∷ xs

unfoldable pub sort_entries : Host → List Entry → List Entry
unfolding insert_entry
sort_entries host [] = []
sort_entries host (e ∷ es) = insert_entry host e (sort_entries host es)

-- `Math.max(0, entries.length - MAX_AUTH_SESSIONS + 1)`; `-` stops at 0
abbrev pub excess : List Entry → ℕ
excess entries = suc (length entries) - max_auth_sessions

-- The oldest sessions make room for the new one.
unfoldable pub make_room : Host → List Entry → List Entry
unfolding sort_entries includes
make_room host entries =
    let oldest = map (λ (e : Entry). e.0) (take (excess entries) (sort_entries host entries)) in
    filter (λ e. not (includes e.0 oldest)) entries

-- The files with other sessions, if they can be written.
unfoldable pub write_sessions : Host → Files → List Entry → Result AuthError Files
write_sessions host files sessions =
    let next : Files = record files { sessions = sessions } in
    guard (not (host.write_fails next)) write_failed >> ok next

unfoldable pub create_session : Host → Text → ℕ → ℕ → Files → Outcome SessionRecord
unfolding is_session_token prune_expired make_room set_session write_sessions
create_session host token generation now files = do
  guard (is_session_token token) invalid_auth_token
  guard (is_epoch now) invalid_auth_epoch
  guard (valid_generation generation) invalid_credential_generation
  let created : SessionRecord = record {
    expires_at_epoch = now + session_ttl_ms;
    credential_generation = generation;
    created_at_epoch = now;
  }
  next ←
      write_sessions host files (
        set_session (host.sha256 token) created (make_room host (prune_expired now files.sessions)))
  ok (created, next)

-- `if (pruned) write(sessions)`
unfoldable pub write_pruned : Host → Files → List Entry → Result AuthError Files
unfolding write_sessions
write_pruned host files sessions =
    if length sessions == length files.sessions
    then ok files
    else write_sessions host files sessions

-- `now <= expires - TTL + RENEW_AFTER`, where the left side of the subtraction is the greater
abbrev pub is_fresh : ℕ → SessionRecord → Bool
is_fresh now r = leb (now + session_ttl_ms) (r.expires_at_epoch + session_renew_after_ms)

abbrev pub renewed : ℕ → SessionRecord → SessionRecord
renewed now r = record r { expires_at_epoch = now + session_ttl_ms }

-- The part of `lookupSession` behind the search, for a session of the current generation.
unfoldable pub extend_session :
    Host → Text → ℕ → Files → List Entry → SessionRecord → Outcome (Option Lookup)
unfolding write_pruned set_session write_sessions
extend_session host digest now files sessions r =
    if is_fresh now r
    then write_pruned host files sessions
      >>= (λ next. ok (some (record { session = r; refresh_cookie = false }), next))
    else write_sessions host files (set_session digest (renewed now r) sessions)
      >>= (λ next. ok (some (record { session = renewed now r; refresh_cookie = true }), next))

unfoldable pub of_generation : ℕ → Option SessionRecord → Option SessionRecord
of_generation g none = none
of_generation g (some r) = if r.credential_generation == g then some r else none

unfoldable pub find_session : Host → Text → ℕ → ℕ → Files → List Entry → Outcome (Option Lookup)
unfolding get_session of_generation extend_session write_pruned
find_session host digest generation now files sessions =
    elim (of_generation generation (get_session digest sessions)) [
      | none ↦ write_pruned host files sessions >>= (λ next. ok (none, next))
      | some r ↦ extend_session host digest now files sessions r
    ]

unfoldable pub lookup_session : Host → Text → ℕ → ℕ → Files → Outcome (Option Lookup)
unfolding is_session_token prune_expired find_session
lookup_session host token generation now files =
    if is_session_token token && valid_generation generation
    then guard (is_epoch now) invalid_auth_epoch
      >> find_session host (host.sha256 token) generation now files
          (prune_expired now files.sessions)
    else ok (none, files)

unfoldable pub delete_session : Host → Text → Files → Result AuthError Files
unfolding is_session_token delete_session_of write_sessions
delete_session host token files =
    if is_session_token token && any (has_digest (host.sha256 token)) files.sessions
    then write_sessions host files (delete_session_of (host.sha256 token) files.sessions)
    else ok files

unfoldable pub verify_service_token : Host → Text → Files → Bool
unfolding is_service_token
verify_service_token host token files = elim files.service_token [
  | none ↦ false
  | some stored ↦ is_service_token token && text_eq stored.digest (host.sha256 token)
]

abbrev pub next_generation : Option ServiceToken → ℕ
next_generation none = 1
next_generation (some stored) = suc stored.generation

-- The record of a service token that is stored, and the files with it.
abbrev pub issued_token : Host → Text → ℕ → Files → ServiceToken
issued_token host token now files = record {
  digest = host.sha256 token;
  issued_at_epoch = now;
  generation = next_generation files.service_token;
}

abbrev pub with_token : Host → Text → ℕ → Files → Files
with_token host token now files = record files {
  service_token = some (issued_token host token now files);
}

unfoldable pub store_service_token : Host → Text → ℕ → Files → Outcome ServiceToken
unfolding is_service_token
store_service_token host token now files = do
  guard (is_service_token token) invalid_auth_token
  guard (is_epoch now) invalid_auth_epoch
  guard (not (host.write_fails (with_token host token now files))) write_failed
  ok (issued_token host token now files, with_token host token now files)
