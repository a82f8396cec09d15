-- ===== src/Auth/Absent.antt =====
-- A session that is not among the records stays away until somebody signs in with its token,
-- src/data/delivery-system/authSessionRegistry.ts.
use autopilot_beta.Prelude.{
  ◌≡◌, refl, sym, ◌∙◌, inl, inr, false, none, some, List, [], ◌∷◌, Text, any, text_eq, text_eq→≡,
  Bool-cases, All, any-filter, none≢some, false≢true,
}
use autopilot_beta.Auth.Registry.{
  SessionRecord, Entry, Files, Host, prune_expired, has_digest, get_session, set_session,
  delete_session_of, make_room, renewed,
}
use autopilot_beta.Auth.History.{
  Call, signing_in, looking_up, signing_out, storing, perform, perform_all, lookup_session-keeps,
  create_session-keeps, delete_session-keeps, store_service_token-keeps,
}

-- The call is no sign-in with a token of this digest.
abbrev pub IsNoSignIn : Host → Text → Call → Type 0
IsNoSignIn host d (signing_in token g now) = ¬ (host.sha256 token ≡ d)
IsNoSignIn host d (looking_up token g now) = Unit
IsNoSignIn host d (signing_out token) = Unit
IsNoSignIn host d (storing token now) = Unit

pub text_eq-different : (a b : Text) → ¬ (a ≡ b) → text_eq a b ≡ false
text_eq-different a b different = elim (Bool-cases (text_eq a b)) [
  | inl same ↦ absurd (different (text_eq→≡ a b same))
  | inr other ↦ other
]

any-set_session :
    (d d' : Text) (r : SessionRecord) (es : List Entry)
    → text_eq d' d ≡ false
    → any (has_digest d) es ≡ false
    → any (has_digest d) (set_session d' r es) ≡ false
unfolding set_session
any-set_session d d' r [] other h = rw other refl
any-set_session d d' r (e ∷ es) other h = elim (Bool-cases (has_digest d e)) [
  | inl there ↦ absurd (false≢true (sym h ∙ rw there refl))
  | inr miss ↦ elim (Bool-cases (has_digest d' e)) [
    | inl same ↦ rw (same, other) (rw miss at h)
    | inr different ↦ rw (different, miss) (any-set_session d d' r es other (rw miss at h))
  ]
]

get_session-absent :
    (d : Text) (es : List Entry) → any (has_digest d) es ≡ false → get_session d es ≡ none
unfolding get_session
get_session-absent d [] h = refl
get_session-absent d (e ∷ es) h = elim (Bool-cases (has_digest d e)) [
  | inl there ↦ absurd (false≢true (sym h ∙ rw there refl))
  | inr miss ↦ rw miss (get_session-absent d es (rw miss at h))
]

-- What a lookup of any token renews was there, so it is not the session that is away.
any-renewed :
    (d d' : Text) (r r' : SessionRecord) (es : List Entry)
    → any (has_digest d) es ≡ false
    → get_session d' es ≡ some r
    → any (has_digest d) (set_session d' r' es) ≡ false
any-renewed d d' r r' es h found = elim (Bool-cases (text_eq d' d)) [
  | inr other ↦ any-set_session d d' r' es other h
  | inl same ↦
      absurd (none≢some (sym (get_session-absent d es h) ∙ rw (text_eq→≡ d' d same) at found))
]

perform-absent :
    (host : Host) (d : Text) (c : Call) (files : Files)
    → IsNoSignIn host d c
    → any (has_digest d) files.sessions ≡ false
    → any (has_digest d) (perform host c files).sessions ≡ false
unfolding prune_expired make_room delete_session_of
perform-absent host d (signing_in token g now) files other h =
    create_session-keeps (λ es. any (has_digest d) es ≡ false) host files h token g now
      (λ c.
        any-set_session d (host.sha256 token) c (make_room host (prune_expired now files.sessions))
          (text_eq-different (host.sha256 token) d other)
          (any-filter (has_digest d) _ _ (any-filter (has_digest d) _ files.sessions h)))
perform-absent host d (looking_up token g now) files other h =
    let pruned : any (has_digest d) (prune_expired now files.sessions) ≡ false =
      any-filter (has_digest d) _ files.sessions h in
    lookup_session-keeps (λ es. any (has_digest d) es ≡ false) host files h token g now pruned
      (λ r found stale.
        any-renewed d (host.sha256 token) r (renewed now r) (prune_expired now files.sessions)
          pruned found)
perform-absent host d (signing_out token) files other h =
    delete_session-keeps (λ es. any (has_digest d) es ≡ false) host files h token
      (any-filter (has_digest d) _ files.sessions h)
perform-absent host d (storing token now) files other h =
    store_service_token-keeps (λ es. any (has_digest d) es ≡ false) host files h token now

pub perform_all-absent :
    (host : Host) (d : Text) (cs : List Call) (files : Files)
    → All (IsNoSignIn host d) cs
    → any (has_digest d) files.sessions ≡ false
    → any (has_digest d) (perform_all host cs files).sessions ≡ false
unfolding perform_all
perform_all-absent host d [] files none_of h = h
perform_all-absent host d (c ∷ cs) files (one, rest) h =
    perform_all-absent host d cs (perform host c files) rest (perform-absent host d c files one h)
