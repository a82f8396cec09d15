-- ===== src/Auth/Store.antt =====
-- Sessions by the digest of their token: what is found after a session is deleted.
use autopilot_beta.Prelude.{
  ℕ, ◌≡◌, refl, inl, inr, true, false, none, some, List, [], ◌∷◌, Text, any, find, ltb, Bool-cases,
  arith, All-filter_test, find-All, some-injective, none≢some, Option-cases, subst,
}
use autopilot_beta.Auth.Registry.{
  SessionRecord, Entry, prune_expired, has_digest, get_session, delete_session_of,
}

pub any-delete : (d : Text) (es : List Entry) → any (has_digest d) (delete_session_of d es) ≡ false
unfolding delete_session_of
any-delete d [] = refl
any-delete d (e ∷ es) = ground (arith, any-delete d es)

pub get_session-none :
    (now : ℕ) (d : Text) (es : List Entry)
    → any (has_digest d) es ≡ false
    → get_session d (prune_expired now es) ≡ none
unfolding get_session prune_expired
get_session-none now d [] h = refl
get_session-none now d (e ∷ es) h = elim (Bool-cases (has_digest d e)) [
  | inl same ↦ ground (arith, same)
  | inr different ↦ elim (Bool-cases (ltb now e.1.expires_at_epoch)) [
    | inl kept ↦ rw (kept, different) (get_session-none now d es (rw different at h))
    | inr dropped ↦ rw dropped (get_session-none now d es (rw different at h))
  ]
]

-- What is found among the sessions that are left has not expired.
pub get_session-unexpired :
    (now : ℕ) (d : Text) (es : List Entry) (r : SessionRecord)
    → get_session d (prune_expired now es) ≡ some r
    → ltb now r.expires_at_epoch ≡ true
unfolding get_session prune_expired
get_session-unexpired now d es r h =
    elim (Option-cases (find (has_digest d) (prune_expired now es))) [
      | inl missing ↦ absurd (none≢some (rw (get_session, missing) at h))
      | inr (e, found) ↦
          let same : e.1 ≡ r = some-injective (rw (get_session, found) at h) in
          subst (λ (x : SessionRecord). ltb now x.expires_at_epoch ≡ true) same
            (find-All _ (has_digest d) (prune_expired now es)
              (All-filter_test (λ (x : Entry). ltb now x.1.expires_at_epoch) es) found).0
    ]
