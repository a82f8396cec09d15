-- ===== src/Auth/Alive.antt =====
-- A session stays while it has not expired, nobody signs it out, and there is room for the sessions that
-- are opened beside it, src/data/delivery-system/authSessionRegistry.ts.
use autopilot_beta.Prelude.{
  ℕ, suc, ◌≤◌, ◌<◌, ◌≡◌, refl, sym, ap, inl, inr, true, false, not, some, List, [], ◌∷◌, Text,
  text_eq, text_eq_refl, includes, filter, length, ltb, lt→ltb, Bool-cases, none≢some,
  some-injective, arith, subst,
}
use autopilot_beta.Dict.{text_eq_other}
use autopilot_beta.Auth.Registry.{
  max_auth_sessions, SessionRecord, Entry, Host, prune_expired, has_digest, get_session,
  set_session, delete_session_of, excess, make_room,
}

pub get_session-prune :
    (now : ℕ) (d : Text) (es : List Entry) (r : SessionRecord)
    → get_session d es ≡ some r
    → now < r.expires_at_epoch
    → get_session d (prune_expired now es) ≡ some r
unfolding get_session prune_expired
get_session-prune now d [] r h alive = absurd (none≢some h)
get_session-prune now d (e ∷ es) r h alive = elim (Bool-cases (has_digest d e)) [
  | inl there ↦
      let same : e.1 ≡ r = some-injective (rw (get_session, there) at h) in
      let kept : ltb now e.1.expires_at_epoch ≡ true =
        subst (λ (x : SessionRecord). ltb now x.expires_at_epoch ≡ true) (sym same)
          (lt→ltb now r.expires_at_epoch alive) in
      rw (kept, there) (ap some same)
  | inr miss ↦ elim (Bool-cases (ltb now e.1.expires_at_epoch)) [
    | inl kept ↦ rw (kept, miss) (get_session-prune now d es r (rw (get_session, miss) at h) alive)
    | inr dropped ↦ rw dropped (get_session-prune now d es r (rw (get_session, miss) at h) alive)
  ]
]

pub get_session-set_session :
    (d : Text) (r : SessionRecord) (es : List Entry) → get_session d (set_session d r es) ≡ some r
unfolding get_session set_session
get_session-set_session d r [] = rw (text_eq_refl d) refl
get_session-set_session d r (e ∷ es) = elim (Bool-cases (has_digest d e)) [
  | inl there ↦ rw (there, text_eq_refl d) refl
  | inr miss ↦ rw (miss, miss) (get_session-set_session d r es)
]

pub get_session-set_other :
    (d d' : Text) (r : SessionRecord) (es : List Entry)
    → text_eq d' d ≡ false
    → get_session d (set_session d' r es) ≡ get_session d es
unfolding get_session set_session
get_session-set_other d d' r [] other = rw other refl
get_session-set_other d d' r (e ∷ es) other = elim (Bool-cases (has_digest d' e)) [
  | inl same ↦ rw (same, other, text_eq_other e.0 d' d same other) refl
  | inr different ↦ elim (Bool-cases (has_digest d e)) [
    | inl there ↦ rw (different, there) refl
    | inr miss ↦ rw (different, miss) (get_session-set_other d d' r es other)
  ]
]

pub get_session-delete_other :
    (d d' : Text) (es : List Entry)
    → text_eq d' d ≡ false
    → get_session d (delete_session_of d' es) ≡ get_session d es
unfolding get_session delete_session_of
get_session-delete_other d d' [] other = refl
get_session-delete_other d d' (e ∷ es) other = elim (Bool-cases (has_digest d' e)) [
  | inl same ↦ rw (same, text_eq_other e.0 d' d same other) (get_session-delete_other d d' es other)
  | inr different ↦ elim (Bool-cases (has_digest d e)) [
    | inl there ↦ rw (different, there) refl
    | inr miss ↦ rw (different, miss) (get_session-delete_other d d' es other)
  ]
]

-- A new session is one more at most, a renewed one none.
pub length-set_session :
    (d : Text) (r : SessionRecord) (es : List Entry) → length (set_session d r es) ≤ suc (length es)
unfolding set_session
length-set_session d r [] = omega arith
length-set_session d r (e ∷ es) = ground (arith, length-set_session d r es)

pub length-set_found :
    (d : Text) (r r' : SessionRecord) (es : List Entry)
    → get_session d es ≡ some r
    → length (set_session d r' es) ≡ length es
unfolding get_session set_session
length-set_found d r r' [] h = absurd (none≢some h)
length-set_found d r r' (e ∷ es) h = elim (Bool-cases (has_digest d e)) [
  | inl there ↦ rw there refl
  | inr miss ↦ rw miss (ap suc (length-set_found d r r' es (rw (get_session, miss) at h)))
]

filter-includes_none : (es : List Entry) → filter (λ (e : Entry). not (includes e.0 [])) es ≡ es
unfolding includes
filter-includes_none [] = refl
filter-includes_none (e ∷ es) = ap (λ x. e ∷ x) (filter-includes_none es)

-- Below the cap no session makes room.
pub make_room_below :
    (host : Host) (es : List Entry) → length es < max_auth_sessions → make_room host es ≡ es
unfolding make_room
make_room_below host es room =
    let none_over : excess es ≡ 0 = omega arith in rw none_over (filter-includes_none es)
