-- ===== src/Auth/Lasting.antt =====
-- A session lasts through the calls of others, src/data/delivery-system/authSessionRegistry.ts.
use autopilot_beta.Prelude.{
  ℕ, suc, ◌+◌, ◌≤◌, ◌<◌, ◌≡◌, sym, ap, ◌∙◌, inl, inr, false, some, List, [], ◌∷◌, Text, text_eq,
  text_eq→≡, length, Bool-cases, All, some-injective, length-filter-le, arith, subst,
}
use autopilot_beta.Auth.Registry.{
  max_auth_sessions, SessionRecord, Entry, Files, Host, prune_expired, get_session, set_session,
  delete_session_of, make_room, is_fresh, renewed,
}
use autopilot_beta.Auth.Absent.{text_eq-different}
use autopilot_beta.Auth.Alive.{
  get_session-prune, get_session-set_session, get_session-set_other, get_session-delete_other,
  length-set_session, length-set_found, make_room_below,
}
use autopilot_beta.Auth.History.{
  Call, signing_in, looking_up, signing_out, storing, perform, perform_all, lookup_session-keeps,
  create_session-keeps, delete_session-keeps, store_service_token-keeps,
}

-- The call does not sign in or out with a token of this digest, and its time is before `e`.
abbrev pub Spares : Host → Text → ℕ → Call → Type 0
Spares host d e (signing_in token g now) = ¬ (host.sha256 token ≡ d) × (now < e)
Spares host d e (looking_up token g now) = now < e
Spares host d e (signing_out token) = ¬ (host.sha256 token ≡ d)
Spares host d e (storing token now) = Unit

-- How many of the calls are sign-ins.
abbrev pub sign_ins : List Call → ℕ
sign_ins [] = 0
sign_ins (signing_in token g now ∷ cs) = suc (sign_ins cs)
sign_ins (looking_up token g now ∷ cs) = sign_ins cs
sign_ins (signing_out token ∷ cs) = sign_ins cs
sign_ins (storing token now ∷ cs) = sign_ins cs

-- A session of the generation `g` stands under the digest, does not expire before `e`, and there is room
-- for `n` more, if any.
pub record IsAlive (d : Text) (g e n : ℕ) (es : List Entry) : Type 0 where
  pub session : SessionRecord
  pub stands : get_session d es ≡ some session
  pub lasts : e ≤ session.expires_at_epoch
  pub of_generation : session.credential_generation ≡ g
  pub room : 0 < n → length es + n ≤ max_auth_sessions

prune_expired-IsAlive :
    (d : Text) (g e n now : ℕ) (es : List Entry)
    → now < e
    → IsAlive d g e n es
    → IsAlive d g e n (prune_expired now es)
unfolding prune_expired
prune_expired-IsAlive d g e n now es early h =
    let shorter : length (prune_expired now es) ≤ length es = length-filter-le _ es in
    record {
      session = h.session;
      stands = get_session-prune now d es h.session h.stands (omega (arith, h.lasts, early));
      lasts = h.lasts;
      of_generation = h.of_generation;
      room = λ more. omega (arith, shorter, h.room more);
    }

-- A sign-in below the cap evicts nobody.
create_session-IsAlive :
    (host : Host) (d d' : Text) (g e n : ℕ) (c : SessionRecord) (es : List Entry)
    → text_eq d' d ≡ false
    → IsAlive d g e (suc n) es
    → IsAlive d g e n (set_session d' c (make_room host es))
create_session-IsAlive host d d' g e n c es other h =
    let below = make_room_below host es (omega (arith, h.room (omega arith))) in
    subst (λ x. IsAlive d g e n (set_session d' c x)) (sym below)
      (record {
        session = h.session;
        stands = get_session-set_other d d' c es other ∙ h.stands;
        lasts = h.lasts;
        of_generation = h.of_generation;
        room = λ more. omega (arith, length-set_session d' c es, h.room (omega arith));
      })

-- A renewal never brings the end nearer.
renewed-lasts :
    (now e : ℕ) (r : SessionRecord)
    → is_fresh now r ≡ false
    → e ≤ r.expires_at_epoch
    → e ≤ (renewed now r).expires_at_epoch
renewed-lasts now e r stale le = ground arith

renewed-IsAlive :
    (d d' : Text) (g e n now : ℕ) (r : SessionRecord) (es : List Entry)
    → get_session d' es ≡ some r
    → is_fresh now r ≡ false
    → IsAlive d g e n es
    → IsAlive d g e n (set_session d' (renewed now r) es)
renewed-IsAlive d d' g e n now r es found stale h = elim (Bool-cases (text_eq d' d)) [
  | inr other ↦ record {
    session = h.session;
    stands = get_session-set_other d d' (renewed now r) es other ∙ h.stands;
    lasts = h.lasts;
    of_generation = h.of_generation;
    room = λ more. omega (arith, length-set_found d' r (renewed now r) es found, h.room more);
  }
  | inl same ↦
      let own : get_session d es ≡ some r =
        ap (λ x. get_session x es) (sym (text_eq→≡ d' d same)) ∙ found in
      let one : h.session ≡ r = some-injective (sym h.stands ∙ own) in
      record {
        session = renewed now r;
        stands =
            ap (λ x. get_session d (set_session x (renewed now r) es)) (text_eq→≡ d' d same)
            ∙ get_session-set_session d (renewed now r) es;
        lasts =
            renewed-lasts now e r stale
              (subst (λ (x : SessionRecord). e ≤ x.expires_at_epoch) one h.lasts);
        of_generation =
            ap (λ (x : SessionRecord). x.credential_generation) (sym one) ∙ h.of_generation;
        room = λ more. omega (arith, length-set_found d' r (renewed now r) es found, h.room more);
      }
]

delete_session-IsAlive :
    (d d' : Text) (g e n : ℕ) (es : List Entry)
    → text_eq d' d ≡ false
    → IsAlive d g e n es
    → IsAlive d g e n (delete_session_of d' es)
unfolding delete_session_of
delete_session-IsAlive d d' g e n es other h =
    let shorter : length (delete_session_of d' es) ≤ length es = length-filter-le _ es in
    record {
      session = h.session;
      stands = get_session-delete_other d d' es other ∙ h.stands;
      lasts = h.lasts;
      of_generation = h.of_generation;
      room = λ more. omega (arith, shorter, h.room more);
    }

fewer-IsAlive :
    (d : Text) (g e n : ℕ) (es : List Entry) → IsAlive d g e (suc n) es → IsAlive d g e n es
fewer-IsAlive d g e n es h = record {
  session = h.session;
  stands = h.stands;
  lasts = h.lasts;
  of_generation = h.of_generation;
  room = λ more. omega (arith, h.room (omega arith));
}

perform-IsAlive :
    (host : Host) (d : Text) (g e : ℕ) (c : Call) (cs : List Call) (files : Files)
    → Spares host d e c
    → IsAlive d g e (sign_ins (c ∷ cs)) files.sessions
    → IsAlive d g e (sign_ins cs) (perform host c files).sessions
perform-IsAlive host d g e (signing_in token g' now) cs files (other, early) h =
    create_session-keeps (IsAlive d g e (sign_ins cs)) host files
      (fewer-IsAlive d g e (sign_ins cs) files.sessions h) token g' now
      (λ c.
        create_session-IsAlive host d (host.sha256 token) g e (sign_ins cs) c
          (prune_expired now files.sessions) (text_eq-different (host.sha256 token) d other)
          (prune_expired-IsAlive d g e (suc (sign_ins cs)) now files.sessions early h))
perform-IsAlive host d g e (looking_up token g' now) cs files early h =
    let pruned = prune_expired-IsAlive d g e (sign_ins cs) now files.sessions early h in
    lookup_session-keeps (IsAlive d g e (sign_ins cs)) host files h token g' now pruned
      (λ r found stale.
        renewed-IsAlive d (host.sha256 token) g e (sign_ins cs) now r
          (prune_expired now files.sessions) found stale pruned)
perform-IsAlive host d g e (signing_out token) cs files other h =
    delete_session-keeps (IsAlive d g e (sign_ins cs)) host files h token (
      delete_session-IsAlive d (host.sha256 token) g e (sign_ins cs) files.sessions
        (text_eq-different (host.sha256 token) d other) h)
perform-IsAlive host d g e (storing token now) cs files spares h =
    store_service_token-keeps (IsAlive d g e (sign_ins cs)) host files h token now

pub perform_all-IsAlive :
    (host : Host) (d : Text) (g e : ℕ) (cs : List Call) (files : Files)
    → All (Spares host d e) cs
    → IsAlive d g e (sign_ins cs) files.sessions
    → IsAlive d g e 0 (perform_all host cs files).sessions
unfolding perform_all
perform_all-IsAlive host d g e [] files spare h = h
perform_all-IsAlive host d g e (c ∷ cs) files (one, rest) h =
    perform_all-IsAlive host d g e cs (perform host c files) rest
      (perform-IsAlive host d g e c cs files one h)
