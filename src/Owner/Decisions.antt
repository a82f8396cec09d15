-- ===== src/Owner/Decisions.antt =====
-- What a decision on an approval leads to, src/data/delivery-system/approvalQueue.ts.
use autopilot_beta.Prelude.{
  ℕ, suc, ◌≡◌, refl, sym, ap, ◌∙◌, ◌≢◌, inl, inr, Bool, true, false, Option, none, some, List, [],
  ◌∷◌, ◌++◌, Text, length, length-take-le, take, every, leb, Option-cases, &&_false, arith, ok, err,
  guard, bind-ok, guard-ok, ok-injective, err≢ok,
}
use autopilot_beta.Owner.Approval.{
  is_pending, Approval, invalid_approval_queue, already_decided, valid_text, or_null, max_records,
  names_valid, prompt_valid, counts_valid, decision_valid, is_valid, validate, Decision, approve,
  reject, kept_reason, decided, decide_approval, Files, Disk, read_approval_queue,
  write_approval_queue, fits, stored,
}

decide_approval-ok :
    (r : Approval) (d : Decision) (now : Text) (reason : Option Text) (r' : Approval)
    → decide_approval r d now reason ≡ ok r'
    → (is_pending r.status ≡ true) × (r' ≡ decided r d now reason)
unfolding decide_approval
decide_approval-ok r d now reason r' h =
    let (_, test, h') = bind-ok (guard (is_pending r.status) already_decided) _ h in
    (guard-ok (is_pending r.status) already_decided test, sym (ok-injective h'))

-- A decision is final: a record that has been decided is refused to every later decision.
pub decide_approval_final :
    (r : Approval) (d d' : Decision) (now now' : Text) (reason reason' : Option Text)
    (r' : Approval)
    → decide_approval r d now reason ≡ ok r'
    → decide_approval r' d' now' reason' ≡ err already_decided
unfolding decide_approval
decide_approval_final r approve d' now now' reason reason' r' h =
    rw (decide_approval-ok r approve now reason r' h).1 refl
decide_approval_final r reject d' now now' reason reason' r' h =
    rw (decide_approval-ok r reject now reason r' h).1 refl

valid_take : (n : ℕ) (t : Text) → t ≢ [] → valid_text (suc n) (take (suc n) t) ≡ true
unfolding valid_text
valid_take n [] h = absurd (h refl)
valid_take n (c ∷ t) h = ground (arith, length-take-le n t)

kept_reason-valid :
    (d : Decision) (reason : Option Text)
    → reason ≢ some []
    → or_null (valid_text 200) (kept_reason d reason) ≡ true
unfolding valid_text
kept_reason-valid approve reason h = refl
kept_reason-valid reject none h = refl
kept_reason-valid reject (some t) h = valid_take 199 t (λ e. h (ap some e))

-- A decision on a valid record gives a valid record, if the time is a text that fits its field and no
-- empty reason is given.
pub decide_approval-valid :
    (r : Approval) (d : Decision) (now : Text) (reason : Option Text) (r' : Approval)
    → is_valid r ≡ true
    → valid_text 32 now ≡ true
    → reason ≢ some []
    → decide_approval r d now reason ≡ ok r'
    → is_valid r' ≡ true
unfolding is_valid names_valid prompt_valid counts_valid decision_valid
decide_approval-valid r d now reason r' valid timely given h =
    rw (decide_approval-ok r d now reason r' h).1
      (ground (arith, kept_reason-valid d reason given, timely, valid))

every-middle :
    {A : Type 0} (p : A → Bool) (before after : List A) (x : A)
    → p x ≡ false
    → every p (before ++ x ∷ after) ≡ false
every-middle p [] after x h = rw h refl
every-middle p (y ∷ before) after x h = ground (arith, every-middle p before after x h)

empty_reason-decision :
    (r : Approval) (now : Text) → decision_valid (decided r reject now (some [])) ≡ false
unfolding decision_valid valid_text
empty_reason-decision r now = &&_false _

empty_reason-invalid :
    (r : Approval) (now : Text) → is_valid (decided r reject now (some [])) ≡ false
unfolding is_valid
empty_reason-invalid r now = rw (empty_reason-decision r now) (&&_false _)

validate-middle :
    (before after : List Approval) (r : Approval)
    → is_valid r ≡ false
    → validate (before ++ r ∷ after) ≡ err invalid_approval_queue
unfolding validate
validate-middle before after r h =
    rw
      (
        every-middle is_valid before after r h,
        &&_false (leb (length (before ++ r ∷ after)) max_records),
      )
      refl

-- An empty reason is kept as it is, and the queue then refuses the record: no queue that holds a
-- record rejected with the empty reason can be written.
pub decide_approval-empty_reason :
    (files : Files) (r r' : Approval) (now : Text) (before after : List Approval)
    → decide_approval r reject now (some []) ≡ ok r'
    → write_approval_queue files (before ++ r' ∷ after) ≡ err invalid_approval_queue
unfolding write_approval_queue
decide_approval-empty_reason files r r' now before after h =
    let same = (decide_approval-ok r reject now (some []) r' h).1 in
    let invalid = ap is_valid same ∙ empty_reason-invalid r now in
    rw (validate-middle before after r' invalid) refl

-- A queue that is written is read back as it was, if the parser returns what was serialised.
pub write_approval_queue-read :
    (files : Files) (records : List Approval) (disk : Disk)
    → files.parse (files.stringify records) ≡ some records
    → write_approval_queue files records ≡ ok disk
    → read_approval_queue files disk ≡ ok records
unfolding write_approval_queue read_approval_queue
write_approval_queue-read files records disk parses h =
    let (_, valid, h₁) = bind-ok (validate records) _ h in
    let (_, small, h₂) = bind-ok (fits files records) _ h₁ in
    elim (Option-cases (files.write_failure (files.stringify records))) [
      | inr (m, failed) ↦ absurd (err≢ok (rw (stored, failed) at h₂))
      | inl written ↦ rw (← ok-injective (rw (stored, written) at h₂), small, parses, valid) refl
    ]
