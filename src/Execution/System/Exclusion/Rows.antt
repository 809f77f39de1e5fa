-- ===== src/Execution/System/Exclusion/Rows.antt =====
-- What a step that is saved, and attempts that are closed, do to the number of open attempts.
use sana_v.Base.{
  ℕ, ◌≤◌, ◌≡◌, refl, sym, ap, ◌∙◌, subst, arith, Bool, Bool-cases, Option-cases, true, false, ◌==◌,
  ==_iff, Option, none, some, List, [], ◌∷◌, ◌++◌, inl, inr, if◌then◌else◌,
}
use sana_v.Shared.Time.{DateTime}
use sana_v.Orchestration.Status.{StepStatus}
use sana_v.Orchestration.Step.{SearchStep}
use sana_v.Orchestration.Attempt.{StepAttempt, is_complete}
use sana_v.Execution.Tables.{
  Tables, find_step, has_step_id, update_where, count_where, is_saved_step, step_values,
  completed_values,
}
use sana_v.Execution.Tables.Laws.{first_where-holds, first_where-append, first_where-update}
use sana_v.Execution.Recovery.{is_open_of, is_expired_row, expired_values, later_of, latest_lease}
use sana_v.Execution.Moves.{Saved}
use sana_v.Execution.System.Exclusion.{open_attempts, allowed_in, allowed, IsExclusive}

-- A step that was found is found after a step is saved, with the values saved or its own.
pub Saved-find :
    {t t' : Tables} {step r : SearchStep} {From To : StepStatus → Bool}
    (s : Saved t t' step From To) (k : ℕ)
    → find_step k t.steps ≡ some r
    → find_step k t'.steps ≡ some (if is_saved_step step r then step_values step r else r)
Saved-find {t} {t'} {step} {r} s k h =
    ap (find_step k) s.written
    ∙ first_where-update (has_step_id k) (is_saved_step step) (step_values step) r
        (t.steps ++ s.added) (λ x. refl) (first_where-append (has_step_id k) r t.steps s.added h)

pub Saved-own :
    {t t' : Tables} {step : SearchStep} {From To : StepStatus → Bool} (s : Saved t t' step From To)
    → find_step step.id t'.steps ≡ some (step_values step s.row)
Saved-own {t} {t'} {step} s =
    let same : is_saved_step step s.row ≡ true =
      rw (first_where-holds (has_step_id step.id) s.row t.steps s.here)
        ((==_iff _ _).1 (sym s.lock)) in
    Saved-find s step.id s.here ∙ ap (λ b. some (if b then step_values step s.row else s.row)) same

pub Saved-other :
    {t t' : Tables} {step r : SearchStep} {From To : StepStatus → Bool}
    (s : Saved t t' step From To) (k : ℕ)
    → (step.id == k) ≡ false
    → find_step k t.steps ≡ some r
    → find_step k t'.steps ≡ some r
Saved-other {t} {t'} {step} {r} s k other h =
    let here = first_where-holds (has_step_id k) r t.steps h in
    let miss : is_saved_step step r ≡ false = ground arith in
    Saved-find s k h ∙ ap (λ b. some (if b then step_values step r else r)) miss

-- A step that is saved keeps the invariant, if no other step gets an open attempt, and it has
-- itself no more than it may.
pub Saved-IsExclusive :
    {t t' : Tables} {step : SearchStep} {From To : StepStatus → Bool}
    → Saved t t' step From To
    → ((k : ℕ) → (step.id == k) ≡ false → open_attempts k t' ≤ open_attempts k t)
    → open_attempts step.id t' ≤ allowed_in step.status
    → IsExclusive t
    → IsExclusive t'
Saved-IsExclusive {t} {t'} {step} s others own inv k = elim (Bool-cases (step.id == k)) [
  | inl same ↦
      subst (λ i. open_attempts i t' ≤ allowed (find_step i t'.steps)) ((==_iff _ _).0 same)
        (subst (λ o. open_attempts step.id t' ≤ allowed o) (sym (Saved-own s)) own)
  | inr other ↦ elim (Option-cases (find_step k t.steps)) [
    | inl absent ↦
        let before : open_attempts k t ≤ 0 =
          subst (λ o. open_attempts k t ≤ allowed o) absent (inv k) in
        omega (arith, others k other, before)
    | inr (r, here) ↦
        let before : open_attempts k t ≤ allowed_in r.status =
          subst (λ o. open_attempts k t ≤ allowed o) here (inv k) in
        subst (λ o. open_attempts k t' ≤ allowed o) (sym (Saved-other s k other here))
          (omega (arith, others k other, before))
  ]
]

pub own-before :
    {t t' : Tables} {step : SearchStep} {From To : StepStatus → Bool} (s : Saved t t' step From To)
    → IsExclusive t
    → open_attempts step.id t ≤ allowed_in s.row.status
own-before {t} {t'} {step} s inv =
    subst (λ o. open_attempts step.id t ≤ allowed o) s.here (inv step.id)

-- There is no lease, or it has run out.
abbrev pub IsOver : DateTime → Option DateTime → Type 0
IsOver now none = Unit {0}
IsOver now (some lease) = lease.instant ≤ now.instant

pub later-IsOver :
    (now a : DateTime) (o : Option DateTime)
    → IsOver now (some (later_of a o))
    → IsOver now (some a) × IsOver now o
later-IsOver now a none h = (h, tt)
later-IsOver now a (some b) h = ground arith

-- If the latest lease of the open attempts of a step is over, then none of them stays open.
pub expire_all :
    (step_id : ℕ) (now : DateTime) (rows : List StepAttempt)
    → IsOver now (latest_lease step_id rows)
    → count_where
        (is_open_of step_id)
        (update_where (is_expired_row step_id now) (expired_values now) rows)
      ≡ 0
expire_all step_id now [] h = refl
expire_all step_id now (a ∷ rows) h = elim (Bool-cases (is_open_of step_id a)) [
  | inl active ↦
      let over : IsOver now (some (later_of a.leased_until (latest_lease step_id rows))) =
        rw active at h in
      let (past, rest) = later-IsOver now a.leased_until (latest_lease step_id rows) over in
      let ih = expire_all step_id now rows rest in ground (arith, ih)
  | inr closed ↦
      let rest : IsOver now (latest_lease step_id rows) = rw closed at h in
      let ih = expire_all step_id now rows rest in ground (arith, ih)
]

-- An open attempt that is written was open before.
pub completed-closed :
    (k : ℕ) (a x : StepAttempt)
    → is_complete a ≡ true
    → is_open_of k (completed_values a x) ≡ true
    → is_open_of k x ≡ true
completed-closed k a x h e = ground arith

pub expired-closed :
    (k : ℕ) (now : DateTime) (x : StepAttempt)
    → is_open_of k (expired_values now x) ≡ true
    → is_open_of k x ≡ true
expired-closed k now x e = ground arith
