-- ===== src/Research/Urgency.antt =====
-- When the policy upgrades a FAST run.
use sana_v.Base.{
  ℕ, ◌≡◌, refl, sym, ap, ◌∙◌, String, arith, Bool, true, false, not, ◌&&◌, ◌||◌, List, [], ◌∷◌,
  ◌++◌, any,
}
use sana_v.Shared.Errors.{ok, err, bind-ok, ok-injective, ◌>>=◌}
use sana_v.Evidence.Values.{FactRequirement, is_stable, is_high}
use sana_v.Evidence.Coverage.{FactCoverage, is_empty_list}
use sana_v.Research.Upgrade.{
  FastUpgradeDecision, NormalizedIntent, UpgradeInput, Progress, note_fact, assessed, survey,
  unique, evaluate_upgrade, is_partial, is_uncovered, is_verified_status, gap_reasons,
}

-- What is urgent about a fact with this status: its evidence is in conflict, or it has none and may
-- have changed, or it must be VERIFIED and is not.
pub urges : Bool → FactRequirement → FactCoverage → Bool
urges complete fact status =
    is_partial status
    || (is_uncovered status && not (is_stable fact.freshness))
    || ((is_high fact.consequence || complete) && not (is_verified_status status))

pub is_urgent : UpgradeInput → Bool → FactRequirement → Bool
unfolding urges
is_urgent i complete fact =
    fact.required
    && elim (assessed i fact) [ ok (id, status) ↦ urges complete fact status | err _ ↦ false ]

is_empty-append :
    (xs ys : List String) → is_empty_list (xs ++ ys) ≡ (is_empty_list xs && is_empty_list ys)
is_empty-append [] ys = refl
is_empty-append (x ∷ xs) ys = refl

noted :
    (complete : Bool) (fact : FactRequirement) (id : ℕ) (status : FactCoverage) (p : Progress)
    → not (is_empty_list (note_fact complete fact id status p).reasons)
      ≡ (not (is_empty_list p.reasons) || urges complete fact status)
unfolding urges
noted complete fact id status p =
    ground (arith, is_empty-append p.reasons (gap_reasons complete fact status))

or_false : (b : Bool) → b ≡ (b || false)
or_false b = ground arith

or_assoc : (a b c : Bool) → ((a || b) || c) ≡ (a || (b || c))
or_assoc a b c = ground arith

surveyed :
    (i : UpgradeInput) (complete : Bool) (facts : List FactRequirement) (p : Progress)
    {q : Progress}
    → survey i complete facts p ≡ ok q
    → not (is_empty_list q.reasons)
      ≡ (not (is_empty_list p.reasons) || any (is_urgent i complete) facts)
unfolding survey is_urgent
surveyed i complete [] p {q = q} h =
    rw (sym (ok-injective h)) (or_false (not (is_empty_list p.reasons)))
surveyed i complete (fact ∷ rest) p {q = q} h =
    go fact.required refl h (λ r k. surveyed i complete rest r k)
  where
    go :
        (b : Bool)
        → fact.required ≡ b
        → (elim b [
          | false ↦ survey i complete rest p
          | true ↦ assessed i fact >>= λ (id, status).
              survey i complete rest (note_fact complete fact id status p)
        ])
          ≡ ok q
        → ((r : Progress)
            → survey i complete rest r ≡ ok q
            → not (is_empty_list q.reasons)
              ≡ (not (is_empty_list r.reasons) || any (is_urgent i complete) rest))
        → not (is_empty_list q.reasons) ≡ (
            not (is_empty_list p.reasons)
            || (is_urgent i complete fact || any (is_urgent i complete) rest))
    go false optional h later = rw optional (later p h)
    go true required h later =
        let read = bind-ok (assessed i fact) _ h in
        let (id, status) = read.0 in
        later (note_fact complete fact id status p) read.2
        ∙ (ap (λ b. b || any (is_urgent i complete) rest) (noted complete fact id status p)
            ∙ rw (required, read.1)
                (or_assoc (not (is_empty_list p.reasons)) (urges complete fact status)
                  (any (is_urgent i complete) rest)))

is_empty-unique : (rs : List String) → is_empty_list (unique rs) ≡ is_empty_list rs
is_empty-unique [] = refl
is_empty-unique (r ∷ rs) = refl

-- Where the policy returns, it upgrades the run exactly if some required fact of the intent is
-- urgent, by the status of its assessment, or OPEN where it has none.
pub evaluate_upgrades :
    (i : UpgradeInput) (intent : NormalizedIntent) {d : FastUpgradeDecision}
    → evaluate_upgrade i intent ≡ ok d
    → d.should_upgrade ≡ any (is_urgent i intent.requires_complete_sources) intent.facts
unfolding evaluate_upgrade
evaluate_upgrades i intent h =
    let complete = intent.requires_complete_sources in
    let start : Progress = record { gaps = []; reasons = []; statuses = [] } in
    let seen = bind-ok (survey i complete intent.facts start) _ h in
    ap (λ (d : FastUpgradeDecision). d.should_upgrade) (sym (ok-injective seen.2))
    ∙ (ap not (is_empty-unique seen.0.reasons) ∙ surveyed i complete intent.facts start seen.1)
