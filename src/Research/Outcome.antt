-- ===== src/Research/Outcome.antt =====
-- What the workflow does with a run.
use sana_v.Base.{
  ◌+◌, ◌≡◌, ◌↔◌, refl, sym, ap, ◌∙◌, subst, arith, Bool, Bool-cases, true, false, not, ◌&&◌, ◌||◌,
  List, [], ◌∷◌, any, All, ◌≤ℤ◌, ◌<◌, inl, inr, str_eq, is_blank, leb_ℤ, pos, ◌+ℤ◌,
}
use sana_v.Shared.Errors.{ok, bind-ok, ok-injective, check-rest}
use sana_v.Shared.Time.{DateTime}
use sana_v.Shared.Method.{lift-rest}
use sana_v.Orchestration.Status.{SearchMode, RunStatus, AnswerQuality}
use sana_v.Orchestration.Values.{
  RoutingDecision, BudgetSnapshot, BudgetUsage, new_routing, new_usage, add,
}
use sana_v.Orchestration.Run.{
  SearchRun, is_fast, is_terminal, succeed, record_usage, decreases, upgrade_to_research,
}
use sana_v.Orchestration.Policy.{SearchPolicy, snapshot, validate}
use sana_v.Orchestration.Policy.Usage.{validate_iff}
use sana_v.Evidence.Coverage.{FactCoverage, is_empty_list}
use sana_v.Research.Upgrade.{FastUpgradeDecision, is_verified_status}
use sana_v.Research.Workflow.{
  upgrade_fast_run, prepare_upgrade, expanded_usage, upgrade_routing, record_expansion, one_round,
  outcome,
}

status_verified : (s : FactCoverage) → is_verified_status s ≡ true → s ≡ FactCoverage.verified
status_verified s h = ground arith

every_verified_iff :
    (statuses : List FactCoverage)
    → (any (λ s. not (is_verified_status s)) statuses ≡ false)
      ↔ All (λ s. s ≡ FactCoverage.verified) statuses
every_verified_iff [] = (λ h. tt, λ h. refl)
every_verified_iff (s ∷ rest) =
    let (down, up) = every_verified_iff rest in
    (
      λ h. (status_verified s (head_of h), down (tail_of h)),
      λ (head, tail). rw (head, up tail) refl,
    )
  where
    head_of : any (λ s. not (is_verified_status s)) (s ∷ rest) ≡ false → is_verified_status s ≡ true
    head_of h = ground arith

    tail_of :
        any (λ s. not (is_verified_status s)) (s ∷ rest) ≡ false
        → any (λ s. not (is_verified_status s)) rest ≡ false
    tail_of h = ground arith

-- The outcome of a search is COMPLETE exactly if there is a required fact and all are VERIFIED.
pub outcome-complete_iff :
    (statuses : List FactCoverage) (low_gain late : Bool)
    → ((outcome statuses low_gain late).quality ≡ AnswerQuality.complete)
      ↔ ((is_empty_list statuses ≡ false) × All (λ s. s ≡ FactCoverage.verified) statuses)
unfolding outcome
outcome-complete_iff statuses low_gain late =
    let (down, up) = every_verified_iff statuses in
    (
      λ h. let (some_fact, all) = both h in (some_fact, down all),
      λ (some_fact, all). rw (some_fact, up all) refl,
    )
  where
    both :
        (outcome statuses low_gain late).quality ≡ AnswerQuality.complete
        → (is_empty_list statuses ≡ false)
          × (any (λ s. not (is_verified_status s)) statuses ≡ false)
    both h = ground arith

-- Whatever the outcome is, a RUNNING run can succeed with it.
pub outcome_succeeds :
    (statuses : List FactCoverage) (low_gain late : Bool) (at : DateTime) (r : SearchRun)
    → r.status ≡ RunStatus.running
    → at.is_aware ≡ true
    → let o = outcome statuses low_gain late in (succeed o.quality o.reason at r).0 ≡ ok tt
unfolding outcome succeed
outcome_succeeds statuses low_gain late at r running aware = ground arith

routing_same : (q : RoutingDecision) {q' : RoutingDecision} → new_routing q ≡ ok q' → q ≡ q'
unfolding new_routing
routing_same q h =
    let version = check-rest (is_blank q.policy_version) _ _ h in
    let sure =
      check-rest (not (leb_ℤ (pos 0) q.confidence && leb_ℤ q.confidence (pos 1_000_000))) _ _
        version.1 in
    ok-injective (check-rest (any is_blank q.reason_codes) _ _ sure.1).1

prepared :
    (d : FastUpgradeDecision) (p : SearchPolicy) (r : SearchRun)
    {x : RoutingDecision × BudgetSnapshot}
    → prepare_upgrade d p r ≡ ok x
    → (x.0.mode ≡ SearchMode.research)
      × (snapshot p SearchMode.research r.budget.created_at ≡ ok x.1)
      × (validate x.1 r.usage ≡ ok tt)
unfolding prepare_upgrade
prepared d p r h =
    let worth = check-rest (not d.should_upgrade) _ _ h in
    let version = check-rest (not (str_eq p.version r.routing.policy_version)) _ _ worth.1 in
    let routing = bind-ok (new_routing (upgrade_routing r d p)) _ version.1 in
    let budget = bind-ok (snapshot p SearchMode.research r.budget.created_at) _ routing.2 in
    let valid = bind-ok (validate budget.0 r.usage) _ budget.2 in
    let out = ok-injective valid.2 in
    (
      ap (λ (x : RoutingDecision × BudgetSnapshot). x.0.mode) (sym out)
          ∙ ap (λ (q : RoutingDecision). q.mode)
              (sym (routing_same (upgrade_routing r d p) routing.1)),
      budget.1 ∙ ap ok (ap (λ (x : RoutingDecision × BudgetSnapshot). x.1) out),
      subst (λ b. validate b r.usage ≡ ok tt)
          (ap (λ (x : RoutingDecision × BudgetSnapshot). x.1) out) valid.1,
    )

upgraded :
    (routing : RoutingDecision) (budget : BudgetSnapshot) (r : SearchRun)
    → (upgrade_to_research routing budget r).0 ≡ ok tt
    → (is_fast r.routing.mode ≡ true)
      × (r.budget.hard_deadline_at.instant < budget.hard_deadline_at.instant)
      × ((upgrade_to_research routing budget r).1
          ≡ record r { routing = routing; budget = budget; version = r.version + 1 })
unfolding upgrade_to_research
upgraded routing budget r h = ground arith

-- What an upgrade that returns has done.
pub record Upgrades (p : SearchPolicy) (r r' : SearchRun) : Type 0 where
  pub was_fast : is_fast r.routing.mode ≡ true
  pub mode : r'.routing.mode ≡ SearchMode.research
  pub budget : snapshot p SearchMode.research r.budget.created_at ≡ ok r'.budget
  pub usage : r'.usage ≡ r.usage
  pub within : validate r'.budget r'.usage ≡ ok tt
  pub later : r.budget.hard_deadline_at.instant < r'.budget.hard_deadline_at.instant

-- An upgrade that returns takes a FAST run to RESEARCH: its budget is a snapshot of the policy at
-- the time at which the run began, its hard deadline is later, and the usage so far, which stays,
-- is within it.
pub upgrade-Upgrades :
    (d : FastUpgradeDecision) (p : SearchPolicy) (r : SearchRun)
    → (upgrade_fast_run d p r).0 ≡ ok tt
    → Upgrades p r (upgrade_fast_run d p r).1
unfolding upgrade_fast_run
upgrade-Upgrades d p r h =
    let ready = lift-rest (prepare_upgrade d p r) (λ x. upgrade_to_research x.0 x.1) r h in
    let made = upgraded (ready.0.0) (ready.0.1) r (sym (ap (λ x. x.0) ready.2) ∙ h) in
    let facts = prepared d p r ready.1 in
    subst (Upgrades p r) (sym (ap (λ x. x.1) ready.2)) (
      subst (Upgrades p r) (sym made.2) (record {
        was_fast = made.0;
        mode = facts.0;
        budget = facts.1;
        usage = refl;
        within = facts.2;
        later = made.1;
      }))

record_usage_lem :
    (u : BudgetUsage) (r : SearchRun)
    → (record_usage u r).0 ≡ ok tt
    → (record_usage u r).1.usage ≡ u
unfolding record_usage
record_usage_lem u r h = elim (Bool-cases (is_terminal r)) [
  | inl over ↦ cc
  | inr live ↦ elim (Bool-cases (decreases u r.usage)) [
    | inl less ↦ cc
    | inr more ↦ rw (live, more) refl
  ]
]

added_round :
    (u : BudgetUsage) {u' : BudgetUsage}
    → add u one_round ≡ ok u'
    → u'.expansion_rounds ≡ u.expansion_rounds +ℤ pos 1
unfolding add new_usage
added_round u h = ground arith

expanded :
    (r : SearchRun) {u : BudgetUsage}
    → expanded_usage r ≡ ok u
    → (u.expansion_rounds ≡ r.usage.expansion_rounds +ℤ pos 1) × (validate r.budget u ≡ ok tt)
unfolding expanded_usage
expanded r h =
    let live = check-rest (is_fast r.routing.mode || is_terminal r) _ _ h in
    let sum = bind-ok (add r.usage one_round) _ live.1 in
    let valid = bind-ok (validate r.budget sum.0) _ sum.2 in
    let out = ok-injective valid.2 in
    (
      ap (λ (u : BudgetUsage). u.expansion_rounds) (sym out) ∙ added_round r.usage sum.1,
      subst (λ u. validate r.budget u ≡ ok tt) out valid.1,
    )

-- An expansion that returns has been counted, and the rounds so far are within the budget of the
-- run.
pub expansion_bounded :
    (r : SearchRun)
    → (record_expansion r).0 ≡ ok tt
    → let r' = (record_expansion r).1 in
      (r'.usage.expansion_rounds ≡ r.usage.expansion_rounds +ℤ pos 1)
      × (r'.usage.expansion_rounds ≤ℤ r.budget.max_expansion_rounds)
unfolding record_expansion
expansion_bounded r h =
    let ready = lift-rest (expanded_usage r) record_usage r h in
    let used = record_usage_lem ready.0 r (sym (ap (λ x. x.0) ready.2) ∙ h) in
    let (counted, valid) = expanded r ready.1 in
    let after = ap (λ x. x.1.usage) ready.2 ∙ used in
    (
      ap (λ (u : BudgetUsage). u.expansion_rounds) after ∙ counted,
      subst (λ (u : BudgetUsage). u.expansion_rounds ≤ℤ r.budget.max_expansion_rounds) (sym after)
          ((validate_iff r.budget ready.0).0 valid).rounds,
    )
