-- ===== src/Orchestration/Policy/Usage.antt =====
-- What the budget guard accepts, and how usage adds up against it.
use sana_v.Base.{
  ◌≡◌, refl, ◌↔◌, inl, inr, String, true, false, Option, none, some, List, [], ◌∷◌, arith, ℤ, pos,
  ◌+ℤ◌, ◌≤ℤ◌, int_laws, Dict, lookup, insert, All, str_eq, Option-cases, Bool-cases, subst, sym, ap,
  ◌∙◌,
}
use sana_v.Shared.Errors.{ok, err, ◌>>=◌, bind-ok, ok-injective}
use sana_v.Orchestration.Values.{
  BudgetSnapshot, BudgetUsage, Increments, seconds_of, add, sum_usage, has_negative_increment,
  add_phase, new_usage,
}
use sana_v.Orchestration.Policy.{limits, check_limits, check_phase, check_phases, validate}

-- The time that a phase used is within its budget, if it has one.
abbrev pub Fits : Option ℤ → ℤ → Type 0
Fits none used = Unit
Fits (some maximum) used = used ≤ℤ maximum

abbrev pub PhasesFit : Dict ℤ → Dict ℤ → Type 0
PhasesFit budgets = All (λ e. Fits (lookup e.0 budgets) e.1)

-- The counters that have a limit are within it, and so are the phases that have a budget.
pub record IsWithinBudget (b : BudgetSnapshot) (u : BudgetUsage) : Type 0 where
  pub queries : u.query_count ≤ℤ b.max_queries
  pub providers : u.provider_count ≤ℤ b.max_providers
  pub fetches : u.fetch_count ≤ℤ b.max_fetches
  pub llm_calls : u.llm_call_count ≤ℤ b.max_llm_calls
  pub rounds : u.expansion_rounds ≤ℤ b.max_expansion_rounds
  pub phases : PhasesFit b.phase_seconds u.phase_seconds

abbrev AllWithin : List (String × ℤ × ℤ) → Type 0
AllWithin = All (λ l. l.1 ≤ℤ l.2)

check_limits_iff : (ls : List (String × ℤ × ℤ)) → (check_limits ls ≡ ok tt) ↔ AllWithin ls
unfolding check_limits
check_limits_iff [] = (λ h. tt, λ h. refl)
check_limits_iff ((name, used, maximum) ∷ rest) =
    let ih = check_limits_iff rest in
    (λ h. (ground arith, ih.0 (ground arith)), λ h. ground (arith, ih.1 h.1))

check_phase_iff :
    (budgets : Dict ℤ) (phase : String) (used : ℤ)
    → (check_phase budgets phase used ≡ ok tt) ↔ Fits (lookup phase budgets) used
check_phase_iff budgets phase used = elim (Option-cases (lookup phase budgets)) [
  | inl free ↦ rw free (ground arith)
  | inr (maximum, limited) ↦ rw limited (ground arith)
]

check_phases_iff :
    (budgets usage : Dict ℤ) → (check_phases budgets usage ≡ ok tt) ↔ PhasesFit budgets usage
unfolding check_phases
check_phases_iff budgets [] = (λ h. tt, λ h. refl)
check_phases_iff budgets ((phase, used) ∷ rest) =
    let ih = check_phases_iff budgets rest in
    let now = check_phase_iff budgets phase used in
    (λ h. (now.0 (ground arith), ih.0 (ground arith)), λ h. cc (now.1 h.0, ih.1 h.1))

-- The guard accepts a usage exactly if every counter that has a limit is within it and every phase
-- that has a budget is within it.
pub validate_iff :
    (b : BudgetSnapshot) (u : BudgetUsage) → (validate b u ≡ ok tt) ↔ IsWithinBudget b u
unfolding validate
validate_iff b u =
    let counts = check_limits_iff (limits b u) in
    let times = check_phases_iff b.phase_seconds u.phase_seconds in
    (
      λ h.
          let within = counts.0 (ground arith) in
          record {
            queries = within.0;
            providers = within.1.0;
            fetches = within.1.1.0;
            llm_calls = within.1.1.1.0;
            rounds = within.1.1.1.1.0;
            phases = times.0 (ground arith);
          },
      λ h. cc (
        counts.1 (h.queries, (h.providers, (h.fetches, (h.llm_calls, (h.rounds, tt))))),
        times.1 h.phases,
      ),
    )

new_usage-same : (v : BudgetUsage) {u : BudgetUsage} → new_usage v ≡ ok u → u ≡ v
unfolding new_usage
new_usage-same v h = ground arith

-- A successful `add` was given no negative increment, and returns the sums.
add-sums :
    (u : BudgetUsage) (i : Increments) {u' : BudgetUsage}
    → add u i ≡ ok u'
    → (phases : Dict ℤ) × (has_negative_increment i ≡ false)
      × (add_phase i.phase i.elapsed u.phase_seconds ≡ ok phases)
      × (u' ≡ sum_usage u i phases)
unfolding add
add-sums u i {u'} h = elim (Bool-cases (has_negative_increment i)) [
  | inl bad ↦ let e : err _ ≡ ok u' = rw bad at h in cc
  | inr good ↦
      let rest : (add_phase i.phase i.elapsed u.phase_seconds >>= λ p. new_usage (sum_usage u i p))
          ≡ ok u' =
        rw good at h in
      let (phases, added, made) =
        bind-ok (add_phase i.phase i.elapsed u.phase_seconds) (λ p. new_usage (sum_usage u i p))
          rest in
      (phases, good, added, new_usage-same (sum_usage u i phases) made)
]

no_negative :
    (i : Increments)
    → has_negative_increment i ≡ false
    → (pos 0 ≤ℤ i.queries)
      × (pos 0 ≤ℤ i.providers)
      × (pos 0 ≤ℤ i.fetches)
      × (pos 0 ≤ℤ i.llm_calls)
      × (pos 0 ≤ℤ i.expansion_rounds)
      × (pos 0 ≤ℤ i.elapsed)
no_negative i h = ground arith

Fits-less : (budget : Option ℤ) (a b : ℤ) → a ≤ℤ b → Fits budget b → Fits budget a
Fits-less none a b le h = tt
Fits-less (some m) a b le h = omega arith

seconds-head :
    (phase j : String) (v : ℤ) (d : Dict ℤ)
    → str_eq j phase ≡ true
    → seconds_of phase ((j, v) ∷ d) ≡ v
seconds-head phase j v d h = ground arith

seconds-tail :
    (phase j : String) (v : ℤ) (d : Dict ℤ)
    → str_eq j phase ≡ false
    → seconds_of phase ((j, v) ∷ d) ≡ seconds_of phase d
seconds-tail phase j v d h = ground arith

insert-head :
    (phase j : String) (v w : ℤ) (d : Dict ℤ)
    → str_eq j phase ≡ true
    → insert phase w ((j, v) ∷ d) ≡ (j, w) ∷ d
insert-head phase j v w d h = ground arith

insert-tail :
    (phase j : String) (v w : ℤ) (d : Dict ℤ)
    → str_eq j phase ≡ false
    → insert phase w ((j, v) ∷ d) ≡ (j, v) ∷ insert phase w d
insert-tail phase j v w d h = ground arith

-- The usage of the phases before more time is recorded fits where the usage after does.
insert-fits :
    (budgets : Dict ℤ) (phase : String) (e : ℤ) (d : Dict ℤ)
    → pos 0 ≤ℤ e
    → PhasesFit budgets (insert phase (seconds_of phase d +ℤ e) d)
    → PhasesFit budgets d
insert-fits budgets phase e [] le h = tt
insert-fits budgets phase e ((j, v) ∷ d) le h = elim (Bool-cases (str_eq j phase)) [
  | inl same ↦
      let updated = insert-head phase j v (seconds_of phase ((j, v) ∷ d) +ℤ e) d same in
      let now = ap (λ (s : ℤ). (j, s +ℤ e) ∷ d) (seconds-head phase j v d same) in
      let h' : PhasesFit budgets ((j, v +ℤ e) ∷ d) = subst (PhasesFit budgets) (updated ∙ now) h in
      (Fits-less (lookup j budgets) v (v +ℤ e) (omega int_laws) h'.0, h'.1)
  | inr other ↦
      let updated = insert-tail phase j v (seconds_of phase ((j, v) ∷ d) +ℤ e) d other in
      let now = ap (λ (s : ℤ). (j, v) ∷ insert phase (s +ℤ e) d) (seconds-tail phase j v d other) in
      let h' : PhasesFit budgets ((j, v) ∷ insert phase (seconds_of phase d +ℤ e) d) =
        subst (PhasesFit budgets) (updated ∙ now) h in
      (h'.0, insert-fits budgets phase e d le h'.1)
]

add_phase-fits :
    (budgets : Dict ℤ) (phase : Option String) (e : ℤ) (d : Dict ℤ) {d' : Dict ℤ}
    → pos 0 ≤ℤ e
    → add_phase phase e d ≡ ok d'
    → PhasesFit budgets d'
    → PhasesFit budgets d
add_phase-fits budgets (some phase) e d le added h =
    insert-fits budgets phase e d le (subst (PhasesFit budgets) (sym (ok-injective added)) h)
add_phase-fits budgets none (pos Prim.Native.Nat.zero) d le added h =
    subst (PhasesFit budgets) (sym (ok-injective added)) h
add_phase-fits budgets none _ d le added h = cc

-- Exhaustion is for good: if the guard accepts a usage to which more was added, it accepted the
-- usage before.
pub add-validate :
    (b : BudgetSnapshot) (u : BudgetUsage) (i : Increments) {u' : BudgetUsage}
    → add u i ≡ ok u'
    → validate b u' ≡ ok tt
    → validate b u ≡ ok tt
add-validate b u i {u'} added h =
    let (phases, good, summed, same) = add-sums u i added in
    let signs = no_negative i good in
    let within : IsWithinBudget b (sum_usage u i phases) =
      subst (IsWithinBudget b) same ((validate_iff b u').0 h) in
    (validate_iff b u).1 (record {
      queries = omega (int_laws, within.queries);
      providers = omega (int_laws, within.providers);
      fetches = omega (int_laws, within.fetches);
      llm_calls = omega (int_laws, within.llm_calls);
      rounds = omega (int_laws, within.rounds);
      phases =
          add_phase-fits b.phase_seconds i.phase i.elapsed u.phase_seconds signs.5 summed
            within.phases;
    })
