-- ===== src/Evidence/Conflict.antt =====
-- Evidence that speaks for a fact and against it.
use sana_v.Base.{
  ℕ, ◌≡◌, inl, inr, refl, subst, sym, ap, ◌∙◌, arith, Bool, true, false, not, ◌||◌, List, [], ◌∷◌,
  ◌++◌, any, keep, ◌==◌, Among, if◌then◌else◌,
}
use sana_v.Evidence.Values.{VerifiedEvidence, FactRequirement, DiscoveryEvidence}
use sana_v.Evidence.Coverage.{
  FactCoverage, Scope, qualifies, set_default, collect, is_support, assess, evaluate, is_empty_list,
}
use sana_v.Evidence.Soundness.{Witness, any-Witness, given}

-- The id stands for one item.
unfoldable pub Consistent : List VerifiedEvidence → Type 0
Consistent evidence =
    (d e : VerifiedEvidence) → Among d evidence → Among e evidence → (d.id == e.id) ≡ true → d ≡ e

-- The item of that id has been collected.
Has : VerifiedEvidence → List VerifiedEvidence → Type 0
Has e items = any (λ i. i.id == e.id) items ≡ true

any-append :
    (p : VerifiedEvidence → Bool) (xs ys : List VerifiedEvidence)
    → any p (xs ++ ys) ≡ (any p xs || any p ys)
any-append p [] ys = refl
any-append p (x ∷ xs) ys = ground (arith, any-append p xs ys)

own_id : (e : VerifiedEvidence) → (e.id == e.id) ≡ true
own_id e = ground arith

set_default-Has :
    (e : VerifiedEvidence) (items : List VerifiedEvidence) → Has e (set_default e items)
unfolding Has
set_default-Has e items = go (any (λ i. i.id == e.id) items) refl
  where
    go :
        (b : Bool)
        → any (λ i. i.id == e.id) items ≡ b
        → any (λ i. i.id == e.id) (if b then items else items ++ (e ∷ [])) ≡ true
    go true q = q
    go false q = any-append (λ i. i.id == e.id) items (e ∷ []) ∙ rw (q, own_id e) refl

set_default-keeps :
    (x e : VerifiedEvidence) (items : List VerifiedEvidence)
    → Has x items
    → Has x (set_default e items)
unfolding Has
set_default-keeps x e items h = go (any (λ i. i.id == e.id) items)
  where
    go : (b : Bool) → any (λ i. i.id == x.id) (if b then items else items ++ (e ∷ [])) ≡ true
    go true = h
    go false = any-append (λ i. i.id == x.id) items (e ∷ []) ∙ rw h refl

collect-keeps :
    (s : Scope) (evidence items : List VerifiedEvidence) (x : VerifiedEvidence)
    → Has x items
    → Has x (collect s evidence items)
unfolding collect
collect-keeps s [] items x h = h
collect-keeps s (e ∷ rest) items x h = collect-keeps s rest _ x (go (qualifies s e))
  where
    go : (b : Bool) → Has x (if b then set_default e items else items)
    go true = set_default-keeps x e items h
    go false = h

collect-Has :
    (s : Scope) (evidence items : List VerifiedEvidence) (x : VerifiedEvidence)
    → Among x evidence
    → qualifies s x ≡ true
    → Has x (collect s evidence items)
unfolding collect
collect-Has s [] items x h fits = elim h [ ]
collect-Has s (e ∷ rest) items x (inr later) fits = collect-Has s rest _ x later fits
collect-Has s (e ∷ rest) items x (inl same) fits =
    collect-keeps s rest _ x (go (qualifies s e) (ap (qualifies s) (sym same) ∙ fits))
  where
    go : (b : Bool) → b ≡ true → Has x (if b then set_default e items else items)
    go true q = subst (λ y. Has y (set_default e items)) (sym same) (set_default-Has e items)
    go false q = cc

-- Where ids stand for one item each, what qualifies is collected.
collected_all :
    (s : Scope) (evidence : List VerifiedEvidence) (x : VerifiedEvidence)
    → Consistent evidence
    → Among x evidence
    → qualifies s x ≡ true
    → Among x (collect s evidence [])
unfolding Has Consistent Witness
collected_all s evidence x consistent among fits =
    let (y, there, same) =
      any-Witness (λ i. i.id == x.id) (collect s evidence [])
        (collect-Has s evidence [] x among fits) in
    subst (λ z. Among z (collect s evidence []))
      (consistent y x (given s evidence y there).0 among same) there

keep_nonempty :
    (p : VerifiedEvidence → Bool) (es : List VerifiedEvidence) (x : VerifiedEvidence)
    → Among x es
    → p x ≡ true
    → is_empty_list (keep p es) ≡ false
keep_nonempty p [] x h passes = elim h [ ]
keep_nonempty p (e ∷ es) x (inl same) passes = rw (ap p (sym same) ∙ passes) refl
keep_nonempty p (e ∷ es) x (inr later) passes = go (p e) (keep_nonempty p es x later passes)
  where
    go :
        (b : Bool)
        → is_empty_list (keep p es) ≡ false
        → is_empty_list (if b then e ∷ keep p es else keep p es) ≡ false
    go true h = refl
    go false h = h

assess-partial :
    (s : Scope) (fact : FactRequirement) (n : ℕ) (accepted : List VerifiedEvidence)
    → is_empty_list (keep is_support accepted) ≡ false
    → is_empty_list (keep (λ e. not (is_support e)) accepted) ≡ false
    → (assess s fact n accepted).status ≡ FactCoverage.partial
unfolding assess
assess-partial s fact n accepted supporting contradicting = rw (supporting, contradicting) refl

-- A conflict is never settled by counting: where, among evidence whose ids stand for one item each,
-- an accepted item of the fact supports it and another contradicts it, the fact is PARTIAL,
-- whatever the authority and the number of the sources.
pub conflict_partial :
    (s : Scope) (fact : FactRequirement) (evidence : List VerifiedEvidence)
    (discovery : List DiscoveryEvidence) (for against : VerifiedEvidence)
    → Consistent evidence
    → Among for evidence
    → Among against evidence
    → qualifies s for ≡ true
    → qualifies s against ≡ true
    → is_support for ≡ true
    → is_support against ≡ false
    → (evaluate s fact evidence discovery).status ≡ FactCoverage.partial
unfolding evaluate
conflict_partial s fact evidence discovery for against consistent f a fits fits' supports opposes =
    let accepted = collect s evidence [] in
    assess-partial s fact _ accepted
      (keep_nonempty is_support accepted for (collected_all s evidence for consistent f fits)
        supports)
      (keep_nonempty (λ e. not (is_support e)) accepted against
        (collected_all s evidence against consistent a fits') (ap not opposes))
