-- ===== src/Evidence/Soundness.antt =====
-- What stands behind the status of a fact.
use sana_v.Base.{
  ℕ, ◌≡◌, ◌≢◌, ◌⊎◌, inl, inr, refl, subst, sym, ap, ◌∙◌, String, arith, Bool, Bool-cases, true,
  false, ◌||◌, List, [], ◌∷◌, ◌++◌, any, length, leb, ◌==◌, str_eq, eq_refl, Among, if◌then◌else◌,
}
use sana_v.Evidence.Values.{VerifiedEvidence, FactRequirement, DiscoveryEvidence}
use sana_v.Evidence.Coverage.{
  FactCoverage, Scope, qualifies, set_default, collect, is_official, is_independent, identities,
  add_name, is_verified, assess, evaluate,
}

-- An element that passes a test.
unfoldable pub Witness : (VerifiedEvidence → Bool) → List VerifiedEvidence → Type 0
Witness p es = (e : VerifiedEvidence) × Among e es × (p e ≡ true)

pub any-Witness :
    (p : VerifiedEvidence → Bool) (es : List VerifiedEvidence) → any p es ≡ true → Witness p es
unfolding Witness
any-Witness p [] h = cc
any-Witness p (e ∷ es) h = elim (Bool-cases (p e)) [
  | inl passes ↦ (e, inl refl, passes)
  | inr fails ↦
      let (w, among, passes) = any-Witness p es (sym (ap (λ b. b || any p es) fails) ∙ h) in
      (w, inr among, passes)
]

Among-append :
    (x e : VerifiedEvidence) (es : List VerifiedEvidence)
    → Among x (es ++ (e ∷ []))
    → Among x es ⊎ (x ≡ e)
Among-append x e [] (inl same) = inr same
Among-append x e [] (inr left) = elim left [ ]
Among-append x e (y ∷ ys) (inl same) = inl (inl same)
Among-append x e (y ∷ ys) (inr later) = elim (Among-append x e ys later) [
  | inl among ↦ inl (inr among)
  | inr same ↦ inr same
]

Among-set_default :
    (x e : VerifiedEvidence) (items : List VerifiedEvidence)
    → Among x (set_default e items)
    → Among x items ⊎ (x ≡ e)
Among-set_default x e items h = go (any (λ i. i.id == e.id) items) h
  where
    go : (b : Bool) → Among x (if b then items else items ++ (e ∷ [])) → Among x items ⊎ (x ≡ e)
    go true h = inl h
    go false h = Among-append x e items h

-- What is collected has been given, and qualifies.
collected :
    (s : Scope) (evidence items : List VerifiedEvidence) (x : VerifiedEvidence)
    → Among x (collect s evidence items)
    → Among x items ⊎ (Among x evidence × (qualifies s x ≡ true))
unfolding collect
collected s [] items x h = inl h
collected s (e ∷ rest) items x h =
    go (qualifies s e) refl
      (collected s rest (if qualifies s e then set_default e items else items) x h)
  where
    go :
        (b : Bool)
        → qualifies s e ≡ b
        → Among x (if b then set_default e items else items)
          ⊎ (Among x rest × (qualifies s x ≡ true))
        → Among x items ⊎ ((x ≡ e ⊎ Among x rest) × (qualifies s x ≡ true))
    go b q (inr (later, fits)) = inr (inr later, fits)
    go false q (inl before) = inl before
    go true q (inl before) = elim (Among-set_default x e items before) [
      | inl among ↦ inl among
      | inr same ↦ inr (inl same, ap (qualifies s) same ∙ q)
    ]

-- The first of the names is none of the others.
unfoldable pub HeadIsNew : List String → Type 0
HeadIsNew [] = Unit
HeadIsNew (n ∷ names) = any (str_eq n) names ≡ false

pub identities-HeadIsNew : (es : List VerifiedEvidence) → HeadIsNew (identities es)
unfolding HeadIsNew identities
identities-HeadIsNew [] = tt
identities-HeadIsNew (e ∷ es) = go (is_independent e) (identities es) (identities-HeadIsNew es)
  where
    new :
        (b : Bool) (names : List String) (n : String)
        → any (str_eq n) names ≡ b
        → HeadIsNew names
        → HeadIsNew (if b then names else n ∷ names)
    new true names n q h = h
    new false names n q h = q

    go :
        (b : Bool) (names : List String)
        → HeadIsNew names
        → HeadIsNew (if b then add_name e.candidate.source.source_identity names else names)
    go false names h = h
    go true names h =
        new (any (str_eq e.candidate.source.source_identity) names) names
          e.candidate.source.source_identity refl h

Among-add_name :
    (n m : String) (names : List String) → Among n (add_name m names) → Among n names ⊎ (n ≡ m)
Among-add_name n m names h = go (any (str_eq m) names) h
  where
    go : (b : Bool) → Among n (if b then names else m ∷ names) → Among n names ⊎ (n ≡ m)
    go true h = inl h
    go false (inl same) = inr same
    go false (inr later) = inl later

-- A name stands for an independent source.
Named : String → List VerifiedEvidence → Type 0
Named n es =
    (e : VerifiedEvidence) × Among e es
    × (is_independent e ≡ true)
    × (e.candidate.source.source_identity ≡ n)

identity-Named : (n : String) (es : List VerifiedEvidence) → Among n (identities es) → Named n es
unfolding identities Named
identity-Named n [] h = elim h [ ]
identity-Named n (e ∷ es) h = go (is_independent e) refl (identity-Named n es) h
  where
    later : Named n es → Named n (e ∷ es)
    later (x, among, free, named) = (x, inr among, free, named)

    go :
        (b : Bool)
        → is_independent e ≡ b
        → (Among n (identities es) → Named n es)
        → Among n (
            if b
            then add_name e.candidate.source.source_identity (identities es)
            else identities es)
        → Named n (e ∷ es)
    go false q rest h = later (rest h)
    go true q rest h =
        elim (Among-add_name n e.candidate.source.source_identity (identities es) h) [
          | inl before ↦ later (rest before)
          | inr same ↦ (e, inl refl, q, sym same)
        ]

-- Two independent sources with different identities.
unfoldable pub TwoIndependent : (VerifiedEvidence → Type 0) → Type 0
TwoIndependent P =
    (d : VerifiedEvidence) × (e : VerifiedEvidence) × P d
    × P e
    × (is_independent d ≡ true)
    × (is_independent e ≡ true)
    × (d.candidate.source.source_identity ≢ e.candidate.source.source_identity)

apart : (n m : String) (names : List String) → any (str_eq n) (m ∷ names) ≡ false → n ≢ m
apart n m names new same =
    let equal : str_eq n m ≡ true = subst (λ k. str_eq n k ≡ true) same (eq_refl n) in ground arith

pub two_names :
    (es : List VerifiedEvidence) (names : List String)
    → names ≡ identities es
    → leb 2 (length names) ≡ true
    → HeadIsNew names
    → TwoIndependent (λ e. Among e es)
unfolding HeadIsNew TwoIndependent Named
two_names es [] same h new = ground arith
two_names es (n ∷ []) same h new = ground arith
two_names es (n ∷ m ∷ names) same h new =
    let first = identity-Named n es (subst (Among n) same (inl refl)) in
    let second = identity-Named m es (subst (Among m) same (inr (inl refl))) in
    let (d, among_d, free_d, named_d) = first in
    let (e, among_e, free_e, named_e) = second in
    (
      d,
      e,
      among_d,
      among_e,
      free_d,
      free_e,
      λ same. apart n m names new (sym named_d ∙ (same ∙ named_e)),
    )

-- What stands behind the status VERIFIED: an official source, or two independent ones.
unfoldable pub Grounds : Scope → List VerifiedEvidence → Type 0
Grounds s evidence =
    let Fits : VerifiedEvidence → Type 0 = λ e. Among e evidence × (qualifies s e ≡ true) in
    ((e : VerifiedEvidence) × Fits e × (is_official e ≡ true)) ⊎ TwoIndependent Fits

pub given :
    (s : Scope) (evidence : List VerifiedEvidence) (x : VerifiedEvidence)
    → Among x (collect s evidence [])
    → Among x evidence × (qualifies s x ≡ true)
given s evidence x h = elim (collected s evidence [] x h) [
  | inl left ↦ elim left [ ]
  | inr fits ↦ fits
]

assess-verified :
    (s : Scope) (fact : FactRequirement) (n : ℕ) (accepted : List VerifiedEvidence)
    → (assess s fact n accepted).status ≡ FactCoverage.verified
    → is_verified accepted ≡ true
unfolding assess
assess-verified s fact n accepted h = ground arith

verified_by :
    (s : Scope) (evidence : List VerifiedEvidence)
    → is_verified (collect s evidence []) ≡ true
    → Grounds s evidence
unfolding is_verified Grounds TwoIndependent Witness
verified_by s evidence h =
    let accepted = collect s evidence [] in
    elim (Bool-cases (any is_official accepted)) [
      | inl official ↦
          let (e, among, is) = any-Witness is_official accepted official in
          inl (e, given s evidence e among, is)
      | inr private ↦
          let two = sym (ap (λ b. b || leb 2 (length (identities accepted))) private) ∙ h in
          let (d, e, among_d, among_e, free_d, free_e, apart) =
            two_names accepted (identities accepted) refl two (identities-HeadIsNew accepted) in
          inr (d, e, given s evidence d among_d, given s evidence e among_e, free_d, free_e, apart)
    ]

-- A fact is VERIFIED only where an official source has been given, or two independent sources with
-- different identities, in evidence that was accepted for this fact of this run of this tenant.
pub verified-Grounds :
    (s : Scope) (fact : FactRequirement) (evidence : List VerifiedEvidence)
    (discovery : List DiscoveryEvidence)
    → (evaluate s fact evidence discovery).status ≡ FactCoverage.verified
    → Grounds s evidence
unfolding evaluate Grounds
verified-Grounds s fact evidence discovery h =
    verified_by s evidence (assess-verified s fact _ (collect s evidence []) h)
