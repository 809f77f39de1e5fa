-- ===== src/Shared/Method.antt =====
-- A method of a mutable aggregate: what it returns or raises, and the state that it leaves. What
-- was assigned before a raise stays assigned, so the state comes back beside an error too; that a
-- failed call changes nothing is a theorem about each method.
use sana_v.Base.{◌≡◌, refl, Bool, List, [], ◌∷◌, if◌then◌else◌}
use sana_v.Shared.Errors.{Error, Result, ok, err}

abbrev pub Method : Type 0 → Type 0 → Type 0
Method S A = S → Result A × S

abbrev pub Done : Type 0
Done = Unit {0}

infixl 5 ◌>>=◌ ◌>>◌
abbrev pub ◌>>=◌ : {S A B : Type 0} → Method S A → (A → Method S B) → Method S B
◌>>=◌ m f s = let (r, s') = m s in elim r [ ok a ↦ f a s' | err e ↦ (err e, s') ]

abbrev pub ◌>>◌ : {S A B : Type 0} → Method S A → Method S B → Method S B
m >> k = m >>= λ _. k

abbrev pub pure : {S A : Type 0} → A → Method S A
pure a s = (ok a, s)

-- A check that reads no state.
abbrev pub lift : {S A : Type 0} → Result A → Method S A
lift r s = (r, s)

-- `self`
abbrev pub self : {S : Type 0} → Method S S
self s = (ok s, s)

-- `if c: raise e`
abbrev pub refuse_if : {S : Type 0} → Bool → Error → Method S Done
refuse_if c e s = (if c then err e else ok tt, s)

abbrev pub modify : {S : Type 0} → (S → S) → Method S Done
modify f s = (ok tt, f s)

-- The state after a sequence of calls, a caller that catches every error going on with the next.
unfoldable pub run_all : {S C : Type 0} → (C → Method S Done) → List C → S → S
run_all call [] s = s
run_all call (c ∷ cs) s = run_all call cs (call c s).1

-- What every call keeps, any sequence of calls keeps.
pub run_all_induction :
    {S C : Type 0} (call : C → Method S Done) (P : S → Type 0)
    → ((c : C) (s : S) → P s → P (call c s).1)
    → (cs : List C) (s : S) → P s
    → P (run_all call cs s)
unfolding run_all
run_all_induction call P keep [] s h = h
run_all_induction call P keep (c ∷ cs) s h =
    run_all_induction call P keep cs (call c s).1 (keep c s h)

-- A method that computes a value first, and returns, has computed it and goes on with it.
pub lift-rest :
    {S A B : Type 0} (m : Result A) (f : A → Method S B) (s : S) {v : B}
    → ((lift m >>= f) s).0 ≡ ok v
    → (a : A) × (m ≡ ok a) × ((lift m >>= f) s ≡ f a s)
lift-rest (ok a) f s h = (a, refl, refl)
lift-rest (err e) f s h = cc
