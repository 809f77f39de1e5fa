-- ===== src/Shared/Errors.antt =====
-- sana/modules/shared/errors.py: the categories of errors and `TypedError`. An exception of the
-- standard library that the code raises itself is a constructor of its own, `ValueError` with its
-- message. The `cause` of an error, which nothing reads, is left out.
use sana_v.Base.{
  String, ◌≡◌, refl, Bool, true, false, Option, none, some, List, [], ◌∷◌, is_empty, strip, ℤ, All,
  ap,
}

pub data ErrorCategory : Type 0 where
  transient permanent budget content model_output cancelled internal : ErrorCategory

-- A value of `details`.
pub data Detail : Type 0 where
  text : String → Detail
  number : ℤ → Detail
  texts : List String → Detail

pub record TypedError : Type 0 where
  pub category : ErrorCategory
  pub code : String
  pub message : String
  pub retryable : Bool
  pub details : List (String × Detail)

pub data Error : Type 0 where
  value_error : String → Error
  type_error overflow_error lookup_error unexpected : Error
  typed : TypedError → Error

pub data Result {ℓ} (A : Type ℓ) : Type ℓ where
  ok : A → Result A
  err : Error → Result A

infixl 5 ◌>>=◌ ◌>>◌
abbrev pub ◌>>=◌ {ℓ κ} : {A : Type ℓ} {B : Type κ} → Result A → (A → Result B) → Result B
ok a >>= f = f a
err e >>= f = err e

abbrev pub ◌>>◌ {ℓ κ} : {A : Type ℓ} {B : Type κ} → Result A → Result B → Result B
m >> k = m >>= λ _. k

-- `if c: raise e`
abbrev pub raise_if : Bool → Error → Result (Unit {0})
raise_if true e = err e
raise_if false e = ok tt

pub passed : (b : Bool) (e : Error) → raise_if b e ≡ ok tt → b ≡ false
passed true e h = cc
passed false e h = refl

-- Checks in a row, of which the first that fails raises.
abbrev pub check_all : List (Result (Unit {0})) → Result (Unit {0})
check_all [] = ok tt
check_all (ok _ ∷ rest) = check_all rest
check_all (err e ∷ rest) = err e

-- If all of them pass, each does.
pub check_all-ok :
    (checks : List (Result (Unit {0}))) → check_all checks ≡ ok tt → All (λ c. c ≡ ok tt) checks
check_all-ok [] h = tt
check_all-ok (ok tt ∷ rest) h = (refl, check_all-ok rest h)
check_all-ok (err e ∷ rest) h = cc

pub check_all_pass :
    (checks : List (Result (Unit {0}))) → All (λ c. c ≡ ok tt) checks → check_all checks ≡ ok tt
check_all_pass [] h = refl
check_all_pass (ok tt ∷ rest) h = check_all_pass rest h.1
check_all_pass (err e ∷ rest) h = cc h.0

-- If what follows the checks returns, then they all pass.
pub check_all-bind {ℓ} :
    {B : Type ℓ} (checks : List (Result (Unit {0}))) (k : Result B) {b : B}
    → (check_all checks >> k) ≡ ok b
    → check_all checks ≡ ok tt
check_all-bind {B = B} checks k {b = b} h = go (check_all checks) k h
  where
    go : (m : Result (Unit {0})) (k : Result B) → (m >> k) ≡ ok b → m ≡ ok tt
    go (ok tt) k h = refl
    go (err e) k h = cc

-- A chain that returns has a first part that returns, and a rest that returns from its value.
module _ {ℓ κ} {A : Type ℓ} {B : Type κ} {result : B} where
  pub bind-ok :
      (first : Result A) (next : A → Result B)
      → (first >>= next) ≡ ok result
      → (value : A) × (first ≡ ok value) × (next value ≡ ok result)
  bind-ok (err raised) next h = cc
  bind-ok (ok value) next h = (value, refl, h)

-- The same, for what follows from the parts.
pub ok-elim {ℓ κ ι} :
    {A : Type ℓ} {B : Type κ} {G : Type ι} {b : B} (first : Result A) (next : A → Result B)
    → (first >>= next) ≡ ok b
    → ((a : A) → first ≡ ok a → next a ≡ ok b → G)
    → G
ok-elim (err e) next h k = absurd (cc)
ok-elim (ok a) next h k = k a refl h

-- A check that is passed leaves the rest.
pub check-rest {ℓ} :
    {B : Type ℓ} (b : Bool) (e : Error) (k : Result B) {v : B}
    → (raise_if b e >> k) ≡ ok v
    → (b ≡ false) × (k ≡ ok v)
check-rest true e k h = cc
check-rest false e k h = (refl, h)

pub err-ne-ok {ℓ} : {A : Type ℓ} (e : Error) (a : A) → ¬ (err e ≡ ok a)
err-ne-ok e a h = cc

pub ok-injective {ℓ} : {A : Type ℓ} {a b : A} → ok a ≡ ok b → a ≡ b
ok-injective {A = A} {a = a} h = ap (value_or a) h
  where
    value_or : A → Result A → A
    value_or d (ok v) = v
    value_or d (err _) = d

abbrev pub is_ok {ℓ} : {A : Type ℓ} → Result A → Bool
is_ok (ok _) = true
is_ok (err _) = false

-- `_RETRYABLE_BY_DEFAULT`
pub retryable_by_default : ErrorCategory → Bool
retryable_by_default ErrorCategory.transient = true
retryable_by_default _ = false

-- `TypedError.__init__`
pub new_typed_error :
    ErrorCategory → String → String → Option Bool → List (String × Detail) → Result TypedError
unfolding retryable_by_default
new_typed_error category code message retryable details = do
  raise_if (is_empty (strip code)) (value_error "TypedError code cannot be empty")
  raise_if (is_empty (strip message)) (value_error "TypedError message cannot be empty")
  ok (record {
    category = category;
    code = strip code;
    message = strip message;
    retryable = elim retryable [ none ↦ retryable_by_default category | some given ↦ given ];
    details = details;
  })

-- `InvariantViolation.__init__`. Every caller passes a literal code and a message that neither
-- begins nor ends with a space, so that the checks of `TypedError.__init__` pass.
abbrev pub invariant_violation_with : String → String → List (String × Detail) → Error
invariant_violation_with message code details = typed (record {
  category = ErrorCategory.permanent;
  code = code;
  message = message;
  retryable = false;
  details = details;
})

abbrev pub invariant_violation : String → Error
invariant_violation message = invariant_violation_with message "invariant_violation" []
