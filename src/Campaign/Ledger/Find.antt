-- ===== src/Campaign/Ledger/Find.antt =====
-- Rows that are found and written in the table of results.
use sana_v.Base.{
  ℕ, ◌+◌, ◌≤◌, ◌≡◌, refl, sym, ap, ◌∙◌, arith, Bool-cases, true, false, some, or_else, List, [],
  ◌∷◌, inl, inr, ◌==◌, if◌then◌else◌,
}
use sana_v.Campaign.Ledger.{ResultRecord, find_result, put_result}
use sana_v.Campaign.Ledger.Steps.{total}

found_first :
    (x r : ResultRecord) (id : ℕ) (rs : List ResultRecord)
    → (x.id == id) ≡ true
    → find_result id (x ∷ rs) ≡ some r
    → x ≡ r
found_first x r id rs same h =
    ap (λ o. or_else o x) (sym (ap (λ b. if b then some x else find_result id rs) same) ∙ h)

found_later :
    (x r : ResultRecord) (id : ℕ) (rs : List ResultRecord)
    → (x.id == id) ≡ false
    → find_result id (x ∷ rs) ≡ some r
    → find_result id rs ≡ some r
found_later x r id rs other h = sym (ap (λ b. if b then some x else find_result id rs) other) ∙ h

-- A row that is written moves the sum by what it changes.
pub total-put :
    (f : ResultRecord → ℕ) (id : ℕ) (r r' : ResultRecord) (rs : List ResultRecord)
    → find_result id rs ≡ some r
    → total f (put_result id r' rs) + f r ≡ total f rs + f r'
total-put f id r r' [] h = cc
total-put f id r r' (x ∷ rs) h = elim (Bool-cases (x.id == id)) [
  | inl same ↦ rw same (omega (arith, ap f (found_first x r id rs same h)))
  | inr other ↦ rw other (omega (arith, total-put f id r r' rs (found_later x r id rs other h)))
]

-- No row has more than there is in all.
pub total-find :
    (f : ResultRecord → ℕ) (id : ℕ) (r : ResultRecord) (rs : List ResultRecord)
    → find_result id rs ≡ some r
    → f r ≤ total f rs
total-find f id r [] h = cc
total-find f id r (x ∷ rs) h = elim (Bool-cases (x.id == id)) [
  | inl same ↦ omega (arith, ap f (found_first x r id rs same h))
  | inr other ↦ omega (arith, total-find f id r rs (found_later x r id rs other h))
]

-- A row that is found has the id that was looked for.
pub find-id :
    (id : ℕ) (r : ResultRecord) (rs : List ResultRecord)
    → find_result id rs ≡ some r
    → (r.id == id) ≡ true
find-id id r [] h = cc
find-id id r (x ∷ rs) h = elim (Bool-cases (x.id == id)) [
  | inl same ↦ ap (λ (y : ResultRecord). y.id == id) (sym (found_first x r id rs same h)) ∙ same
  | inr other ↦ find-id id r rs (found_later x r id rs other h)
]

-- What is written under the id of a row is found.
pub put-find :
    (id : ℕ) (r r' : ResultRecord) (rs : List ResultRecord)
    → find_result id rs ≡ some r
    → (r'.id == id) ≡ true
    → find_result id (put_result id r' rs) ≡ some r'
put-find id r r' [] h e = cc
put-find id r r' (x ∷ rs) h e = elim (Bool-cases (x.id == id)) [
  | inl same ↦ rw (same, if◌then◌else◌) (rw e refl)
  | inr other ↦
      rw (other, if◌then◌else◌) (rw other (put-find id r r' rs (found_later x r id rs other h) e))
]

-- To write a row over itself changes nothing.
pub put-put :
    (id : ℕ) (r : ResultRecord) (rs : List ResultRecord)
    → find_result id rs ≡ some r
    → put_result id r rs ≡ rs
put-put id r [] h = refl
put-put id r (x ∷ rs) h = elim (Bool-cases (x.id == id)) [
  | inl same ↦ rw same (ap (λ y. y ∷ rs) (sym (found_first x r id rs same h)))
  | inr other ↦ rw other (ap (λ ys. x ∷ ys) (put-put id r rs (found_later x r id rs other h)))
]
