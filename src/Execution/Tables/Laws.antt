-- ===== src/Execution/Tables/Laws.antt =====
-- What the statements of the repositories find and leave: rows that are found are still found after
-- an insertion, and after an update with their new values.
use sana_v.Base.{
  ◌+◌, ◌≤◌, ◌≡◌, sym, ap, ◌∙◌, arith, Bool, Bool-cases, true, false, some, or_else, List, [], ◌∷◌,
  ◌++◌, inl, inr, if◌then◌else◌,
}
use sana_v.Execution.Tables.{first_where, update_where, count_where}

module _ {R : Type 0} where
  here-first :
      (p : R → Bool) (x r : R) (rows : List R)
      → p x ≡ true
      → first_where p (x ∷ rows) ≡ some r
      → x ≡ r
  here-first p x r rows holds h =
      ap (λ o. or_else o x) (sym (ap (λ b. if b then some x else first_where p rows) holds) ∙ h)

  later-first :
      (p : R → Bool) (x r : R) (rows : List R)
      → p x ≡ false
      → first_where p (x ∷ rows) ≡ some r
      → first_where p rows ≡ some r
  later-first p x r rows fails h =
      sym (ap (λ b. if b then some x else first_where p rows) fails) ∙ h

  -- A row that is found satisfies the condition.
  pub first_where-holds :
      (p : R → Bool) (r : R) (rows : List R) → first_where p rows ≡ some r → p r ≡ true
  first_where-holds p r [] h = cc
  first_where-holds p r (x ∷ rows) h = elim (Bool-cases (p x)) [
    | inl holds ↦ ap p (sym (here-first p x r rows holds h)) ∙ holds
    | inr fails ↦ first_where-holds p r rows (later-first p x r rows fails h)
  ]

  -- It is still found when rows are inserted.
  pub first_where-append :
      (p : R → Bool) (r : R) (rows more : List R)
      → first_where p rows ≡ some r
      → first_where p (rows ++ more) ≡ some r
  first_where-append p r [] more h = cc
  first_where-append p r (x ∷ rows) more h = elim (Bool-cases (p x)) [
    | inl holds ↦ rw holds (ap some (here-first p x r rows holds h))
    | inr fails ↦ rw fails (first_where-append p r rows more (later-first p x r rows fails h))
  ]

  -- After an update that keeps what is looked for, it is found with its new values.
  pub first_where-update :
      (q p : R → Bool) (f : R → R) (r : R) (rows : List R)
      → ((x : R) → q (f x) ≡ q x)
      → first_where q rows ≡ some r
      → first_where q (update_where p f rows) ≡ some (if p r then f r else r)
  first_where-update q p f r [] keeps h = cc
  first_where-update q p f r (x ∷ rows) keeps h = elim (Bool-cases (q x)) [
    | inl holds ↦
        let same = here-first q x r rows holds h in
        let kept : q (if p x then f x else x) ≡ true = elim (Bool-cases (p x)) [
          | inl hit ↦ rw hit (keeps x ∙ holds)
          | inr miss ↦ rw miss holds
        ] in
        rw kept (ap (λ (y : R). some (if p y then f y else y)) same)
    | inr fails ↦
        let kept : q (if p x then f x else x) ≡ false = elim (Bool-cases (p x)) [
          | inl hit ↦ rw hit (keeps x ∙ fails)
          | inr miss ↦ rw miss fails
        ] in
        rw kept (first_where-update q p f r rows keeps (later-first q x r rows fails h))
  ]

  -- The number of rows of two lists is the sum of their numbers.
  pub count_where-append :
      (p : R → Bool) (rows more : List R)
      → count_where p (rows ++ more) ≡ count_where p rows + count_where p more
  count_where-append p [] more = omega arith
  count_where-append p (x ∷ rows) more = omega (arith, count_where-append p rows more)

  -- An update after which no more rows satisfy the condition than before.
  pub count_where-update_le :
      (q p : R → Bool) (f : R → R) (rows : List R)
      → ((x : R) → q (f x) ≡ true → q x ≡ true)
      → count_where q (update_where p f rows) ≤ count_where q rows
  count_where-update_le q p f [] keeps = omega arith
  count_where-update_le q p f (x ∷ rows) keeps =
      let rest = count_where-update_le q p f rows keeps in ground (arith, rest, keeps x)

  -- An update that takes a row that is found out of the condition leaves one row less.
  pub count_where-update_lt :
      (q found p : R → Bool) (f : R → R) (r : R) (rows : List R)
      → ((x : R) → q (f x) ≡ true → q x ≡ true)
      → first_where found rows ≡ some r
      → p r ≡ true
      → q r ≡ true
      → q (f r) ≡ false
      → count_where q (update_where p f rows) + 1 ≤ count_where q rows
  count_where-update_lt q found p f r [] keeps h hit was out = cc
  count_where-update_lt q found p f r (x ∷ rows) keeps h hit was out = elim (Bool-cases (found x)) [
    | inl holds ↦
        let same = here-first found x r rows holds h in
        let rest = count_where-update_le q p f rows keeps in
        rw same (rw (hit, was, if◌then◌else◌) (rw out (omega (arith, rest))))
    | inr fails ↦
        let rest =
          count_where-update_lt q found p f r rows keeps (later-first found x r rows fails h) hit
            was out in
        ground (arith, rest, keeps x)
  ]

  -- A row that is found and satisfies a condition is counted.
  pub count_where-found :
      (q found : R → Bool) (r : R) (rows : List R)
      → first_where found rows ≡ some r
      → q r ≡ true
      → 1 ≤ count_where q rows
  count_where-found q found r [] h e = cc
  count_where-found q found r (x ∷ rows) h e = elim (Bool-cases (found x)) [
    | inl holds ↦ let same = here-first found x r rows holds h in rw same (rw e (omega arith))
    | inr fails ↦
        let rest = count_where-found q found r rows (later-first found x r rows fails h) e in
        omega (arith, rest)
  ]
