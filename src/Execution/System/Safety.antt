-- ===== src/Execution/System/Safety.antt =====
-- What holds in every system that grows from one without attempts and claims.
use sana_v.Base.{ℕ, ◌≤◌, ◌≡◌, ap, subst, arith, Option, none, some, [], Among}
use sana_v.Orchestration.Step.{SearchStep}
use sana_v.Execution.Tables.{Tables, find_step, count_where}
use sana_v.Execution.Store.{Store}
use sana_v.Execution.Moves.{Move}
use sana_v.Execution.Recovery.{is_open_of}
use sana_v.Execution.System.{System, Steps}
use sana_v.Execution.System.Exclusion.{IsExclusive, open_attempts, allowed}
use sana_v.Execution.System.Exclusion.Moves.{Move-IsExclusive}
use sana_v.Execution.System.Protocol.{AllIssued, Step-Move, Step-AllIssued}

-- No attempt has been made yet.
pub record IsNew (w : System) : Type 0 where
  pub attempts : w.tables.attempts ≡ []
  pub claims : w.claims ≡ []

pub record IsSound (w : System) : Type 0 where
  pub issued : AllIssued w
  pub exclusive : IsExclusive w.tables

IsNew-IsSound : (w : System) → IsNew w → IsSound w
IsNew-IsSound w new = record {
  issued = λ c among. absurd (subst (Among c) new.claims among);
  exclusive = λ k.
      let open_none : open_attempts k w.tables ≡ 0 = ap (count_where (is_open_of k)) new.attempts in
      omega (arith, open_none);
}

pub Steps-IsSound : (store : Store) {w w' : System} → IsSound w → Steps store w w' → IsSound w'
Steps-IsSound store sound (Steps.done w) = sound
Steps-IsSound store sound (Steps.more u v w before step) =
    let mid = Steps-IsSound store sound before in
    record {
      issued = Step-AllIssued store step mid.issued;
      exclusive = Move-IsExclusive (Step-Move store step mid.issued) mid.exclusive;
    }

pub reached-IsSound : (store : Store) {w w' : System} → IsNew w → Steps store w w' → IsSound w'
reached-IsSound store {w} new steps = Steps-IsSound store (IsNew-IsSound w new) steps

allowed_in-le_one : (s : Option SearchStep) → allowed s ≤ 1
allowed_in-le_one none = omega arith
allowed_in-le_one (some s) = ground arith

-- However workers, the reconciliation and the rest of the system interleave, a step never has two
-- open attempts, and it has none while it is READY or waits for a retry.
pub Steps-IsExclusive :
    (store : Store) {w w' : System}
    → IsNew w
    → Steps store w w'
    → (step_id : ℕ)
    → (open_attempts step_id w'.tables ≤ 1)
      × (open_attempts step_id w'.tables ≤ allowed (find_step step_id w'.tables.steps))
Steps-IsExclusive store {w} {w'} new steps k =
    let within = (reached-IsSound store new steps).exclusive k in
    (omega (arith, within, allowed_in-le_one (find_step k w'.tables.steps)), within)

-- The tables evolve by moves.
pub data Moves : Tables → Tables → Type 0 where
  still : (t : Tables) → Moves t t
  then_move : (t u v : Tables) → Moves t u → Move u v → Moves t v

sound-Moves :
    (store : Store) {w w' : System} → IsSound w → Steps store w w' → Moves w.tables w'.tables
sound-Moves store sound (Steps.done w) = Moves.still w.tables
sound-Moves store sound (Steps.more u v w before step) =
    Moves.then_move u.tables v.tables w.tables (sound-Moves store sound before)
      (Step-Move store step (Steps-IsSound store sound before).issued)

-- The store, the reconciliation and the creation of steps implement the protocol of leases: from
-- tables without attempts, every sequence of committed transactions is a sequence of its moves.
pub Steps-Moves :
    (store : Store) {w w' : System} → IsNew w → Steps store w w' → Moves w.tables w'.tables
Steps-Moves store {w} new steps = sound-Moves store (IsNew-IsSound w new) steps
