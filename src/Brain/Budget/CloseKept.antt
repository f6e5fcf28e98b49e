-- ===== src/Brain/Budget/CloseKept.antt =====
-- Closing an account and its clock, of lib/brain/run_budget.go, keep the ledger.
use yu_feng.Base.{
  ℕ, String, ◌⊎◌, ◌≡◌, refl, ◌∙◌, sym, ap, Bool, true, false, ◌&&◌, ◌+◌, [], ◌∷◌, Option, none,
  some, inl, inr, str_eq, eq_iff, arith, Bool-cases, Option-cases,
}
use yu_feng.Base.Assoc.{Assoc, lookup, insert, total}
use yu_feng.Base.Result.{ok}
use yu_feng.Brain.Budget.Amounts.{
  Resource, measure, measure-each, zero_amount, measure-zero_amount, amount_eq, amount_eq-eq,
}
use yu_feng.Brain.Budget.Tables.{Account, Reservation, Database, account_holds, put_account}
use yu_feng.Brain.Budget.Settle.{
  close_account, with_closed, close_run_budget, start_run_budget_active, stop_run_budget_active,
  with_clock, settled_as, close_rows, closed_row,
}
use yu_feng.Brain.Budget.Ledger.{
  open_amount_own, spent_amount_open, open_amount_settled, spent_amount_own, IsLedger, open_amount,
  spent_amount, open_amount_other, spent_amount_other, put_account-eq-ok, posted-IsLedger,
  reserved_sum, used_sum,
}

-- Closing moves what the open rows of the budget take to what its settled rows take.
closed_row_open :
    (budget : String) (r : Resource) (row : Reservation)
    → open_amount budget r (closed_row budget row) ≡ 0
unfolding open_amount
closed_row_open budget r row =
    elim (Bool-cases (str_eq row.budget_id budget && str_eq row.state "reserved")) [
      | inl hit ↦
          rw (hit) (open_amount_settled budget r (settled_as row "outcome_unknown" row.amount) refl)
      | inr miss ↦ rw (miss, open_amount, miss) refl
    ]

closed_row_spent :
    (budget : String) (r : Resource) (row : Reservation)
    → spent_amount budget r (closed_row budget row)
      ≡ spent_amount budget r row + open_amount budget r row
unfolding open_amount
closed_row_spent budget r row =
    elim (Bool-cases (str_eq row.budget_id budget && str_eq row.state "reserved")) [
      | inl hit ↦
          let own : row.budget_id ≡ budget = ground (arith, hit, eq_iff row.budget_id budget) in
          let opened : str_eq row.state "reserved" ≡ true = ground (arith, hit) in
          let new = settled_as row "outcome_unknown" row.amount in
          let h1 : spent_amount row.budget_id r new ≡ measure r row.amount =
            spent_amount_own r new refl in
          let h2 = open_amount_own r row opened in
          let h3 = spent_amount_open row.budget_id r row opened in rw (hit, ← own) (omega arith)
      | inr miss ↦
          let h : open_amount budget r row ≡ 0 = rw (open_amount, miss) refl in
          rw (miss) (omega arith)
    ]

closed_row_other :
    (budget other : String) (r : Resource) (row : Reservation)
    → str_eq budget other ≡ false
    → (open_amount other r (closed_row budget row) ≡ open_amount other r row)
      × (spent_amount other r (closed_row budget row) ≡ spent_amount other r row)
closed_row_other budget other r row away =
    elim (Bool-cases (str_eq row.budget_id budget && str_eq row.state "reserved")) [
      | inl hit ↦
          let own : row.budget_id ≡ budget = ground (arith, hit, eq_iff row.budget_id budget) in
          let new = settled_as row "outcome_unknown" row.amount in
          rw (hit) (
            open_amount_other budget other r new own away
                ∙ sym (open_amount_other budget other r row own away),
            spent_amount_other budget other r new own away
                ∙ sym (spent_amount_other budget other r row own away),
          )
      | inr miss ↦ rw (miss) (refl, refl)
    ]

close_rows_open :
    (budget : String) (r : Resource) (rows : Assoc Reservation)
    → total (open_amount budget r) (close_rows budget rows) ≡ 0
unfolding close_rows total
close_rows_open budget r [] = refl
close_rows_open budget r ((id, row) ∷ rows) =
    rw (closed_row_open, close_rows_open budget r rows) refl

close_rows_spent :
    (budget : String) (r : Resource) (rows : Assoc Reservation)
    → total (spent_amount budget r) (close_rows budget rows)
      ≡ total (spent_amount budget r) rows + total (open_amount budget r) rows
unfolding close_rows total
close_rows_spent budget r [] = refl
close_rows_spent budget r ((id, row) ∷ rows) =
    let later = close_rows_spent budget r rows in
    let here = closed_row_spent budget r row in omega arith

close_rows_other :
    (budget other : String) (r : Resource) (rows : Assoc Reservation)
    → str_eq budget other ≡ false
    → (total (open_amount other r) (close_rows budget rows) ≡ total (open_amount other r) rows)
      × (total (spent_amount other r) (close_rows budget rows) ≡ total (spent_amount other r) rows)
unfolding close_rows total
close_rows_other budget other r [] miss = (refl, refl)
close_rows_other budget other r ((id, row) ∷ rows) miss =
    let (h1, h2) = close_rows_other budget other r rows miss in
    let (h3, h4) = closed_row_other budget other r row miss in (omega arith, omega arith)

close_account-eq-ok :
    (budget state : String) (require_settled : Bool) (now : ℕ) (a : Account) (db out : Database)
    → close_account budget state require_settled now a db ≡ ok out
    → (account_holds (with_closed a state now) ≡ true)
      × (((amount_eq a.reserved zero_amount ≡ true)
            × (out ≡ record {
              accounts = insert budget (with_closed a state now) db.accounts;
              reservations = db.reservations;
            }))
          ⊎ (out ≡ record {
            accounts = insert budget (with_closed a state now) db.accounts;
            reservations = close_rows budget db.reservations;
          }))
unfolding close_account put_account
close_account-eq-ok budget state require_settled now a db out h = ground arith

close_account-IsLedger :
    (budget state : String) (require_settled : Bool) (now : ℕ) (a : Account) (db out : Database)
    → lookup budget db.accounts ≡ some a
    → close_account budget state require_settled now a db ≡ ok out
    → IsLedger db
    → IsLedger out
close_account-IsLedger budget state require_settled now a db out e h l =
    let (fine, ways) = close_account-eq-ok budget state require_settled now a db out h in
    let opened = reserved_sum budget a db e l in
    let spent = used_sum budget a db e l in
    elim ways [
      | inl (idle, same) ↦
          let nothing : (r : Resource) → measure r a.reserved ≡ 0 = λ r.
            ap (measure r) (amount_eq-eq a.reserved zero_amount idle) ∙ measure-zero_amount r in
          rw (same) (
            posted-IsLedger budget (with_closed a state now) db.reservations db l fine
              (λ r.
                let h1 = opened r in let h2 = nothing r in rw (measure-zero_amount) (omega arith))
              (λ r. let h1 = spent r in let h2 = nothing r in rw (measure-each) (omega arith))
              (λ other r miss. (refl, refl)))
      | inr same ↦ rw (same) (
          posted-IsLedger budget (with_closed a state now) (close_rows budget db.reservations) db l
            fine (λ r. measure-zero_amount r ∙ sym (close_rows_open budget r db.reservations))
            (λ r.
              let moved = close_rows_spent budget r db.reservations in
              let h1 = opened r in let h2 = spent r in rw (measure-each) (omega arith))
            (λ other r miss. close_rows_other budget other r db.reservations miss))
    ]

pub close_run_budget-IsLedger :
    (budget state : String) (require_settled : Bool) (now : ℕ) (db out : Database)
    → close_run_budget budget state require_settled now db ≡ ok out
    → IsLedger db
    → IsLedger out
unfolding close_run_budget
close_run_budget-IsLedger budget state require_settled now db out h l =
    elim (Option-cases (lookup budget db.accounts)) [
      | inl gone ↦ let same : db ≡ out = ground (arith, gone) in rw (← same) l
      | inr (a, e) ↦
          let c : (db ≡ out) ⊎ (close_account budget state require_settled now a db ≡ ok out) =
            ground (arith, e) in
          elim c [
            | inl same ↦ rw (← same) l
            | inr made ↦ close_account-IsLedger budget state require_settled now a db out e made l
          ]
    ]

-- An account whose clock alone is written.
clocked-IsLedger :
    (budget : String) (a : Account) (started : Option ℕ) (now : ℕ) (db out : Database)
    → lookup budget db.accounts ≡ some a
    → put_account budget (with_clock a started now) db ≡ ok out
    → IsLedger db
    → IsLedger out
clocked-IsLedger budget a started now db out e h l =
    let (fine, same) = put_account-eq-ok budget (with_clock a started now) db h in
    rw (← same) (
      posted-IsLedger budget (with_clock a started now) db.reservations db l fine
        (reserved_sum budget a db e l) (used_sum budget a db e l) (λ other r miss. (refl, refl)))

pub start_run_budget_active-IsLedger :
    (budget : String) (now : ℕ) (db out : Database)
    → start_run_budget_active budget now db ≡ ok out
    → IsLedger db
    → IsLedger out
unfolding start_run_budget_active
start_run_budget_active-IsLedger budget now db out h l =
    elim (Option-cases (lookup budget db.accounts)) [
      | inl gone ↦ let same : db ≡ out = ground (arith, gone) in rw (← same) l
      | inr (a, e) ↦
          let made : put_account budget (with_clock a (some now) now) db ≡ ok out =
            ground (arith, e) in
          clocked-IsLedger budget a (some now) now db out e made l
    ]

pub stop_run_budget_active-IsLedger :
    (budget : String) (now : ℕ) (db out : Database)
    → stop_run_budget_active budget now db ≡ ok out
    → IsLedger db
    → IsLedger out
unfolding stop_run_budget_active
stop_run_budget_active-IsLedger budget now db out h l =
    elim (Option-cases (lookup budget db.accounts)) [
      | inl gone ↦ let same : db ≡ out = ground (arith, gone) in rw (← same) l
      | inr (a, e) ↦
          let made : put_account budget (with_clock a none now) db ≡ ok out = ground (arith, e) in
          clocked-IsLedger budget a none now db out e made l
    ]
