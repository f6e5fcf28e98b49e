-- ===== src/Brain/Budget/Settle.antt =====
-- Settling reservations, closing an account and its clock, of lib/brain/run_budget.go.
use yu_feng.Base.{
  ℕ, String, Bool, not, ◌&&◌, ◌+◌, ◌-◌, [], ◌∷◌, Option, none, some, leb, str_eq, is_empty,
  if◌then◌else◌,
}
use yu_feng.Base.Assoc.{Assoc, lookup}
use yu_feng.Base.Result.{Result, ok, err, ◌>>=◌}
use yu_feng.Brain.Budget.Amounts.{
  Amount, all_of, each, zero_amount, amount_eq, valid_amount, amount_within,
}
use yu_feng.Brain.Budget.Tables.{
  Account, Reservation, Database, BudgetError, exhausted, no_rows, state_invalid,
  settlement_invalid, settlement_changed, exceeds_reservation, unsettled, constraint, one_of,
  put_account, put_reservation, find_key, find_run, current_active_millis, restarted, may_run,
}

abbrev pub with_settled : Account → Amount → Amount → ℕ → Account
with_settled a amount actual now = record {
  run_id = a.run_id;
  state = a.state;
  limit = a.limit;
  used = each (λ x y. x + y) a.used actual;
  reserved = each (λ x y. x - y) a.reserved amount;
  max_active_millis = a.max_active_millis;
  active_millis_used = current_active_millis a now;
  active_started_at = restarted a.active_started_at now;
  execution_deadline = a.execution_deadline;
}

abbrev pub settled_as : Reservation → String → Amount → Reservation
settled_as r state actual = record {
  budget_id = r.budget_id;
  kind = r.kind;
  request_key = r.request_key;
  state = state;
  amount = r.amount;
  actual = actual;
}

-- A subtraction below zero breaks a constraint of the account.
unfoldable pub settle_row :
    String → String → Amount → ℕ → Reservation → Account → Database → Result BudgetError Database
settle_row id state actual now r a db =
    if not (str_eq r.state "reserved")
    then (if str_eq r.state state && amount_eq r.actual actual
        then ok db
        else err settlement_changed)
    else if not (amount_within actual r.amount)
    then err exceeds_reservation
    else if not (all_of leb r.amount a.reserved)
    then err constraint
    else put_account r.budget_id (with_settled a r.amount actual now) db >>= λ db1.
        put_reservation id (settled_as r state actual) db1

unfoldable pub settle_run_budget :
    String → String → Amount → ℕ → Database → Result BudgetError Database
settle_run_budget id state actual now db =
    if is_empty id
    then ok db
    else if not (one_of state ("settled" ∷ "outcome_unknown" ∷ []))
    then err state_invalid
    else if not (valid_amount actual)
    then err settlement_invalid
    else elim (lookup id db.reservations) [
      | none ↦ err no_rows
      | some r ↦ elim (lookup r.budget_id db.accounts) [
        | none ↦ err no_rows
        | some a ↦ settle_row id state actual now r a db
      ]
    ]

unfoldable pub settle_run_budget_full : String → String → ℕ → Database → Result BudgetError Database
settle_run_budget_full id state now db =
    if is_empty id then ok db else elim (lookup id db.reservations) [
      | none ↦ err no_rows
      | some r ↦ settle_run_budget id state r.amount now db
    ]

unfoldable pub settle_run_budget_by_key :
    String → String → String → String → Amount → ℕ → Database → Result BudgetError Database
settle_run_budget_by_key budget kind key state actual now db =
    if is_empty budget then ok db else elim (find_key budget kind key db.reservations) [
      | none ↦ ok db
      | some (id, r) ↦ settle_run_budget id state actual now db
    ]

abbrev pub closed_row : String → Reservation → Reservation
closed_row budget r =
    if str_eq r.budget_id budget && str_eq r.state "reserved"
    then settled_as r "outcome_unknown" r.amount
    else r

-- The UPDATE of every open reservation of the budget.
unfoldable pub close_rows : String → Assoc Reservation → Assoc Reservation
close_rows budget [] = []
close_rows budget ((id, r) ∷ rows) = (id, closed_row budget r) ∷ close_rows budget rows

abbrev pub with_closed : Account → String → ℕ → Account
with_closed a state now = record {
  run_id = a.run_id;
  state = state;
  limit = a.limit;
  used = each (λ x y. x + y) a.used a.reserved;
  reserved = zero_amount;
  max_active_millis = a.max_active_millis;
  active_millis_used = current_active_millis a now;
  active_started_at = none;
  execution_deadline = a.execution_deadline;
}

unfoldable pub close_account :
    String → String → Bool → ℕ → Account → Database → Result BudgetError Database
close_account budget state require_settled now a db =
    if require_settled && not (amount_eq a.reserved zero_amount)
    then err unsettled
    else put_account budget (with_closed a state now) (record {
      accounts = db.accounts;
      reservations =
          if not require_settled && not (amount_eq a.reserved zero_amount)
          then close_rows budget db.reservations
          else db.reservations;
    })

unfoldable pub close_run_budget :
    String → String → Bool → ℕ → Database → Result BudgetError Database
close_run_budget budget state require_settled now db =
    if is_empty budget then ok db else elim (lookup budget db.accounts) [
      | none ↦ ok db
      | some a ↦ close_account budget state require_settled now a db
    ]

abbrev pub with_clock : Account → Option ℕ → ℕ → Account
with_clock a started now = record {
  run_id = a.run_id;
  state = a.state;
  limit = a.limit;
  used = a.used;
  reserved = a.reserved;
  max_active_millis = a.max_active_millis;
  active_millis_used = current_active_millis a now;
  active_started_at = started;
  execution_deadline = a.execution_deadline;
}

unfoldable pub start_run_budget_active : String → ℕ → Database → Result BudgetError Database
start_run_budget_active budget now db = elim (lookup budget db.accounts) [
  | none ↦ ok db
  | some a ↦
      if may_run a now then put_account budget (with_clock a (some now) now) db else err exhausted
]

unfoldable pub stop_run_budget_active : String → ℕ → Database → Result BudgetError Database
stop_run_budget_active budget now db = elim (lookup budget db.accounts) [
  | none ↦ ok db
  | some a ↦ put_account budget (with_clock a none now) db
]

-- loadRunBudgetSnapshot: the account with its clock read.
unfoldable pub load_run_budget_snapshot : String → ℕ → Database → Option Account
load_run_budget_snapshot budget now db =
    if is_empty budget then none else elim (lookup budget db.accounts) [
      | none ↦ none
      | some a ↦ some (with_clock a a.active_started_at now)
    ]

unfoldable pub load_run_budget_for_run : String → ℕ → Database → Option Account
load_run_budget_for_run run now db = elim (find_run run db.accounts) [
  | none ↦ none
  | some budget ↦ load_run_budget_snapshot budget now db
]
