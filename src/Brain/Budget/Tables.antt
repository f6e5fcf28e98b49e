-- ===== src/Brain/Budget/Tables.antt =====
-- The tables of lib/store/migrations/00030_run_budget_accounts.sql as lib/brain/run_budget.go reads
-- and writes them, with their constraints. Times and durations are in microseconds, the precision of
-- timestamptz. A query that fails by itself and the reference of an account to its run are left out.
use yu_feng.Base.{
  ℕ, String, Bool, not, ◌&&◌, ◌+◌, ◌-◌, ◌/◌, List, [], ◌∷◌, Option, none, some, ltb, leb, any,
  str_eq, if◌then◌else◌,
}
use yu_feng.Base.Assoc.{Assoc, insert}
use yu_feng.Base.Result.{Result, ok, err}
use yu_feng.Brain.Budget.Amounts.{Amount, all_of, each, valid_amount}

-- A row of run_budget_accounts, filed under its budget_id.
pub record Account : Type 0 where
  pub run_id : String
  pub state : String
  pub limit : Amount
  pub used : Amount
  pub reserved : Amount
  pub max_active_millis : ℕ
  pub active_millis_used : ℕ
  pub active_started_at : Option ℕ
  pub execution_deadline : ℕ

-- A row of run_budget_reservations, filed under its reservation_id.
pub record Reservation : Type 0 where
  pub budget_id : String
  pub kind : String
  pub request_key : String
  pub state : String
  pub amount : Amount
  pub actual : Amount

pub record Database : Type 0 where
  pub accounts : Assoc Account
  pub reservations : Assoc Reservation

-- `constraint` is what the database answers where a row would break a constraint of its table.
pub data BudgetError : Type 0 where
  limits_invalid reservation_invalid reservation_changed exhausted no_id no_rows : BudgetError
  state_invalid settlement_invalid settlement_changed exceeds_reservation unsettled : BudgetError
  constraint : BudgetError

abbrev pub one_of : String → List String → Bool
one_of s names = any (str_eq s) names

unfoldable pub known_state : String → Bool
known_state s =
    one_of s ("active" ∷ "completed" ∷ "failed" ∷ "cancelled" ∷ "expired" ∷ "outcome_unknown" ∷ [])

-- The constraints of an account, and of a reservation, as the database checks them.
unfoldable pub account_holds : Account → Bool
account_holds a =
    known_state a.state
    && valid_amount a.used
    && valid_amount a.reserved
    && all_of leb (each (λ x y. x + y) a.used a.reserved) a.limit

unfoldable pub reservation_holds : Reservation → Bool
reservation_holds r =
    one_of r.kind ("step" ∷ "model" ∷ "tool" ∷ [])
    && one_of r.state ("reserved" ∷ "settled" ∷ "outcome_unknown" ∷ [])
    && valid_amount r.amount
    && valid_amount r.actual
    && all_of leb r.actual r.amount

unfoldable pub put_account : String → Account → Database → Result BudgetError Database
put_account id a db =
    if account_holds a
    then ok (record { accounts = insert id a db.accounts; reservations = db.reservations })
    else err constraint

unfoldable pub put_reservation : String → Reservation → Database → Result BudgetError Database
put_reservation id r db =
    if reservation_holds r
    then ok (record { accounts = db.accounts; reservations = insert id r db.reservations })
    else err constraint

abbrev pub same_key : String → String → String → Reservation → Bool
same_key budget kind key r =
    str_eq r.budget_id budget && str_eq r.kind kind && str_eq r.request_key key

-- The reservation of a budget with a kind and a request key.
unfoldable pub find_key :
    String → String → String → Assoc Reservation → Option (String × Reservation)
find_key budget kind key [] = none
find_key budget kind key ((id, r) ∷ rows) =
    if same_key budget kind key r then some (id, r) else find_key budget kind key rows

-- The budget that an account of the run has.
unfoldable pub find_run : String → Assoc Account → Option String
find_run run [] = none
find_run run ((id, a) ∷ rows) = if str_eq a.run_id run then some id else find_run run rows

unfoldable pub current_active_millis : Account → ℕ → ℕ
current_active_millis a now = elim a.active_started_at [
  | none ↦ a.active_millis_used
  | some started ↦
      if ltb started now
      then a.active_millis_used + (now - started) / 1000
      else a.active_millis_used
]

-- `activeStarted`: a clock that runs goes on from now.
abbrev pub restarted : Option ℕ → ℕ → Option ℕ
restarted none now = none
restarted (some started) now = some now

abbrev pub may_run : Account → ℕ → Bool
may_run a now =
    str_eq a.state "active"
    && ltb now a.execution_deadline
    && not (leb a.max_active_millis (current_active_millis a now))
