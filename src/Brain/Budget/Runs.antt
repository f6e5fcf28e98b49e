-- ===== src/Brain/Budget/Runs.antt =====
-- Any sequence of calls of the functions of lib/brain/run_budget.go, each in a transaction of its
-- own.
use yu_feng.Base.{ℕ, String, ◌≡◌, refl, Bool, Option, List, [], ◌∷◌, arith}
use yu_feng.Base.Assoc.{lookup, total}
use yu_feng.Base.Result.{Result, ok, err}
use yu_feng.Brain.Budget.Amounts.{Amount}
use yu_feng.Brain.Budget.Tables.{Database, BudgetError}
use yu_feng.Brain.Budget.Reserve.{create_run_budget_account, reserve_run_budget}
use yu_feng.Brain.Budget.Settle.{
  settle_run_budget, settle_run_budget_full, settle_run_budget_by_key, close_run_budget,
  start_run_budget_active, stop_run_budget_active,
}
use yu_feng.Brain.Budget.Ledger.{IsLedger}
use yu_feng.Brain.Budget.ReserveKept.{
  create_run_budget_account-IsLedger, reserve_run_budget-IsLedger,
}
use yu_feng.Brain.Budget.SettleKept.{
  settle_run_budget-IsLedger, settle_run_budget_by_key-IsLedger, settle_run_budget_full-IsLedger,
}
use yu_feng.Brain.Budget.CloseKept.{
  close_run_budget-IsLedger, start_run_budget_active-IsLedger, stop_run_budget_active-IsLedger,
}

-- A call with its arguments, the identifier that is drawn and the time that the clock shows.
pub data BudgetCall : Type 0 where
  create : String → String → ℕ → ℕ → ℕ → BudgetCall
  reserve : Option String → String → String → String → Amount → ℕ → BudgetCall
  settle : String → String → Amount → ℕ → BudgetCall
  settle_full : String → String → ℕ → BudgetCall
  settle_by_key : String → String → String → String → Amount → ℕ → BudgetCall
  close : String → String → Bool → ℕ → BudgetCall
  start_clock : String → ℕ → BudgetCall
  stop_clock : String → ℕ → BudgetCall

-- A transaction that fails is rolled back.
abbrev pub rolled_back : Database → Result BudgetError Database → Database
rolled_back db (ok out) = out
rolled_back db (err e) = db

abbrev pub forget_id : Result BudgetError (Database × String) → Result BudgetError Database
forget_id (ok (out, id)) = ok out
forget_id (err e) = err e

unfoldable pub attempt : BudgetCall → Database → Result BudgetError Database
attempt (create budget run calls ttl now) db = create_run_budget_account budget run calls ttl now db
attempt (reserve fresh budget kind key amount now) db =
    forget_id (reserve_run_budget fresh budget kind key amount now db)
attempt (settle id state actual now) db = settle_run_budget id state actual now db
attempt (settle_full id state now) db = settle_run_budget_full id state now db
attempt (settle_by_key budget kind key state actual now) db =
    settle_run_budget_by_key budget kind key state actual now db
attempt (close budget state require_settled now) db =
    close_run_budget budget state require_settled now db
attempt (start_clock budget now) db = start_run_budget_active budget now db
attempt (stop_clock budget now) db = stop_run_budget_active budget now db

unfoldable pub transactions : List BudgetCall → Database → Database
transactions [] db = db
transactions (call ∷ calls) db = transactions calls (rolled_back db (attempt call db))

abbrev pub empty_database : Database
empty_database = record { accounts = []; reservations = [] }

empty_database-IsLedger : IsLedger empty_database
unfolding lookup total
empty_database-IsLedger = record {
  reserved = λ budget r. refl;
  used = λ budget r. refl;
  bounded = λ budget r. omega arith;
}

reserved_call :
    (result : Result BudgetError (Database × String)) (db : Database)
    → ((out : Database) (id : String) → result ≡ ok (out, id) → IsLedger out)
    → IsLedger db
    → IsLedger (rolled_back db (forget_id result))
reserved_call (ok (out, id)) db h l = h out id refl
reserved_call (err e) db h l = l

kept_call :
    (result : Result BudgetError Database) (db : Database)
    → ((out : Database) → result ≡ ok out → IsLedger out)
    → IsLedger db
    → IsLedger (rolled_back db result)
kept_call (ok out) db h l = h out refl
kept_call (err e) db h l = l

attempt-IsLedger :
    (call : BudgetCall) (db : Database) → IsLedger db → IsLedger (rolled_back db (attempt call db))
unfolding attempt
attempt-IsLedger (create budget run calls ttl now) db l =
    kept_call (create_run_budget_account budget run calls ttl now db) db
      (λ out h. create_run_budget_account-IsLedger budget run calls ttl now db out h l) l
attempt-IsLedger (reserve fresh budget kind key amount now) db l =
    reserved_call (reserve_run_budget fresh budget kind key amount now db) db
      (λ out id h. reserve_run_budget-IsLedger fresh budget kind key amount now db out id h l) l
attempt-IsLedger (settle id state actual now) db l =
    kept_call (settle_run_budget id state actual now db) db
      (λ out h. settle_run_budget-IsLedger id state actual now db out h l) l
attempt-IsLedger (settle_full id state now) db l =
    kept_call (settle_run_budget_full id state now db) db
      (λ out h. settle_run_budget_full-IsLedger id state now db out h l) l
attempt-IsLedger (settle_by_key budget kind key state actual now) db l =
    kept_call (settle_run_budget_by_key budget kind key state actual now db) db
      (λ out h. settle_run_budget_by_key-IsLedger budget kind key state actual now db out h l) l
attempt-IsLedger (close budget state require_settled now) db l =
    kept_call (close_run_budget budget state require_settled now db) db
      (λ out h. close_run_budget-IsLedger budget state require_settled now db out h l) l
attempt-IsLedger (start_clock budget now) db l =
    kept_call (start_run_budget_active budget now db) db
      (λ out h. start_run_budget_active-IsLedger budget now db out h l) l
attempt-IsLedger (stop_clock budget now) db l =
    kept_call (stop_run_budget_active budget now db) db
      (λ out h. stop_run_budget_active-IsLedger budget now db out h l) l

transactions_from :
    (calls : List BudgetCall) (db : Database) → IsLedger db → IsLedger (transactions calls db)
unfolding transactions
transactions_from [] db l = l
transactions_from (call ∷ calls) db l =
    transactions_from calls (rolled_back db (attempt call db)) (attempt-IsLedger call db l)

-- Whatever is called in whatever order, from the empty tables on: for every resource each account
-- has reserved the sum of its open reservations, has used the sum of what its settled ones took,
-- and both together are within its limit.
pub transactions-IsLedger : (calls : List BudgetCall) → IsLedger (transactions calls empty_database)
transactions-IsLedger calls = transactions_from calls empty_database empty_database-IsLedger
