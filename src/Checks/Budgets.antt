-- ===== src/Checks/Budgets.antt =====
-- Tests of the budgets of runs.
use yu_feng.Base.{true, [], ◌∷◌, List, none, some, ◌≡◌, refl, ◌≤◌, ◌+◌, ◌↔◌}
use yu_feng.Base.Assoc.{lookup, insert}
use yu_feng.Base.Result.{ok}
use yu_feng.Brain.Budget.Amounts.{
  Amount, Resource, add_amount, amount_within, budget_fits, measure, valid_amount, zero_amount,
}
use yu_feng.Brain.Budget.Tables.{
  Account, Database, account_holds, current_active_millis, find_key, known_state, put_account,
  put_reservation, reservation_holds,
}
use yu_feng.Brain.Budget.Reserve.{
  limit_of_calls, new_account, new_reservation, reserve_found, reserve_new, reserve_run_budget,
  with_reserved,
}
use yu_feng.Brain.Budget.Settle.{settle_row, settle_run_budget, settled_as, with_settled}
use yu_feng.Brain.Budget.Ledger.{IsLedger}
use yu_feng.Brain.Budget.Runs.{
  BudgetCall, close, create, empty_database, reserve, settle, transactions, transactions-IsLedger,
}
use yu_feng.Brain.Budget.Replays.{reserve_run_budget_again, settle_run_budget_again}
use yu_feng.Brain.Budget.Admission.{IsReady, reserve_run_budget_iff}

abbrev one_step : Amount
one_step = record zero_amount { steps = 1 }

abbrev test_account : Account
test_account = new_account "run" 2 60000 0

abbrev test_database : Database
test_database = record { accounts = ("b", test_account) ∷ []; reservations = [] }

abbrev reserved_database : Database
reserved_database = record {
  accounts = ("b", with_reserved test_account one_step 7) ∷ [];
  reservations = ("r1", new_reservation "b" "step" "w1" one_step) ∷ [];
}

abbrev settled_database : Database
settled_database = record {
  accounts = ("b", with_settled (with_reserved test_account one_step 7) one_step one_step 9) ∷ [];
  reservations =
      ("r1", settled_as (new_reservation "b" "step" "w1" one_step) "settled" one_step) ∷ [];
}

abbrev test_calls : List BudgetCall
test_calls =
    create "b" "run" 2 60000 0
    ∷ reserve (some "r1") "b" "step" "w1" one_step 7
    ∷ settle "r1" "settled" one_step 9
    ∷ close "b" "completed" true 10
    ∷ []

transactions-IsLedger_example : IsLedger (transactions test_calls empty_database)
transactions-IsLedger_example = transactions-IsLedger test_calls

reserved_now :
    reserve_run_budget (some "r1") "b" "step" "w1" one_step 7 test_database
    ≡ ok (reserved_database, "r1")
unfolding reserve_run_budget reserve_found reserve_new find_key lookup insert valid_amount
    budget_fits add_amount put_account put_reservation account_holds reservation_holds known_state
    current_active_millis limit_of_calls
reserved_now = refl

reserve_run_budget_again_example :
    reserve_run_budget none "b" "step" "w1" one_step 99 reserved_database
    ≡ ok (reserved_database, "r1")
reserve_run_budget_again_example =
    reserve_run_budget_again (some "r1") none "b" "step" "w1" one_step 7 99 test_database
      reserved_database "r1" reserved_now

settled_now : settle_run_budget "r1" "settled" one_step 9 reserved_database ≡ ok settled_database
unfolding settle_run_budget settle_row lookup insert valid_amount amount_within put_account
    put_reservation account_holds reservation_holds known_state current_active_millis limit_of_calls
settled_now = refl

settle_run_budget_again_example :
    settle_run_budget "r1" "settled" one_step 99 settled_database ≡ ok settled_database
settle_run_budget_again_example =
    settle_run_budget_again "r1" "settled" one_step 9 99 reserved_database settled_database
      settled_now

test_request-IsReady : IsReady "r1" "b" "step" "w1" one_step 7 test_account test_database
unfolding lookup find_key account_holds reservation_holds known_state valid_amount
    current_active_millis limit_of_calls
test_request-IsReady = record {
  named = refl;
  account = refl;
  row_holds = refl;
  new_key = refl;
  new_id = refl;
  runs = refl;
  account_fine = refl;
  limit_fine = refl;
}

reserve_run_budget_iff_example :
    ((out : Database) × (reserve_run_budget (some "r1") "b" "step" "w1" one_step 7 test_database
        ≡ ok (out, "r1")))
    ↔ ((r : Resource)
        → measure r test_account.used + measure r test_account.reserved + measure r one_step
          ≤ measure r test_account.limit)
reserve_run_budget_iff_example =
    reserve_run_budget_iff "r1" "b" "step" "w1" one_step 7 test_account test_database
      test_request-IsReady
