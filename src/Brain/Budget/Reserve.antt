-- ===== src/Brain/Budget/Reserve.antt =====
-- Opening an account and reserving from it, of lib/brain/run_budget.go. The functions run in a
-- transaction of their caller, so an error leaves the tables as they were. `calls` and `ttl` are 0
-- where the source's are not positive; `fresh` is the identifier that newID draws, if it does.
use yu_feng.Base.{
  ℕ, String, Bool, not, ◌&&◌, ◌||◌, ◌+◌, ◌*◌, ◌/◌, ◌%◌, ◌^◌, Option, none, some, ltb, leb, is_empty,
  is_some, if◌then◌else◌,
}
use yu_feng.Base.Assoc.{lookup}
use yu_feng.Base.Result.{Result, ok, err, ◌>>=◌}
use yu_feng.Brain.Budget.Amounts.{
  Amount, all_of, each, zero_amount, amount_eq, valid_amount, add_amount, budget_fits,
}
use yu_feng.Brain.Budget.Tables.{
  Account, Reservation, Database, BudgetError, limits_invalid, reservation_invalid,
  reservation_changed, exhausted, no_id, constraint, put_account, put_reservation, find_key,
  find_run, current_active_millis, restarted, may_run,
}

-- The bounds on a new account: `bigint` and greater than zero.
abbrev positive_bigint : ℕ → ℕ → Bool
positive_bigint _ x = ltb 0 x && ltb x (2 ^ 63)

-- What `calls` of each kind come to at most, wrapped around as int64.
unfoldable pub limit_of_calls : ℕ → Amount
limit_of_calls calls = record {
  steps = calls;
  model_calls = calls;
  input_tokens = (calls * 262144) % 2 ^ 64;
  output_tokens = (calls * 1024) % 2 ^ 64;
  tool_calls = calls;
  tool_result_bytes = (calls * 1048576) % 2 ^ 64;
  cost_microunits = (calls * 1000000) % 2 ^ 64;
}

abbrev pub new_account : String → ℕ → ℕ → ℕ → Account
new_account run calls ttl now = record {
  run_id = run;
  state = "active";
  limit = limit_of_calls calls;
  used = zero_amount;
  reserved = zero_amount;
  max_active_millis = ttl / 1000;
  active_millis_used = 0;
  active_started_at = none;
  execution_deadline = now + ttl;
}

unfoldable pub create_run_budget_account :
    String → String → ℕ → ℕ → ℕ → Database → Result BudgetError Database
create_run_budget_account budget run calls ttl now db =
    if (leb calls 0) || (leb ttl 0)
    then err limits_invalid
    else if is_some (lookup budget db.accounts)
        || is_some (find_run run db.accounts)
        || not (all_of positive_bigint zero_amount (limit_of_calls calls) && ltb 0 (ttl / 1000))
    then err constraint
    else put_account budget (new_account run calls ttl now) db

abbrev pub new_reservation : String → String → String → Amount → Reservation
new_reservation budget kind key amount = record {
  budget_id = budget;
  kind = kind;
  request_key = key;
  state = "reserved";
  amount = amount;
  actual = zero_amount;
}

abbrev pub with_reserved : Account → Amount → ℕ → Account
with_reserved a amount now = record {
  run_id = a.run_id;
  state = a.state;
  limit = a.limit;
  used = a.used;
  reserved = each (λ x y. x + y) a.reserved amount;
  max_active_millis = a.max_active_millis;
  active_millis_used = current_active_millis a now;
  active_started_at = restarted a.active_started_at now;
  execution_deadline = a.execution_deadline;
}

-- A reservation that is not there yet: `fresh` is its identifier, which no row may have.
unfoldable pub reserve_new :
    Option String
    → String
    → String
    → String
    → Amount
    → ℕ
    → Account
    → Database
    → Result BudgetError (Database × String)
reserve_new fresh budget kind key amount now a db =
    if not (may_run a now) || not (budget_fits a.limit (add_amount a.used a.reserved) amount)
    then err exhausted
    else elim fresh [
      | none ↦ err no_id
      | some id ↦
          if is_some (lookup id db.reservations)
          then err constraint
          else put_reservation id (new_reservation budget kind key amount) db >>= λ db1.
              put_account budget (with_reserved a amount now) db1 >>= λ db2. ok (db2, id)
    ]

unfoldable pub reserve_found :
    Option (String × Reservation)
    → Option String
    → String
    → String
    → String
    → Amount
    → ℕ
    → Account
    → Database
    → Result BudgetError (Database × String)
reserve_found (some (id, r)) fresh budget kind key amount now a db =
    if amount_eq r.amount amount then ok (db, id) else err reservation_changed
reserve_found none fresh budget kind key amount now a db =
    reserve_new fresh budget kind key amount now a db

unfoldable pub reserve_run_budget :
    Option String
    → String
    → String
    → String
    → Amount
    → ℕ
    → Database
    → Result BudgetError (Database × String)
reserve_run_budget fresh budget kind key amount now db =
    if is_empty budget || is_empty key
    then ok (db, "")
    else if not (valid_amount amount)
    then err reservation_invalid
    else elim (lookup budget db.accounts) [
      | none ↦ ok (db, "")
      | some a ↦
          reserve_found (find_key budget kind key db.reservations) fresh budget kind key amount now
            a db
    ]
