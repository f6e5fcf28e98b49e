-- ===== src/Brain/Budget/ReserveKept.antt =====
-- Opening an account and reserving from it, of lib/brain/run_budget.go, keep the ledger.
use yu_feng.Base.{
  ℕ, String, ◌⊎◌, ◌≡◌, refl, ◌∙◌, sym, ap, true, Option, none, some, inl, inr, eq_iff, arith,
  Option-cases,
}
use yu_feng.Base.Assoc.{lookup, insert, total-insert_new}
use yu_feng.Base.Result.{ok}
use yu_feng.Brain.Budget.Amounts.{Amount, Resource, measure, measure-each, measure-zero_amount}
use yu_feng.Brain.Budget.Tables.{
  Account, Reservation, Database, account_holds, put_account, put_reservation, find_key,
}
use yu_feng.Brain.Budget.Reserve.{
  create_run_budget_account, new_account, new_reservation, reserve_found, reserve_new,
  reserve_run_budget, with_reserved,
}
use yu_feng.Brain.Budget.Ledger.{
  reserved_of, used_of, IsLedger, open_amount, spent_amount, open_amount_other, posted-IsLedger,
  reserved_sum, used_sum,
}

-- What a new reservation takes that was made.
reserve_new-eq-ok :
    (id budget kind key : String) (amount : Amount) (now : ℕ) (a : Account) (db out : Database)
    (named : String)
    → reserve_new (some id) budget kind key amount now a db ≡ ok (out, named)
    → (lookup id db.reservations ≡ none)
      × (account_holds (with_reserved a amount now) ≡ true)
      × (out ≡ record {
        accounts = insert budget (with_reserved a amount now) db.accounts;
        reservations = insert id (new_reservation budget kind key amount) db.reservations;
      })
unfolding reserve_new put_account put_reservation
reserve_new-eq-ok id budget kind key amount now a db out named h = ground arith

open_amount_new :
    (budget kind key : String) (amount : Amount) (r : Resource)
    → open_amount budget r (new_reservation budget kind key amount) ≡ measure r amount
unfolding open_amount
open_amount_new budget kind key amount r = ground (arith, eq_iff budget budget)

spent_amount_new :
    (budget other kind key : String) (amount : Amount) (r : Resource)
    → spent_amount other r (new_reservation budget kind key amount) ≡ 0
unfolding spent_amount
spent_amount_new budget other kind key amount r = ground (arith)

reserve_new-IsLedger :
    (fresh : Option String) (budget kind key : String) (amount : Amount) (now : ℕ) (a : Account)
    (db out : Database) (named : String)
    → lookup budget db.accounts ≡ some a
    → reserve_new fresh budget kind key amount now a db ≡ ok (out, named)
    → IsLedger db
    → IsLedger out
reserve_new-IsLedger none budget kind key amount now a db out named e h l =
    unfold reserve_new in ground arith
reserve_new-IsLedger (some id) budget kind key amount now a db out named e h l =
    let (free, fine, same) = reserve_new-eq-ok id budget kind key amount now a db out named h in
    let row = new_reservation budget kind key amount in
    let rows = insert id row db.reservations in
    rw (same) (
      posted-IsLedger budget (with_reserved a amount now) rows db l fine
        (λ r.
          let before = reserved_sum budget a db e l r in
          let moved = total-insert_new (open_amount budget r) id row db.reservations free in
          rw (measure-each, moved, open_amount_new) (omega arith))
        (λ r.
          let before = used_sum budget a db e l r in
          let moved = total-insert_new (spent_amount budget r) id row db.reservations free in
          rw (moved, spent_amount_new) (omega arith))
        (λ other r miss.
          let moved = total-insert_new (open_amount other r) id row db.reservations free in
          let still = total-insert_new (spent_amount other r) id row db.reservations free in
          (
            rw (moved, open_amount_other budget other r row refl miss) (omega arith),
            rw (still, spent_amount_new) (omega arith),
          )))

reserve_found-IsLedger :
    (found : Option (String × Reservation)) (fresh : Option String) (budget kind key : String)
    (amount : Amount) (now : ℕ) (a : Account) (db out : Database) (named : String)
    → lookup budget db.accounts ≡ some a
    → reserve_found found fresh budget kind key amount now a db ≡ ok (out, named)
    → IsLedger db
    → IsLedger out
unfolding reserve_found
reserve_found-IsLedger none fresh budget kind key amount now a db out named e h l =
    reserve_new-IsLedger fresh budget kind key amount now a db out named e h l
reserve_found-IsLedger (some (id, row)) fresh budget kind key amount now a db out named e h l =
    let same : db ≡ out = ground arith in rw (← same) l

pub reserve_run_budget-IsLedger :
    (fresh : Option String) (budget kind key : String) (amount : Amount) (now : ℕ)
    (db out : Database) (named : String)
    → reserve_run_budget fresh budget kind key amount now db ≡ ok (out, named)
    → IsLedger db
    → IsLedger out
unfolding reserve_run_budget
reserve_run_budget-IsLedger fresh budget kind key amount now db out named h l =
    elim (Option-cases (lookup budget db.accounts)) [
      | inl gone ↦ let same : db ≡ out = ground (arith, gone) in rw (← same) l
      | inr (a, e) ↦
          let found = find_key budget kind key db.reservations in
          let c : (db ≡ out)
              ⊎ (reserve_found found fresh budget kind key amount now a db ≡ ok (out, named)) =
            ground (arith, e) in
          elim c [
            | inl same ↦ rw (← same) l
            | inr made ↦
                reserve_found-IsLedger found fresh budget kind key amount now a db out named e made
                  l
          ]
    ]

new_account-eq-ok :
    (budget run : String) (calls ttl now : ℕ) (db out : Database)
    → create_run_budget_account budget run calls ttl now db ≡ ok out
    → (lookup budget db.accounts ≡ none)
      × (account_holds (new_account run calls ttl now) ≡ true)
      × (out ≡ record {
        accounts = insert budget (new_account run calls ttl now) db.accounts;
        reservations = db.reservations;
      })
unfolding create_run_budget_account put_account
new_account-eq-ok budget run calls ttl now db out h = ground arith

pub create_run_budget_account-IsLedger :
    (budget run : String) (calls ttl now : ℕ) (db out : Database)
    → create_run_budget_account budget run calls ttl now db ≡ ok out
    → IsLedger db
    → IsLedger out
create_run_budget_account-IsLedger budget run calls ttl now db out h l =
    let (free, fine, same) = new_account-eq-ok budget run calls ttl now db out h in
    rw (same) (
      posted-IsLedger budget (new_account run calls ttl now) db.reservations db l fine
        (λ r. measure-zero_amount r ∙ ap (reserved_of r) (sym free) ∙ l.reserved budget r)
        (λ r. measure-zero_amount r ∙ ap (used_of r) (sym free) ∙ l.used budget r)
        (λ other r miss. (refl, refl)))
