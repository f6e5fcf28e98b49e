-- ===== src/Brain/Budget/SettleKept.antt =====
-- Settling a reservation, of lib/brain/run_budget.go, keeps the ledger.
use yu_feng.Base.{
  ℕ, String, ◌⊎◌, ◌≡◌, refl, true, false, [], ◌∷◌, some, inl, inr, leb, str_eq, eq_iff, arith,
  Bool-cases, Option-cases,
}
use yu_feng.Base.Assoc.{lookup, insert, total-insert}
use yu_feng.Base.Result.{ok}
use yu_feng.Brain.Budget.Amounts.{Amount, measure, measure-each, all_of, all_of-measure, leb-le}
use yu_feng.Brain.Budget.Tables.{
  Account, Reservation, Database, account_holds, reservation_holds, put_account, put_reservation,
  find_key, one_of,
}
use yu_feng.Brain.Budget.Settle.{
  settle_run_budget_full, settle_run_budget_by_key, settle_row, settled_as, with_settled,
  settle_run_budget,
}
use yu_feng.Brain.Budget.Ledger.{
  open_amount_own, spent_amount_open, open_amount_settled, spent_amount_own, IsLedger, open_amount,
  spent_amount, open_amount_other, spent_amount_other, posted-IsLedger, reserved_sum, used_sum,
}

-- A settlement that moved something: its row was open, and both rows hold as they were written.
settle_row-eq-ok :
    (id state : String) (actual : Amount) (now : ℕ) (row : Reservation) (a : Account)
    (db out : Database)
    → settle_row id state actual now row a db ≡ ok out
    → (db ≡ out)
      ⊎ ((str_eq row.state "reserved" ≡ true)
          × (all_of leb row.amount a.reserved ≡ true)
          × (account_holds (with_settled a row.amount actual now) ≡ true)
          × (reservation_holds (settled_as row state actual) ≡ true)
          × (out ≡ record {
            accounts = insert row.budget_id (with_settled a row.amount actual now) db.accounts;
            reservations = insert id (settled_as row state actual) db.reservations;
          }))
unfolding settle_row put_account put_reservation
settle_row-eq-ok id state actual now row a db out h = ground arith

settle_row-IsLedger :
    (id state : String) (actual : Amount) (now : ℕ) (row : Reservation) (a : Account)
    (db out : Database)
    → lookup id db.reservations ≡ some row
    → lookup row.budget_id db.accounts ≡ some a
    → str_eq state "reserved" ≡ false
    → settle_row id state actual now row a db ≡ ok out
    → IsLedger db
    → IsLedger out
settle_row-IsLedger id state actual now row a db out e f done h l =
    elim (settle_row-eq-ok id state actual now row a db out h) [
      | inl same ↦ rw (← same) l
      | inr (open_row, enough, fine, _, same) ↦
          let new = settled_as row state actual in
          let rows = insert id new db.reservations in
          rw (same) (
            posted-IsLedger row.budget_id (with_settled a row.amount actual now) rows db l fine
              (λ r.
                let before = reserved_sum row.budget_id a db f l r in
                let moved =
                  total-insert (open_amount row.budget_id r) id row new db.reservations e in
                let taken = open_amount_own r row open_row in
                let none_left = open_amount_settled row.budget_id r new done in
                let le =
                  leb-le (measure r row.amount) (measure r a.reserved)
                    (all_of-measure r leb row.amount a.reserved enough) in
                rw (measure-each) (omega arith))
              (λ r.
                let before = used_sum row.budget_id a db f l r in
                let moved =
                  total-insert (spent_amount row.budget_id r) id row new db.reservations e in
                let taken = spent_amount_own r new done in
                let none_left = spent_amount_open row.budget_id r row open_row in
                rw (measure-each) (omega arith))
              (λ other r miss.
                let moved = total-insert (open_amount other r) id row new db.reservations e in
                let still = total-insert (spent_amount other r) id row new db.reservations e in
                let h1 = open_amount_other row.budget_id other r row refl miss in
                let h2 = open_amount_other row.budget_id other r new refl miss in
                let h3 = spent_amount_other row.budget_id other r row refl miss in
                let h4 = spent_amount_other row.budget_id other r new refl miss in
                (omega arith, omega arith)))
    ]

pub settled_state :
    (state : String)
    → one_of state ("settled" ∷ "outcome_unknown" ∷ []) ≡ true
    → str_eq state "reserved" ≡ false
settled_state state h = elim (Bool-cases (str_eq state "settled")) [
  | inl e ↦
      let same : state ≡ "settled" = ground (arith, e, eq_iff state "settled") in rw (same) refl
  | inr miss ↦
      let e : str_eq state "outcome_unknown" ≡ true = ground (arith, miss) in
      let same : state ≡ "outcome_unknown" = ground (arith, e, eq_iff state "outcome_unknown") in
      rw (same) refl
]

pub settle_run_budget-IsLedger :
    (id state : String) (actual : Amount) (now : ℕ) (db out : Database)
    → settle_run_budget id state actual now db ≡ ok out
    → IsLedger db
    → IsLedger out
unfolding settle_run_budget
settle_run_budget-IsLedger id state actual now db out h l =
    elim (Option-cases (lookup id db.reservations)) [
      | inl gone ↦ let same : db ≡ out = ground (arith, gone) in rw (← same) l
      | inr (row, e) ↦ elim (Option-cases (lookup row.budget_id db.accounts)) [
        | inl gone ↦ let same : db ≡ out = ground (arith, gone, e) in rw (← same) l
        | inr (a, f) ↦
            let c : (db ≡ out)
                ⊎ ((one_of state ("settled" ∷ "outcome_unknown" ∷ []) ≡ true)
                    × (settle_row id state actual now row a db ≡ ok out)) =
              ground (arith, e, f) in
            elim c [
              | inl same ↦ rw (← same) l
              | inr (known, made) ↦
                  settle_row-IsLedger id state actual now row a db out e f
                    (settled_state state known) made l
            ]
      ]
    ]

pub settle_run_budget_full-IsLedger :
    (id state : String) (now : ℕ) (db out : Database)
    → settle_run_budget_full id state now db ≡ ok out
    → IsLedger db
    → IsLedger out
unfolding settle_run_budget_full
settle_run_budget_full-IsLedger id state now db out h l =
    elim (Option-cases (lookup id db.reservations)) [
      | inl gone ↦ let same : db ≡ out = ground (arith, gone) in rw (← same) l
      | inr (row, e) ↦
          let c : (db ≡ out) ⊎ (settle_run_budget id state row.amount now db ≡ ok out) =
            ground (arith, e) in
          elim c [
            | inl same ↦ rw (← same) l
            | inr made ↦ settle_run_budget-IsLedger id state row.amount now db out made l
          ]
    ]

pub settle_run_budget_by_key-IsLedger :
    (budget kind key state : String) (actual : Amount) (now : ℕ) (db out : Database)
    → settle_run_budget_by_key budget kind key state actual now db ≡ ok out
    → IsLedger db
    → IsLedger out
unfolding settle_run_budget_by_key
settle_run_budget_by_key-IsLedger budget kind key state actual now db out h l =
    elim (Option-cases (find_key budget kind key db.reservations)) [
      | inl gone ↦ let same : db ≡ out = ground (arith, gone) in rw (← same) l
      | inr ((id, row), e) ↦
          let c : (db ≡ out) ⊎ (settle_run_budget id state actual now db ≡ ok out) =
            ground (arith, e) in
          elim c [
            | inl same ↦ rw (← same) l
            | inr made ↦ settle_run_budget-IsLedger id state actual now db out made l
          ]
    ]
