-- ===== src/Brain/Budget/Replays.antt =====
-- Calls of lib/brain/run_budget.go that come again.
use yu_feng.Base.{
  ℕ, String, ◌≡◌, refl, ◌∙◌, ◌⊎◌, true, false, ◌&&◌, ◌||◌, Option, none, some, [], ◌∷◌, arith, inl,
  inr, str_eq, eq_iff, is_empty, Bool-cases, Option-cases, if◌then◌else◌,
}
use yu_feng.Base.Assoc.{Assoc, lookup, insert, lookup-insert}
use yu_feng.Base.Result.{ok, err}
use yu_feng.Brain.Budget.Amounts.{Amount, amount_eq, amount_eq_refl, valid_amount}
use yu_feng.Brain.Budget.Tables.{
  Account, Reservation, Database, put_account, put_reservation, find_key, same_key, one_of,
  reservation_changed,
}
use yu_feng.Brain.Budget.Reserve.{
  new_reservation, reserve_found, reserve_new, reserve_run_budget, with_reserved,
}
use yu_feng.Brain.Budget.Settle.{settle_row, settled_as, with_settled, settle_run_budget}
use yu_feng.Brain.Budget.SettleKept.{settled_state}

-- The row that is found stays found, and a new one is found where none was.
find_key-insert :
    (budget kind key id : String) (row : Reservation) (rows : Assoc Reservation)
    → find_key budget kind key rows ≡ none
    → lookup id rows ≡ none
    → same_key budget kind key row ≡ true
    → find_key budget kind key (insert id row rows) ≡ some (id, row)
unfolding find_key insert lookup
find_key-insert budget kind key id row [] h free mine = rw (mine) refl
find_key-insert budget kind key id row ((other, held) ∷ rows) h free mine =
    let later = find_key-insert budget kind key id row rows in ground arith

reserve_new_made :
    (id budget kind key : String) (amount : Amount) (now : ℕ) (a : Account) (db out : Database)
    (named : String)
    → reserve_new (some id) budget kind key amount now a db ≡ ok (out, named)
    → (named ≡ id)
      × (lookup id db.reservations ≡ none)
      × (out ≡ record {
        accounts = insert budget (with_reserved a amount now) db.accounts;
        reservations = insert id (new_reservation budget kind key amount) db.reservations;
      })
unfolding reserve_new put_account put_reservation
reserve_new_made id budget kind key amount now a db out named h = ground arith

reserve_found_again :
    (found : Option (String × Reservation)) (fresh later_fresh : Option String)
    (budget kind key : String) (amount : Amount) (now later : ℕ) (a : Account) (db out : Database)
    (named : String)
    → find_key budget kind key db.reservations ≡ found
    → lookup budget db.accounts ≡ some a
    → reserve_found found fresh budget kind key amount now a db ≡ ok (out, named)
    → (b : Account) × (lookup budget out.accounts ≡ some b)
      × (reserve_found
            (find_key budget kind key out.reservations)
            later_fresh
            budget
            kind
            key
            amount
            later
            b
            out
          ≡ ok (out, named))
unfolding reserve_found
reserve_found_again (some (id, row)) fresh later_fresh budget kind key amount now later a db out
      named f e h =
    let same : db ≡ out = ground arith in
    let again : (if amount_eq row.amount amount then ok (db, id) else err reservation_changed)
        ≡ ok (db, named) =
      ground arith in
    (a, rw (← same) e, rw (← same) (rw (f) again))
reserve_found_again none none later_fresh budget kind key amount now later a db out named f e h =
    unfold reserve_new in ground arith
reserve_found_again none (some id) later_fresh budget kind key amount now later a db out named f e
      h =
    let (same_id, free, same) = reserve_new_made id budget kind key amount now a db out named h in
    let mine : same_key budget kind key (new_reservation budget kind key amount) ≡ true =
      ground (arith, eq_iff budget budget, eq_iff kind kind, eq_iff key key) in
    let hit =
      find_key-insert budget kind key id (new_reservation budget kind key amount) db.reservations f
        free mine in
    (
      with_reserved a amount now,
      rw (same, lookup-insert) (ground (arith, eq_iff budget budget)),
      rw (same, same_id, hit) (rw (amount_eq_refl) refl),
    )

-- A reservation that was made is found again: the same call, at any later time and whatever
-- identifier is drawn, returns the same reservation and changes nothing.
pub reserve_run_budget_again :
    (fresh later_fresh : Option String) (budget kind key : String) (amount : Amount) (now later : ℕ)
    (db out : Database) (id : String)
    → reserve_run_budget fresh budget kind key amount now db ≡ ok (out, id)
    → reserve_run_budget later_fresh budget kind key amount later out ≡ ok (out, id)
unfolding reserve_run_budget
reserve_run_budget_again fresh later_fresh budget kind key amount now later db out id h =
    elim (Option-cases (lookup budget db.accounts)) [
      | inl gone ↦ ground (arith, gone)
      | inr (a, e) ↦
          let found = find_key budget kind key db.reservations in
          let c : ((is_empty budget || is_empty key ≡ true) × (id ≡ ""))
              ⊎ ((is_empty budget || is_empty key ≡ false)
                  × (valid_amount amount ≡ true)
                  × (reserve_found found fresh budget kind key amount now a db ≡ ok (out, id))) =
            ground (arith, e) in
          elim c [
            | inl (nothing, same) ↦ rw (nothing, same) refl
            | inr (some_key, valid, made) ↦
                let (b, e2, again) =
                  reserve_found_again found fresh later_fresh budget kind key amount now later a db
                    out id refl e made in
                rw (some_key, valid, e2) again
          ]
    ]

settle_run_budget-eq-ok :
    (id state : String) (actual : Amount) (now : ℕ) (db out : Database)
    → settle_run_budget id state actual now db ≡ ok out
    → (is_empty id ≡ true)
      ⊎ ((row : Reservation) × (a : Account) × (is_empty id ≡ false)
          × (one_of state ("settled" ∷ "outcome_unknown" ∷ []) ≡ true)
          × (valid_amount actual ≡ true)
          × (lookup id db.reservations ≡ some row)
          × (lookup row.budget_id db.accounts ≡ some a)
          × (settle_row id state actual now row a db ≡ ok out))
unfolding settle_run_budget
settle_run_budget-eq-ok id state actual now db out h =
    elim (Option-cases (lookup id db.reservations)) [
      | inl gone ↦ inl (ground (arith, gone))
      | inr (row, e) ↦ elim (Option-cases (lookup row.budget_id db.accounts)) [
        | inl gone ↦ inl (ground (arith, gone, e))
        | inr (a, f) ↦ elim (Bool-cases (is_empty id)) [
          | inl nothing ↦ inl nothing
          | inr some_id ↦
              let (h2, h3, made) : (one_of state ("settled" ∷ "outcome_unknown" ∷ []) ≡ true)
                  × (valid_amount actual ≡ true)
                  × (settle_row id state actual now row a db ≡ ok out) =
                ground (arith, e, f, some_id) in
              inr (row, a, some_id, h2, h3, e, f, made)
        ]
      ]
    ]

settle_row_made :
    (id state : String) (actual : Amount) (now : ℕ) (row : Reservation) (a : Account)
    (db out : Database)
    → settle_row id state actual now row a db ≡ ok out
    → ((db ≡ out)
        × (str_eq row.state "reserved" ≡ false)
        × (str_eq row.state state && amount_eq row.actual actual ≡ true))
      ⊎ (out ≡ record {
        accounts = insert row.budget_id (with_settled a row.amount actual now) db.accounts;
        reservations = insert id (settled_as row state actual) db.reservations;
      })
unfolding settle_row put_account put_reservation
settle_row_made id state actual now row a db out h = ground arith

-- What a settled row answers to the settlement that it holds.
settle_row_held :
    (id state : String) (actual : Amount) (now : ℕ) (row : Reservation) (a : Account)
    (db : Database)
    → str_eq row.state "reserved" ≡ false
    → str_eq row.state state && amount_eq row.actual actual ≡ true
    → settle_row id state actual now row a db ≡ ok db
unfolding settle_row
settle_row_held id state actual now row a db h k = rw (h, k) refl

settle_found :
    (id state : String) (actual : Amount) (now : ℕ) (row : Reservation) (a : Account)
    (db : Database)
    → is_empty id ≡ false
    → one_of state ("settled" ∷ "outcome_unknown" ∷ []) ≡ true
    → valid_amount actual ≡ true
    → lookup id db.reservations ≡ some row
    → lookup row.budget_id db.accounts ≡ some a
    → settle_run_budget id state actual now db ≡ settle_row id state actual now row a db
unfolding settle_run_budget
settle_found id state actual now row a db h1 h2 h3 e f = rw (h1, h2, h3, e, f) refl

settle_row_again :
    (id state : String) (actual : Amount) (now later : ℕ) (row : Reservation) (a : Account)
    (db out : Database)
    → is_empty id ≡ false
    → one_of state ("settled" ∷ "outcome_unknown" ∷ []) ≡ true
    → valid_amount actual ≡ true
    → lookup id db.reservations ≡ some row
    → lookup row.budget_id db.accounts ≡ some a
    → settle_row id state actual now row a db ≡ ok out
    → settle_run_budget id state actual later out ≡ ok out
settle_row_again id state actual now later row a db out h1 h2 h3 e f h =
    elim (settle_row_made id state actual now row a db out h) [
      | inl (same, closed, held) ↦ rw (← same) (
          settle_found id state actual later row a db h1 h2 h3 e f
          ∙ settle_row_held id state actual later row a db closed held)
      | inr same ↦
          let new = settled_as row state actual in
          let b = with_settled a row.amount actual now in
          rw (same) (
            settle_found id state actual later new b
              (record {
                accounts = insert row.budget_id b db.accounts;
                reservations = insert id new db.reservations;
              })
              h1 h2 h3 (rw (lookup-insert) (ground (arith, eq_iff id id)))
              (rw (lookup-insert) (ground (arith, eq_iff row.budget_id row.budget_id)))
            ∙ settle_row_held id state actual later new b
                (record {
                  accounts = insert row.budget_id b db.accounts;
                  reservations = insert id new db.reservations;
                })
                (settled_state state h2) (rw (amount_eq_refl) (ground (arith, eq_iff state state))))
    ]

-- A settlement that was made may come again, at any later time: it succeeds and changes nothing.
pub settle_run_budget_again :
    (id state : String) (actual : Amount) (now later : ℕ) (db out : Database)
    → settle_run_budget id state actual now db ≡ ok out
    → settle_run_budget id state actual later out ≡ ok out
settle_run_budget_again id state actual now later db out h =
    elim (settle_run_budget-eq-ok id state actual now db out h) [
      | inl nothing ↦ unfold settle_run_budget in rw (nothing) refl
      | inr (row, a, h1, h2, h3, e, f, made) ↦
          settle_row_again id state actual now later row a db out h1 h2 h3 e f made
    ]
