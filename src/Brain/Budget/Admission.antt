-- ===== src/Brain/Budget/Admission.antt =====
-- When lib/brain/run_budget.go admits a new reservation.
use yu_feng.Base.{
  ℕ, String, ◌≡◌, refl, sym, ◌∙◌, ◌↔◌, ◌≤◌, ◌<◌, ◌^◌, ◌+◌, true, false, ◌||◌, none, some, arith,
  is_empty, leb,
}
use yu_feng.Base.Assoc.{lookup, insert}
use yu_feng.Base.Result.{ok}
use yu_feng.Brain.Budget.Amounts.{
  Amount, Resource, all_of, all_of_every, all_of-measure, each, valid_amount, valid_amount-measure,
  budget_fits, add_amount, int64_add, int64_le, measure, measure-each, non_negative, leb-le,
}
use yu_feng.Brain.Budget.Tables.{
  Account, Database, account_holds, reservation_holds, put_account, put_reservation, find_key,
  may_run, known_state,
}
use yu_feng.Brain.Budget.Reserve.{
  new_reservation, reserve_found, reserve_new, reserve_run_budget, with_reserved,
}

sum_fits :
    (u v q l : ℕ) → u + v + q ≤ l → l < 2 ^ 63 → int64_le (int64_add (int64_add u v) q) l ≡ true
sum_fits u v q l h k = ground arith

fits_where :
    (limit used reserved amount : Amount)
    → valid_amount limit ≡ true
    → ((r : Resource) → measure r used + measure r reserved + measure r amount ≤ measure r limit)
    → budget_fits limit (add_amount used reserved) amount ≡ true
unfolding budget_fits add_amount
fits_where limit used reserved amount h fits =
    all_of_every int64_le (each int64_add (each int64_add used reserved) amount) limit (λ r.
      rw
        (
          measure-each r int64_add (each int64_add used reserved) amount,
          measure-each r int64_add used reserved,
        )
        (sum_fits (measure r used) (measure r reserved) (measure r amount) (measure r limit)
          (fits r) (valid_amount-measure limit r h)))

le-leb : (x y : ℕ) → x ≤ y → leb x y ≡ true
le-leb x y h = ground arith

lt-non_negative : (x : ℕ) → x < 2 ^ 63 → non_negative x ≡ true
lt-non_negative x h = ground arith

with_reserved_holds :
    (a : Account) (amount : Amount) (now : ℕ)
    → account_holds a ≡ true
    → valid_amount a.limit ≡ true
    → ((r : Resource)
        → measure r a.used + measure r a.reserved + measure r amount ≤ measure r a.limit)
    → account_holds (with_reserved a amount now) ≡ true
unfolding account_holds valid_amount
with_reserved_holds a amount now h k fits =
    let room =
      all_of_every leb (each (λ x y. x + y) a.used (each (λ x y. x + y) a.reserved amount)) a.limit
        (λ r.
          let fit = fits r in
          rw
            (
              measure-each r (λ x y. x + y) a.used (each (λ x y. x + y) a.reserved amount),
              measure-each r (λ x y. x + y) a.reserved amount,
            )
            (le-leb (measure r a.used + (measure r a.reserved + measure r amount))
              (measure r a.limit) (omega arith))) in
    let valid =
      all_of_every (λ x y. non_negative x) (each (λ x y. x + y) a.reserved amount)
        (each (λ x y. x + y) a.reserved amount)
        (λ r.
          let fit = fits r in
          let small = valid_amount-measure a.limit r k in
          rw (measure-each r (λ x y. x + y) a.reserved amount)
            (lt-non_negative (measure r a.reserved + measure r amount) (omega arith))) in
    let (known, used_fine) : (known_state a.state ≡ true) × (valid_amount a.used ≡ true) =
      ground arith in
    rw (known, used_fine, valid, room) refl

-- The database is ready for a reservation: its account is there, may run and holds, the request is
-- well formed, no reservation has its key, and the identifier is not taken.
pub record IsReady (id budget kind key : String) (amount : Amount) (now : ℕ) (a : Account)
    (db : Database) : Type 0 where
  pub named : is_empty budget || is_empty key ≡ false
  pub account : lookup budget db.accounts ≡ some a
  pub row_holds : reservation_holds (new_reservation budget kind key amount) ≡ true
  pub new_key : find_key budget kind key db.reservations ≡ none
  pub new_id : lookup id db.reservations ≡ none
  pub runs : may_run a now ≡ true
  pub account_fine : account_holds a ≡ true
  pub limit_fine : valid_amount a.limit ≡ true

reserve_ready :
    (id budget kind key : String) (amount : Amount) (now : ℕ) (a : Account) (db : Database)
    → IsReady id budget kind key amount now a db
    → reserve_run_budget (some id) budget kind key amount now db
      ≡ reserve_new (some id) budget kind key amount now a db
unfolding reserve_run_budget reserve_found reservation_holds
reserve_ready id budget kind key amount now a db h =
    let valid : valid_amount amount ≡ true = ground (arith, h.row_holds) in
    rw (h.named, valid, h.account, h.new_key) refl

reserve_new_fits :
    (id budget kind key : String) (amount : Amount) (now : ℕ) (a : Account) (db out : Database)
    (named : String)
    → reserve_new (some id) budget kind key amount now a db ≡ ok (out, named)
    → account_holds (with_reserved a amount now) ≡ true
unfolding reserve_new put_account put_reservation
reserve_new_fits id budget kind key amount now a db out named h = ground arith

holds_fits :
    (a : Account) (amount : Amount) (now : ℕ)
    → account_holds (with_reserved a amount now) ≡ true
    → (r : Resource)
    → measure r a.used + measure r a.reserved + measure r amount ≤ measure r a.limit
unfolding account_holds
holds_fits a amount now h r =
    let sums = each (λ x y. x + y) a.used (each (λ x y. x + y) a.reserved amount) in
    let room : all_of leb sums a.limit ≡ true = ground arith in
    let e = leb-le (measure r sums) (measure r a.limit) (all_of-measure r leb sums a.limit room) in
    let e1 = measure-each r (λ x y. x + y) a.used (each (λ x y. x + y) a.reserved amount) in
    let e2 = measure-each r (λ x y. x + y) a.reserved amount in omega arith

reserve_new_made :
    (id budget kind key : String) (amount : Amount) (now : ℕ) (a : Account) (db : Database)
    → IsReady id budget kind key amount now a db
    → budget_fits a.limit (add_amount a.used a.reserved) amount ≡ true
    → account_holds (with_reserved a amount now) ≡ true
    → (out : Database) × (reserve_new (some id) budget kind key amount now a db ≡ ok (out, id))
unfolding reserve_new put_account put_reservation
reserve_new_made id budget kind key amount now a db h room holds = (
  record {
    accounts = insert budget (with_reserved a amount now) db.accounts;
    reservations = insert id (new_reservation budget kind key amount) db.reservations;
  },
  rw (h.runs, room, h.new_id, h.row_holds, holds) refl,
)

-- Where the database is ready, a reservation is made exactly where every amount, with what is used
-- and reserved already, stays within its limit.
pub reserve_run_budget_iff :
    (id budget kind key : String) (amount : Amount) (now : ℕ) (a : Account) (db : Database)
    → IsReady id budget kind key amount now a db
    → ((out : Database) × (reserve_run_budget (some id) budget kind key amount now db
          ≡ ok (out, id)))
      ↔ ((r : Resource)
          → measure r a.used + measure r a.reserved + measure r amount ≤ measure r a.limit)
reserve_run_budget_iff id budget kind key amount now a db h =
    let same = reserve_ready id budget kind key amount now a db h in
    (
      λ (out, e).
          holds_fits a amount now
            (reserve_new_fits id budget kind key amount now a db out id (sym same ∙ e)),
      λ fits.
          let holds = with_reserved_holds a amount now h.account_fine h.limit_fine fits in
          let room = fits_where a.limit a.used a.reserved amount h.limit_fine fits in
          let made = reserve_new_made id budget kind key amount now a db h room holds in
          (made.0, same ∙ made.1),
    )
