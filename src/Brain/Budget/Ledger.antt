-- ===== src/Brain/Budget/Ledger.antt =====
-- The reservations of lib/brain/run_budget.go as a ledger of the accounts.
use yu_feng.Base.{
  ℕ, String, ◌≡◌, refl, ◌∙◌, sym, ap, true, false, not, ◌&&◌, ◌+◌, ◌≤◌, Option, none, some, inl,
  inr, leb, str_eq, eq_iff, arith, if◌then◌else◌, Bool-cases,
}
use yu_feng.Base.Assoc.{Assoc, lookup, insert, lookup-insert, total}
use yu_feng.Base.Result.{ok}
use yu_feng.Brain.Budget.Amounts.{
  Resource, measure, measure-each, all_of, all_of-measure, each, leb-le,
}
use yu_feng.Brain.Budget.Tables.{Account, Reservation, Database, account_holds, put_account}

-- What a reservation takes from a budget while it is open, and what it has taken once settled.
unfoldable pub open_amount : String → Resource → Reservation → ℕ
open_amount budget r row =
    if str_eq row.budget_id budget && str_eq row.state "reserved" then measure r row.amount else 0

unfoldable pub spent_amount : String → Resource → Reservation → ℕ
spent_amount budget r row =
    if str_eq row.budget_id budget && not (str_eq row.state "reserved")
    then measure r row.actual
    else 0

abbrev pub reserved_of : Resource → Option Account → ℕ
reserved_of r none = 0
reserved_of r (some a) = measure r a.reserved

abbrev pub used_of : Resource → Option Account → ℕ
used_of r none = 0
used_of r (some a) = measure r a.used

abbrev pub limit_of : Resource → Option Account → ℕ
limit_of r none = 0
limit_of r (some a) = measure r a.limit

-- Of every resource each account has reserved what its open reservations sum up to, has used what
-- its settled ones sum up to, and both together are within its limit.
pub record IsLedger (db : Database) : Type 0 where
  pub reserved :
      (budget : String) (r : Resource)
      → reserved_of r (lookup budget db.accounts) ≡ total (open_amount budget r) db.reservations
  pub used :
      (budget : String) (r : Resource)
      → used_of r (lookup budget db.accounts) ≡ total (spent_amount budget r) db.reservations
  pub bounded :
      (budget : String) (r : Resource)
      → used_of r (lookup budget db.accounts) + reserved_of r (lookup budget db.accounts)
        ≤ limit_of r (lookup budget db.accounts)

-- The sums of an account that is there.
pub reserved_sum :
    (budget : String) (a : Account) (db : Database)
    → lookup budget db.accounts ≡ some a
    → IsLedger db
    → (r : Resource) → measure r a.reserved ≡ total (open_amount budget r) db.reservations
reserved_sum budget a db e h r = ap (reserved_of r) (sym e) ∙ h.reserved budget r

pub used_sum :
    (budget : String) (a : Account) (db : Database)
    → lookup budget db.accounts ≡ some a
    → IsLedger db
    → (r : Resource) → measure r a.used ≡ total (spent_amount budget r) db.reservations
used_sum budget a db e h r = ap (used_of r) (sym e) ∙ h.used budget r

-- A row of another budget counts nothing.
pub open_amount_other :
    (budget other : String) (r : Resource) (row : Reservation)
    → row.budget_id ≡ budget
    → str_eq budget other ≡ false
    → open_amount other r row ≡ 0
unfolding open_amount
open_amount_other budget other r row e h = rw (e, h) refl

pub spent_amount_other :
    (budget other : String) (r : Resource) (row : Reservation)
    → row.budget_id ≡ budget
    → str_eq budget other ≡ false
    → spent_amount other r row ≡ 0
unfolding spent_amount
spent_amount_other budget other r row e h = rw (e, h) refl

-- An open row takes its amount and a settled one its actual amount, each of its own budget.
pub open_amount_own :
    (r : Resource) (row : Reservation)
    → str_eq row.state "reserved" ≡ true
    → open_amount row.budget_id r row ≡ measure r row.amount
unfolding open_amount
open_amount_own r row h = ground (arith, h, eq_iff row.budget_id row.budget_id)

pub spent_amount_open :
    (b : String) (r : Resource) (row : Reservation)
    → str_eq row.state "reserved" ≡ true
    → spent_amount b r row ≡ 0
unfolding spent_amount
spent_amount_open b r row h = ground (arith, h)

pub open_amount_settled :
    (b : String) (r : Resource) (row : Reservation)
    → str_eq row.state "reserved" ≡ false
    → open_amount b r row ≡ 0
unfolding open_amount
open_amount_settled b r row h = ground (arith, h)

pub spent_amount_own :
    (r : Resource) (row : Reservation)
    → str_eq row.state "reserved" ≡ false
    → spent_amount row.budget_id r row ≡ measure r row.actual
unfolding spent_amount
spent_amount_own r row h = ground (arith, h, eq_iff row.budget_id row.budget_id)

account_holds-bounded :
    (a : Account)
    → account_holds a ≡ true
    → (r : Resource) → measure r a.used + measure r a.reserved ≤ measure r a.limit
unfolding account_holds
account_holds-bounded a h r =
    let fits : all_of leb (each (λ x y. x + y) a.used a.reserved) a.limit ≡ true = ground arith in
    let e = all_of-measure r leb (each (λ x y. x + y) a.used a.reserved) a.limit fits in
    let e' : leb (measure r a.used + measure r a.reserved) (measure r a.limit) ≡ true =
      rw measure-each at e in
    leb-le (measure r a.used + measure r a.reserved) (measure r a.limit) e'

-- An account that is written with the sums of its rows, where no other budget's rows changed.
pub posted-IsLedger :
    (budget : String) (a : Account) (rows : Assoc Reservation) (db : Database)
    → IsLedger db
    → account_holds a ≡ true
    → ((r : Resource) → measure r a.reserved ≡ total (open_amount budget r) rows)
    → ((r : Resource) → measure r a.used ≡ total (spent_amount budget r) rows)
    → ((other : String) (r : Resource)
        → str_eq budget other ≡ false
        → (total (open_amount other r) rows ≡ total (open_amount other r) db.reservations)
          × (total (spent_amount other r) rows ≡ total (spent_amount other r) db.reservations))
    → IsLedger (record { accounts = insert budget a db.accounts; reservations = rows })
posted-IsLedger budget a rows db h fine now_open now_spent others = record {
  reserved = λ b r. elim (Bool-cases (str_eq budget b)) [
    | inl hit ↦
        let e : budget ≡ b = ground (arith, hit, eq_iff budget b) in
        rw (lookup-insert, hit, ← e) (now_open r)
    | inr miss ↦ rw (lookup-insert, miss) (h.reserved b r ∙ sym (others b r miss).0)
  ];
  used = λ b r. elim (Bool-cases (str_eq budget b)) [
    | inl hit ↦
        let e : budget ≡ b = ground (arith, hit, eq_iff budget b) in
        rw (lookup-insert, hit, ← e) (now_spent r)
    | inr miss ↦ rw (lookup-insert, miss) (h.used b r ∙ sym (others b r miss).1)
  ];
  bounded = λ b r. elim (Bool-cases (str_eq budget b)) [
    | inl hit ↦ rw (lookup-insert, hit) (account_holds-bounded a fine r)
    | inr miss ↦ rw (lookup-insert, miss) (h.bounded b r)
  ];
}

-- A row is written where the database finds no fault with it.
pub put_account-eq-ok :
    (budget : String) (a : Account) (db : Database) {out : Database}
    → put_account budget a db ≡ ok out
    → (account_holds a ≡ true)
      × (record { accounts = insert budget a db.accounts; reservations = db.reservations } ≡ out)
unfolding put_account
put_account-eq-ok budget a db h = elim (Bool-cases (account_holds a)) [
  | inl fine ↦ (fine, ground (arith, fine))
  | inr broken ↦ ground (arith, broken)
]
