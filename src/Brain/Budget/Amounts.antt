-- ===== src/Brain/Budget/Amounts.antt =====
-- The amounts of lib/brain/run_budget.go. An int64 is its value modulo 2 ^ 64: it is negative from
-- 2 ^ 63 on, and a sum wraps around.
use yu_feng.Base.{ℕ, ◌≡◌, refl, Bool, true, ◌&&◌, ◌+◌, ◌%◌, ◌^◌, ◌≤◌, ◌<◌, ◌==◌, ltb, leb, arith}

pub record Amount : Type 0 where
  pub steps : ℕ
  pub model_calls : ℕ
  pub input_tokens : ℕ
  pub output_tokens : ℕ
  pub tool_calls : ℕ
  pub tool_result_bytes : ℕ
  pub cost_microunits : ℕ

abbrev pub zero_amount : Amount
zero_amount = record {
  steps = 0;
  model_calls = 0;
  input_tokens = 0;
  output_tokens = 0;
  tool_calls = 0;
  tool_result_bytes = 0;
  cost_microunits = 0;
}

-- A test of all seven numbers of two amounts, and an operation on them.
abbrev pub all_of : (ℕ → ℕ → Bool) → Amount → Amount → Bool
all_of p a b =
    p a.steps b.steps
    && p a.model_calls b.model_calls
    && p a.input_tokens b.input_tokens
    && p a.output_tokens b.output_tokens
    && p a.tool_calls b.tool_calls
    && p a.tool_result_bytes b.tool_result_bytes
    && p a.cost_microunits b.cost_microunits

abbrev pub each : (ℕ → ℕ → ℕ) → Amount → Amount → Amount
each f a b = record {
  steps = f a.steps b.steps;
  model_calls = f a.model_calls b.model_calls;
  input_tokens = f a.input_tokens b.input_tokens;
  output_tokens = f a.output_tokens b.output_tokens;
  tool_calls = f a.tool_calls b.tool_calls;
  tool_result_bytes = f a.tool_result_bytes b.tool_result_bytes;
  cost_microunits = f a.cost_microunits b.cost_microunits;
}

-- `x >= 0` and `x <= y` on int64.
abbrev pub non_negative : ℕ → Bool
non_negative x = ltb x (2 ^ 63)

abbrev pub int64_le : ℕ → ℕ → Bool
int64_le x y = leb ((x + 2 ^ 63) % 2 ^ 64) ((y + 2 ^ 63) % 2 ^ 64)

abbrev pub int64_add : ℕ → ℕ → ℕ
int64_add x y = (x + y) % 2 ^ 64

unfoldable pub amount_eq : Amount → Amount → Bool
amount_eq a b = all_of (λ x y. x == y) a b

unfoldable pub valid_amount : Amount → Bool
valid_amount a = all_of (λ x y. non_negative x) a a

unfoldable pub add_amount : Amount → Amount → Amount
add_amount a b = each int64_add a b

unfoldable pub budget_fits : Amount → Amount → Amount → Bool
budget_fits limit consumed requested =
    let next = add_amount consumed requested in all_of int64_le next limit

unfoldable pub amount_within : Amount → Amount → Bool
amount_within actual reserved = all_of int64_le actual reserved

-- The numbers of an amount by name.
pub data Resource : Type 0 where
  steps model_calls input_tokens output_tokens : Resource
  tool_calls tool_result_bytes cost_microunits : Resource

abbrev pub measure : Resource → Amount → ℕ
measure steps a = a.steps
measure model_calls a = a.model_calls
measure input_tokens a = a.input_tokens
measure output_tokens a = a.output_tokens
measure tool_calls a = a.tool_calls
measure tool_result_bytes a = a.tool_result_bytes
measure cost_microunits a = a.cost_microunits

pub measure-each :
    (r : Resource) (f : ℕ → ℕ → ℕ) (a b : Amount)
    → measure r (each f a b) ≡ f (measure r a) (measure r b)
measure-each steps f a b = refl
measure-each model_calls f a b = refl
measure-each input_tokens f a b = refl
measure-each output_tokens f a b = refl
measure-each tool_calls f a b = refl
measure-each tool_result_bytes f a b = refl
measure-each cost_microunits f a b = refl

-- A test that holds of two amounts holds of their numbers, and the other way round.
pub all_of-measure :
    (r : Resource) (p : ℕ → ℕ → Bool) (a b : Amount)
    → all_of p a b ≡ true
    → p (measure r a) (measure r b) ≡ true
all_of-measure steps p a b h = ground arith
all_of-measure model_calls p a b h = ground arith
all_of-measure input_tokens p a b h = ground arith
all_of-measure output_tokens p a b h = ground arith
all_of-measure tool_calls p a b h = ground arith
all_of-measure tool_result_bytes p a b h = ground arith
all_of-measure cost_microunits p a b h = ground arith

pub all_of_every :
    (p : ℕ → ℕ → Bool) (a b : Amount)
    → ((r : Resource) → p (measure r a) (measure r b) ≡ true)
    → all_of p a b ≡ true
all_of_every p a b h =
    rw
      (
        h steps,
        h model_calls,
        h input_tokens,
        h output_tokens,
        h tool_calls,
        h tool_result_bytes,
        h cost_microunits,
      )
      refl

pub measure-zero_amount : (r : Resource) → measure r zero_amount ≡ 0
measure-zero_amount steps = refl
measure-zero_amount model_calls = refl
measure-zero_amount input_tokens = refl
measure-zero_amount output_tokens = refl
measure-zero_amount tool_calls = refl
measure-zero_amount tool_result_bytes = refl
measure-zero_amount cost_microunits = refl

-- On numbers that are not negative the order of int64 is the order of the numbers.
pub int64_le_le : (x y : ℕ) → x < 2 ^ 63 → y < 2 ^ 63 → int64_le x y ≡ leb x y
int64_le_le x y hx hy = ground arith

pub int64_le-le : (x y : ℕ) → x < 2 ^ 63 → y < 2 ^ 63 → int64_le x y ≡ true → x ≤ y
int64_le-le x y hx hy h = ground arith

non_negative-lt : (x : ℕ) → non_negative x ≡ true → x < 2 ^ 63
non_negative-lt x h = ground arith

pub valid_amount-measure :
    (a : Amount) (r : Resource) → valid_amount a ≡ true → measure r a < 2 ^ 63
unfolding valid_amount
valid_amount-measure a r h =
    non_negative-lt (measure r a) (all_of-measure r (λ x y. non_negative x) a a h)

pub amount_within-measure :
    (a b : Amount)
    → valid_amount a ≡ true
    → valid_amount b ≡ true
    → amount_within a b ≡ true
    → (r : Resource) → measure r a ≤ measure r b
unfolding amount_within
amount_within-measure a b ha hb h r =
    int64_le-le (measure r a) (measure r b) (valid_amount-measure a r ha)
      (valid_amount-measure b r hb) (all_of-measure r int64_le a b h)

pub amount_eq_refl : (a : Amount) → amount_eq a a ≡ true
unfolding amount_eq
amount_eq_refl a = ground arith

==-eq : (x y : ℕ) → (x == y) ≡ true → x ≡ y
==-eq x y h = ground arith

pub Amount_ext : (a b : Amount) → ((r : Resource) → measure r a ≡ measure r b) → a ≡ b
Amount_ext a b h =
    let h1 = h steps in
    let h2 = h model_calls in
    let h3 = h input_tokens in
    let h4 = h output_tokens in
    let h5 = h tool_calls in let h6 = h tool_result_bytes in let h7 = h cost_microunits in cc

pub amount_eq-eq : (a b : Amount) → amount_eq a b ≡ true → a ≡ b
unfolding amount_eq
amount_eq-eq a b h =
    Amount_ext a b (λ r. ==-eq (measure r a) (measure r b) (all_of-measure r (λ x y. x == y) a b h))

pub leb-le : (x y : ℕ) → leb x y ≡ true → x ≤ y
leb-le x y h = ground arith
