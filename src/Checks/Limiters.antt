-- ===== src/Checks/Limiters.antt =====
-- Tests of the limiters of calls.
use yu_feng.Base.{ℕ, [], ◌∷◌, List, refl, arith}
use yu_feng.Brain.Limits.{new_limiter}
use yu_feng.Brain.Limits.Admissions.{Call, IsLimited, admissions, admissions-IsLimited}

abbrev call_at : ℕ → Call
call_at now = record { victim = "old"; key = "u"; now = now }

abbrev test_calls : List Call
test_calls = call_at 1 ∷ call_at 2 ∷ call_at 3 ∷ call_at 50 ∷ []

admissions-IsLimited_example : IsLimited 2 10 (admissions 2 10 "u" test_calls new_limiter [])
admissions-IsLimited_example =
    admissions-IsLimited 2 10 "u" test_calls
      (omega arith, refl, (omega arith, refl, (omega arith, refl, (omega arith, refl, tt))))
