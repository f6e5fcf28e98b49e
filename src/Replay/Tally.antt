-- ===== src/Replay/Tally.antt =====
-- What the reports of lib/replay say of a corpus.
use yu_feng.Base.{
  String, ◌≡◌, ◌∙◌, ◌≤◌, Bool, not, ◌&&◌, ◌||◌, List, [], ◌∷◌, ◌==◌, ltb, any, arith, inl, inr,
  if◌then◌else◌, Bool-cases,
}
use yu_feng.Kernel.Artifact.{ReplayReport}
use yu_feng.Kernel.Release.{gate_passed}
use yu_feng.Replay.{Case, account, empty_report, is_benign, is_malicious, is_management}

-- The report of the cases that count, each with its verdict.
unfoldable pub tally : (Case → Bool) → (Case → Bool) → List Case → ReplayReport → ReplayReport
tally counts blocked [] r = r
tally counts blocked (c ∷ cases) r =
    if counts c
    then tally counts blocked cases (account r c (blocked c))
    else tally counts blocked cases r

-- A malicious case that is let through, or a benign or management case that is blocked.
unfoldable pub is_wrong : (Case → Bool) → Case → Bool
is_wrong blocked c =
    if is_malicious c then not (blocked c) else (is_benign c || is_management c) && blocked c

-- There is a malicious case that counts, and no case that counts is wrong.
unfoldable pub passes : (Case → Bool) → (Case → Bool) → List Case → Bool
passes counts blocked cases =
    any (λ c. counts c && is_malicious c) cases
    && not (any (λ c. counts c && is_wrong blocked c) cases)

abbrev all_right : ReplayReport → Bool
all_right r =
    r.malicious_blocked == r.malicious_total && r.benign_blocked == 0 && r.management_blocked == 0

-- One more case that counts: what it adds to both sides of the gate.
account_right :
    (r : ReplayReport) (blocked : Case → Bool) (c : Case)
    → r.malicious_blocked ≤ r.malicious_total
    → ((account r c (blocked c)).malicious_blocked ≤ (account r c (blocked c)).malicious_total)
      × (ltb 0 (account r c (blocked c)).malicious_total
          ≡ (ltb 0 r.malicious_total || is_malicious c))
      × (all_right (account r c (blocked c)) ≡ (all_right r && not (is_wrong blocked c)))
unfolding account is_wrong
account_right r blocked c h = elim (Bool-cases (is_malicious c)) [
  | inl bad ↦ elim (Bool-cases (blocked c)) [
    | inl hit ↦ rw (bad, hit) (ground arith, ground arith, ground arith)
    | inr miss ↦ rw (bad, miss) (ground arith, ground arith, ground arith)
  ]
  | inr good ↦ elim (Bool-cases (is_benign c)) [
    | inl benign ↦ elim (Bool-cases (blocked c)) [
      | inl hit ↦ rw (good, benign, hit) (h, ground arith, ground arith)
      | inr miss ↦ rw (good, benign, miss) (h, ground arith, ground arith)
    ]
    | inr other ↦ elim (Bool-cases (is_management c)) [
      | inl managed ↦ elim (Bool-cases (blocked c)) [
        | inl hit ↦ rw (good, other, managed, hit) (h, ground arith, ground arith)
        | inr miss ↦ rw (good, other, managed, miss) (h, ground arith, ground arith)
      ]
      | inr none_of ↦ rw (good, other, none_of) (h, ground arith, ground arith)
    ]
  ]
]

tally_from :
    (counts blocked : Case → Bool) (cases : List Case) (r : ReplayReport)
    → r.malicious_blocked ≤ r.malicious_total
    → gate_passed (tally counts blocked cases r) ≡ (
        (ltb 0 r.malicious_total || any (λ c. counts c && is_malicious c) cases)
        && all_right r
        && not (any (λ c. counts c && is_wrong blocked c) cases))
unfolding tally gate_passed
tally_from counts blocked [] r h = ground arith
tally_from counts blocked (c ∷ cases) r h = elim (Bool-cases (counts c)) [
  | inl counted ↦
      let (h1, h2, h3) = account_right r blocked c h in
      let rest = tally_from counts blocked cases (account r c (blocked c)) h1 in
      rw (counted) (ground (arith, rest, h2, h3))
  | inr skipped ↦ rw (skipped) (tally_from counts blocked cases r h)
]

-- The gate of the report passes exactly where there is a malicious case that counts and no case that
-- counts is wrong.
pub gate_passed-tally :
    (counts blocked : Case → Bool) (cases : List Case) (corpus : String)
    → gate_passed (tally counts blocked cases (empty_report corpus)) ≡ passes counts blocked cases
unfolding passes
gate_passed-tally counts blocked cases corpus =
    let h = tally_from counts blocked cases (empty_report corpus) (omega arith) in h ∙ ground arith
