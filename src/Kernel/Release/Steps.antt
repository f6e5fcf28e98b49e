-- ===== src/Kernel/Release/Steps.antt =====
-- The ways in which a release moves on, by the functions of lib/kernel/release.go: both gates, the
-- promotions, and `RetireActive`, which takes a release in any state.
use yu_feng.Base.{ℕ, ◌≡◌, List, [], ◌∷◌, Option, some}
use yu_feng.Base.Result.{ok}
use yu_feng.Kernel.Artifact.{Crypto, Bytes, ReplayReport, Signer}
use yu_feng.Kernel.Release.{
  Release, ReleaseState, Draft, Signed, Shadow, Canary, Retired, RetireReason, of_draft, of_signed,
  of_shadow, of_canary, of_enforce, of_retired, gate, gate_with_signer, start_shadow,
  promote_canary, promote_shadow, promote_enforce, retire_active, state,
}

pub data Step (c : Crypto) (key : Bytes) (signer : Signer) : Release → Release → Type 0 where
  pass :
      (now : ℕ) (d : Draft) (report : Option ReplayReport) (s : Signed)
      → (gate c key now d report).0.signed ≡ some s
      → Step c key signer (of_draft d) (of_signed s)
  fail :
      (now : ℕ) (d : Draft) (report : Option ReplayReport) (d' : Draft)
      → (gate c key now d report).0.draft ≡ some d'
      → Step c key signer (of_draft d) (of_draft d')
  pass_signer :
      (now : ℕ) (d : Draft) (report : Option ReplayReport) (s : Signed)
      → (gate_with_signer c (some signer) now d report).0.signed ≡ some s
      → Step c key signer (of_draft d) (of_signed s)
  fail_signer :
      (now : ℕ) (d : Draft) (report : Option ReplayReport) (d' : Draft)
      → (gate_with_signer c (some signer) now d report).0.draft ≡ some d'
      → Step c key signer (of_draft d) (of_draft d')
  observe : (s : Signed) → Step c key signer (of_signed s) (of_shadow (start_shadow s))
  widen :
      (s : Shadow) (percent : ℕ) (n : Canary)
      → promote_canary s percent ≡ ok n
      → Step c key signer (of_shadow s) (of_canary n)
  skip : (s : Shadow) → Step c key signer (of_shadow s) (of_enforce (promote_shadow s))
  complete : (n : Canary) → Step c key signer (of_canary n) (of_enforce (promote_enforce n))
  withdraw :
      (r : Release) (reason : RetireReason) (t : Retired)
      → retire_active r reason ≡ ok t
      → Step c key signer r (of_retired t)

-- What is reached from a release, with the states passed through, the last one first.
pub data Reach (c : Crypto) (key : Bytes) (signer : Signer) (start : Release)
    : List ReleaseState → Release → Type 0 where
  here :
      {trace : List ReleaseState} → trace ≡ state start ∷ [] → Reach c key signer start trace start
  next :
      {trace trace' : List ReleaseState} {r t : Release}
      → Reach c key signer start trace r
      → Step c key signer r t
      → trace' ≡ state t ∷ trace
      → Reach c key signer start trace' t
