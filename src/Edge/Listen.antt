-- ===== src/Edge/Listen.antt =====
-- ApplyListenPlan of lib/edgecore/release_set.go, on the plan and the posture that the set keeps.
-- `valid` is ValidateUnitListenPlan, which reads addresses and URLs, `trim_space` strings.TrimSpace and
-- `equal` proto.Equal; the outcome of `persist` may depend on both plans. Versions are below the largest
-- uint64.
pub mod Laws
use yu_feng.Base.{
  ℕ, String, Bool, true, false, not, ◌&&◌, ◌||◌, ◌+◌, List, [], ◌∷◌, Option, none, some, ◌==◌, leb,
  str_eq, is_empty, if◌then◌else◌,
}
use yu_feng.Base.Result.{Result, ok, err}
use yu_feng.Kernel.Artifact.{Bytes, Crypto, KernelError}
use yu_feng.Kernel.ListenPlan.{PlanCodec, UnitListenPlan, verify_unit_listen_plan}
use yu_feng.Edge.Types.{Posture}

pub record ListenState : Type 0 where
  pub listen : Option UnitListenPlan
  pub posture : Posture

pub data ListenError : Type 0 where
  not_verified : KernelError → ListenError
  invalid_plan wrong_unit version_not_greater version_skips not_persisted : ListenError

-- What the functions that are not modelled answer.
pub record PlanChecks : Type 0 where
  pub trim_space : String → String
  pub valid : UnitListenPlan → Bool
  pub equal : UnitListenPlan → UnitListenPlan → Bool

-- How a plan stands to the current one: an error, or whether there is something to do.
unfoldable pub plan_order :
    PlanChecks → Option UnitListenPlan → UnitListenPlan → Result ListenError Bool
plan_order checks none plan = ok true
plan_order checks (some current) plan =
    if plan.version == current.version && checks.equal plan current
    then ok false
    else if leb plan.version current.version
    then err version_not_greater
    else if not (plan.version == current.version + 1)
    then err version_skips
    else ok true

abbrev pub activated :
    (Option UnitListenPlan → UnitListenPlan → Bool)
    → UnitListenPlan
    → ListenState
    → Result ListenError Bool
    → Option ListenError × ListenState
activated persist plan s (err e) = (some e, s)
activated persist plan s (ok false) = (none, s)
activated persist plan s (ok true) =
    if persist s.listen plan
    then (none, record { listen = some plan; posture = plan.posture })
    else (some not_persisted, s)

abbrev pub checked_plan :
    PlanChecks
    → String
    → (Option UnitListenPlan → UnitListenPlan → Bool)
    → UnitListenPlan
    → ListenState
    → Result KernelError (Unit {0})
    → Option ListenError × ListenState
checked_plan checks unit persist plan s (err e) = (some (not_verified e), s)
checked_plan checks unit persist plan s (ok _) =
    if not (checks.valid plan)
    then (some invalid_plan, s)
    else if is_empty (checks.trim_space unit) || not (str_eq plan.unit_id unit)
    then (some wrong_unit, s)
    else activated persist plan s (plan_order checks s.listen plan)

module _ (c : Crypto) (codec : PlanCodec) (pub_key : Bytes) (checks : PlanChecks)
    (unit : String) where
  unfoldable pub apply_listen_plan :
      (Option UnitListenPlan → UnitListenPlan → Bool)
      → UnitListenPlan
      → ListenState
      → Option ListenError × ListenState
  apply_listen_plan persist plan s =
      checked_plan checks unit persist plan s (verify_unit_listen_plan c codec (some plan) pub_key)

  -- A sequence of plans that arrive, each with the outcome of persisting it.
  unfoldable pub listen_plans :
      List (UnitListenPlan × (Option UnitListenPlan → UnitListenPlan → Bool))
      → ListenState
      → ListenState
  listen_plans [] s = s
  listen_plans ((plan, persist) ∷ plans) s = listen_plans plans (apply_listen_plan persist plan s).1
