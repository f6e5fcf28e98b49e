-- ===== src/Edge/Listen/Laws.antt =====
-- What the plan of a unit is after any sequence of calls of ApplyListenPlan of
-- lib/edgecore/release_set.go.
use yu_feng.Base.{
  ℕ, String, ◌≡◌, refl, Bool, true, false, not, ◌||◌, ◌≤◌, List, [], ◌∷◌, Option, none, some, inl,
  inr, arith, str_eq, eq_iff, is_empty, Bool-cases,
}
use yu_feng.Base.Result.{Result, ok, err}
use yu_feng.Kernel.Artifact.{Bytes, Crypto, KernelError}
use yu_feng.Kernel.ListenPlan.{PlanCodec, UnitListenPlan, verify_unit_listen_plan}
use yu_feng.Edge.Types.{Posture}
use yu_feng.Edge.Listen.{
  ListenError, ListenState, PlanChecks, activated, apply_listen_plan, checked_plan, listen_plans,
  plan_order,
}

-- The version of the plan that is there, and 0 where there is none.
abbrev pub version_of : Option UnitListenPlan → ℕ
version_of none = 0
version_of (some plan) = plan.version

module _ (c : Crypto) (codec : PlanCodec) (pub_key : Bytes) (checks : PlanChecks)
    (unit : String) where
  -- A plan that was verified with the key, is valid and is for this unit, with its posture in force.
  abbrev pub IsTrusted : Option UnitListenPlan → Posture → Type 0
  IsTrusted none posture = Unit
  IsTrusted (some plan) posture =
      (verify_unit_listen_plan c codec (some plan) pub_key ≡ ok tt)
      × (checks.valid plan ≡ true)
      × (plan.unit_id ≡ unit)
      × (plan.posture ≡ posture)

  -- The plan of the state is trusted, and its version is at least that of the one before.
  abbrev pub Follows : ListenState → ListenState → Type 0
  Follows s t = IsTrusted t.listen t.posture × (version_of s.listen ≤ version_of t.listen)

  plan_order_version :
      (o : Option UnitListenPlan) (plan : UnitListenPlan)
      → plan_order checks o plan ≡ ok true
      → version_of o ≤ plan.version
  unfolding plan_order
  plan_order_version none plan h = omega arith
  plan_order_version (some current) plan h = ground arith

  activated-Follows :
      (persist : Option UnitListenPlan → UnitListenPlan → Bool) (plan : UnitListenPlan)
      (s : ListenState) (r : Result ListenError Bool)
      → plan_order checks s.listen plan ≡ r
      → verify_unit_listen_plan c codec (some plan) pub_key ≡ ok tt
      → checks.valid plan ≡ true
      → plan.unit_id ≡ unit
      → IsTrusted s.listen s.posture
      → Follows s (activated persist plan s r).1
  activated-Follows persist plan s (err e) f h1 h2 h3 t = (t, omega arith)
  activated-Follows persist plan s (ok false) f h1 h2 h3 t = (t, omega arith)
  activated-Follows persist plan s (ok true) f h1 h2 h3 t =
      elim (Bool-cases (persist s.listen plan)) [
        | inl done ↦ rw (done) ((h1, h2, h3, refl), plan_order_version s.listen plan f)
        | inr failed ↦ rw (failed) (t, omega arith)
      ]

  checked-Follows :
      (persist : Option UnitListenPlan → UnitListenPlan → Bool) (plan : UnitListenPlan)
      (s : ListenState) (r : Result KernelError (Unit {0}))
      → verify_unit_listen_plan c codec (some plan) pub_key ≡ r
      → IsTrusted s.listen s.posture
      → Follows s (checked_plan checks unit persist plan s r).1
  checked-Follows persist plan s (err e) f t = (t, omega arith)
  checked-Follows persist plan s (ok _) f t = elim (Bool-cases (checks.valid plan)) [
    | inl good ↦
        elim (Bool-cases (is_empty (checks.trim_space unit) || not (str_eq plan.unit_id unit))) [
          | inl other ↦ rw (good, other) (t, omega arith)
          | inr ours ↦
              let same : plan.unit_id ≡ unit = ground (arith, ours, eq_iff plan.unit_id unit) in
              rw (good, ours)
                (activated-Follows persist plan s (plan_order checks s.listen plan) refl f good same
                  t)
        ]
    | inr bad ↦ rw (bad) (t, omega arith)
  ]

  apply-Follows :
      (persist : Option UnitListenPlan → UnitListenPlan → Bool) (plan : UnitListenPlan)
      (s : ListenState)
      → IsTrusted s.listen s.posture
      → Follows s (apply_listen_plan c codec pub_key checks unit persist plan s).1
  unfolding apply_listen_plan
  apply-Follows persist plan s t =
      checked-Follows persist plan s (verify_unit_listen_plan c codec (some plan) pub_key) refl t

  -- Whatever plans arrive, and whether or not they are persisted: the plan in force was verified with
  -- the key, is valid, is for this unit and has its posture in force, and versions never go back.
  pub listen_plans-Follows :
      (plans : List (UnitListenPlan × (Option UnitListenPlan → UnitListenPlan → Bool)))
      (s : ListenState)
      → IsTrusted s.listen s.posture
      → Follows s (listen_plans c codec pub_key checks unit plans s)
  unfolding listen_plans
  listen_plans-Follows [] s t = (t, omega arith)
  listen_plans-Follows ((plan, persist) ∷ plans) s t =
      let (t1, h1) = apply-Follows persist plan s t in
      let (t2, h2) =
        listen_plans-Follows plans (apply_listen_plan c codec pub_key checks unit persist plan s).1
          t1 in
      (t2, omega arith)
