-- ===== src/Edge/Types.antt =====
-- The values that the parts of lib/edgecore pass to one another: detector.go, canonical.go,
-- evaluate.go, status.go and the enumerations of proto/yufeng/common/v1/v1.proto. An enumeration on
-- the wire is open, so a posture and a mode may be `other`. Scores are only compared, so a score is
-- the rank of a finite float that is not negative.
use yu_feng.Base.{
  ℕ, String, Bool, true, false, List, [], ◌∷◌, ◌++◌, Option, ◌==◌, length, if◌then◌else◌,
}
use yu_feng.Base.Assoc.{Assoc}
use yu_feng.Kernel.Artifact.{Bytes}

pub data Posture : Type 0 where
  unspecified reverse_proxy ext_authz tap_alert mirror_observe : Posture
  other : ℕ → Posture

pub data ReleaseMode : Type 0 where
  unspecified shadow canary enforce : ReleaseMode
  other : ℕ → ReleaseMode

pub data CoverageStatus : Type 0 where
  unspecified full partial absent unsupported error : CoverageStatus

pub data InspectionSurface : Type 0 where
  unspecified path query body header : InspectionSurface

abbrev status_code : CoverageStatus → ℕ
status_code CoverageStatus.unspecified = 0
status_code full = 1
status_code partial = 2
status_code absent = 3
status_code unsupported = 4
status_code error = 5

abbrev surface_code : InspectionSurface → ℕ
surface_code InspectionSurface.unspecified = 0
surface_code path = 1
surface_code query = 2
surface_code body = 3
surface_code header = 4

-- `==` on the two enumerations.
abbrev pub status_eq : CoverageStatus → CoverageStatus → Bool
status_eq a b = status_code a == status_code b

abbrev pub surface_eq : InspectionSurface → InspectionSurface → Bool
surface_eq a b = surface_code a == surface_code b

pub record Coverage : Type 0 where
  pub target : InspectionSurface
  pub status : CoverageStatus
  pub inspected : ℕ
  pub total : ℕ

-- `url.Values`
abbrev pub Values : Type 0
Values = Assoc (List String)

pub record CanonicalView : Type 0 where
  pub method : String
  pub path : String
  pub query : Option Values
  pub headers : Assoc (List String)
  pub body : Bytes
  pub host : String
  pub rejected : Bool
  pub coverage : List Coverage
  pub profile_digest : String

pub record Request : Type 0 where
  pub asset_id : String
  pub unit_id : String
  pub method : String
  pub path : String
  pub query : String
  pub headers : Assoc String
  pub body : Bytes

pub data Action : Type 0 where
  allow observe block : Action

abbrev pub is_block : Action → Bool
is_block block = true
is_block _ = false

pub record Verdict : Type 0 where
  pub detector_id : String
  pub action : Action
  pub rule_id : String
  pub message : String

pub record Detection : Type 0 where
  pub inspector_id : String
  pub rule_id : String
  pub score : ℕ
  pub location : InspectionSurface
  pub selector : String
  pub phase : String
  pub version : String
  pub manifest_digest : String
  pub profile_digest : String

pub record Inspection : Type 0 where
  pub detections : List Detection
  pub coverage : List Coverage
  pub rejected : Bool

-- `CoverageOf`: the first entry of the surface, and ABSENT where there is none.
unfoldable pub coverage_of : List Coverage → InspectionSurface → CoverageStatus
coverage_of [] surface = absent
coverage_of (c ∷ cov) surface =
    if surface_eq c.target surface then c.status else coverage_of cov surface

-- `coverageHasError`
unfoldable pub coverage_has_error : List Coverage → Bool
coverage_has_error [] = false
coverage_has_error (c ∷ cov) = if status_eq c.status error then true else coverage_has_error cov

-- `EvaluateView`
unfoldable pub evaluate_view : CanonicalView → List Detection → Inspection
evaluate_view view found = record {
  detections = found;
  coverage = view.coverage;
  rejected = view.rejected;
}

-- `CoverageError`
unfoldable pub coverage_error : InspectionSurface → Coverage
coverage_error surface = record { target = surface; status = error; inspected = 0; total = 0 }

-- `IsNoDetection`
unfoldable pub is_no_detection : List Coverage → List Detection → Bool
unfolding coverage_has_error
is_no_detection cov found = if coverage_has_error cov then false else length found == 0

-- `errors` of the coverage of one part of an inspection.
unfoldable pub errors_of : List Coverage → List Coverage
errors_of [] = []
errors_of (c ∷ cov) = if status_eq c.status error then c ∷ errors_of cov else errors_of cov

-- The loop of `MergeInspections`, with the inspection built so far.
unfoldable pub merge_from : Inspection → List Inspection → Inspection
unfolding errors_of
merge_from out [] = out
merge_from out (p ∷ parts) =
    merge_from
      (record {
        detections = out.detections ++ p.detections;
        coverage = out.coverage ++ errors_of p.coverage;
        rejected = if p.rejected then true else out.rejected;
      })
      parts

-- `MergeInspections`
unfoldable pub merge_inspections : CanonicalView → List Inspection → Inspection
unfolding merge_from
merge_inspections view parts =
    merge_from (record { detections = []; coverage = view.coverage; rejected = view.rejected })
      parts
