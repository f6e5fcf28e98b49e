-- ===== src/Kernel/Release.antt =====
-- lib/kernel/release.go: the life cycle of a release, draft → signed → shadow → canary → enforce →
-- retired. The Go types of the states are the records here, and the `Release` interface is their sum.
-- `proto.Clone` makes a copy that shares nothing, which a value of a record is.
pub mod Steps
pub mod Laws
pub mod Traces
use yu_feng.Base.{
  ℕ, String, Bool, true, false, ◌&&◌, ◌||◌, not, Option, none, some, ◌==◌, ltb, leb, is_some,
  is_empty, if◌then◌else◌,
}
use yu_feng.Base.Result.{Result, ok, err, require, or_fail, ◌>>=◌, ◌>>◌}
use yu_feng.Kernel.Artifact.{
  Artifact, Bytes, Crypto, KernelError, ReplayReport, Signer, is_signed, sign_artifact,
  sign_artifact_with_signer, artifact_nil, release_id_empty, draft_signed, draft_has_id,
  draft_has_report, report_nil, percent_out_of_range, unknown_retire_reason, not_active,
}

-- kernel.CanaryPercentMin and kernel.CanaryPercentMax
abbrev pub canary_percent_min : ℕ
canary_percent_min = 1

abbrev pub canary_percent_max : ℕ
canary_percent_max = 25

pub data RetireReason : Type 0 where
  unspecified rollback manual ttl superseded hard_expired : RetireReason

pub data ReleaseState : Type 0 where
  draft signed shadow canary enforce retired : ReleaseState

pub record Draft : Type 0 where
  pub id : String
  pub envelope : Artifact
  pub created_by : String

pub record Signed : Type 0 where
  pub id : String
  pub envelope : Artifact

pub record Shadow : Type 0 where
  pub id : String
  pub envelope : Artifact

pub record Canary : Type 0 where
  pub id : String
  pub envelope : Artifact
  pub canary_percent : ℕ

pub record Enforce : Type 0 where
  pub id : String
  pub envelope : Artifact

pub record Retired : Type 0 where
  pub id : String
  pub envelope : Artifact
  pub reason : RetireReason

pub data Release : Type 0 where
  of_draft : Draft → Release
  of_signed : Signed → Release
  of_shadow : Shadow → Release
  of_canary : Canary → Release
  of_enforce : Enforce → Release
  of_retired : Retired → Release

abbrev pub release_id : Release → String
release_id (of_draft d) = d.id
release_id (of_signed s) = s.id
release_id (of_shadow s) = s.id
release_id (of_canary c) = c.id
release_id (of_enforce e) = e.id
release_id (of_retired r) = r.id

abbrev pub state : Release → ReleaseState
state (of_draft d) = draft
state (of_signed s) = signed
state (of_shadow s) = shadow
state (of_canary c) = canary
state (of_enforce e) = enforce
state (of_retired r) = retired

abbrev pub artifact : Release → Artifact
artifact (of_draft d) = d.envelope
artifact (of_signed s) = s.envelope
artifact (of_shadow s) = s.envelope
artifact (of_canary c) = c.envelope
artifact (of_enforce e) = e.envelope
artifact (of_retired r) = r.envelope

unfoldable pub new_draft : String → Option Artifact → String → Result KernelError Draft
new_draft release_id none created_by = do
  require (not (is_empty release_id)) release_id_empty
  err artifact_nil
new_draft release_id (some a) created_by = do
  require (not (is_empty release_id)) release_id_empty
  require (not (is_signed a)) draft_signed
  require (is_empty a.id) draft_has_id
  require (not (is_some a.replay_report)) draft_has_report
  ok (record { id = release_id; envelope = a; created_by = created_by })

pub record GateResult : Type 0 where
  pub passed : Bool
  pub draft : Option Draft
  pub signed : Option Signed
  pub report : Option ReplayReport

abbrev no_result : GateResult
no_result = record { passed = false; draft = none; signed = none; report = none }

unfoldable pub gate_passed : ReplayReport → Bool
gate_passed r =
    ltb 0 r.malicious_total
    && r.malicious_blocked == r.malicious_total
    && r.benign_blocked == 0
    && r.management_blocked == 0

-- `if envelope.CreatedAt == nil { envelope.CreatedAt = timestamppb.Now() }`
abbrev pub stamped : ℕ → Option ℕ → Option ℕ
stamped now none = some now
stamped now (some t) = some t

-- The envelope that is signed.
abbrev pub prepared : ℕ → Draft → ReplayReport → Artifact
prepared now d report = record d.envelope {
  replay_report = some report;
  created_by = d.created_by;
  created_at = stamped now d.envelope.created_at;
}

-- Go returns a result beside the error.
abbrev refused :
    GateResult → Result KernelError Draft → ReplayReport → GateResult × Option KernelError
refused res (err e) report = (res, some e)
refused res (ok d) report = (
  record res {
    draft = some (record d { envelope = record d.envelope { replay_report = some report } });
  },
  none,
)

abbrev issued : GateResult → String → Result KernelError Artifact → GateResult × Option KernelError
issued res id (err e) = (res, some e)
issued res id (ok envelope) =
    (record res { passed = true; signed = some (record { id = id; envelope = envelope }) }, none)

-- The body that `Gate` and `GateWithSigner` have in common: they differ in the call that signs.
gate_by :
    (Artifact → Result KernelError Artifact)
    → ℕ
    → Draft
    → Option ReplayReport
    → GateResult × Option KernelError
unfolding gate_passed new_draft
gate_by sign now d none = (no_result, some report_nil)
gate_by sign now d (some report) =
    let res = record no_result { report = some report } in
    if report.passed && gate_passed report
    then issued res d.id (sign (prepared now d report))
    else refused res (new_draft d.id (some d.envelope) d.created_by) report

unfoldable pub gate :
    Crypto → Bytes → ℕ → Draft → Option ReplayReport → GateResult × Option KernelError
unfolding gate_by
gate c key now = gate_by (λ a. sign_artifact c key now (some a)) now

unfoldable pub gate_with_signer :
    Crypto → Option Signer → ℕ → Draft → Option ReplayReport → GateResult × Option KernelError
unfolding gate_by
gate_with_signer c s now = gate_by (λ a. sign_artifact_with_signer c s now (some a)) now

unfoldable pub start_shadow : Signed → Shadow
start_shadow s = record { id = s.id; envelope = s.envelope }

unfoldable pub promote_canary : Shadow → ℕ → Result KernelError Canary
promote_canary s percent = do
  require (not (ltb percent canary_percent_min || ltb canary_percent_max percent))
      percent_out_of_range
  ok (record { id = s.id; envelope = s.envelope; canary_percent = percent })

-- `Shadow.PromoteEnforce`, where the units are too few for buckets.
unfoldable pub promote_shadow : Shadow → Enforce
promote_shadow s = record { id = s.id; envelope = s.envelope }

-- `Canary.PromoteEnforce`
unfoldable pub promote_enforce : Canary → Enforce
promote_enforce c = record { id = c.id; envelope = c.envelope }

abbrev pub is_retire_reason : RetireReason → Bool
is_retire_reason rollback = true
is_retire_reason manual = true
is_retire_reason ttl = true
is_retire_reason superseded = true
is_retire_reason _ = false

-- `Active` embeds `Release` and asks for nothing more, so every release is an `Active` in Go.
unfoldable pub retire_active : Release → RetireReason → Result KernelError Retired
retire_active active reason = do
  require (is_retire_reason reason) unknown_retire_reason
  ok (record { id = release_id active; envelope = artifact active; reason = reason })

unfoldable pub active_of : Release → Result KernelError Release
active_of (of_shadow s) = ok (of_shadow s)
active_of (of_canary c) = ok (of_canary c)
active_of (of_enforce e) = ok (of_enforce e)
active_of _ = err not_active
