-- ===== src/Client/Ack.antt =====
-- lib/edgeclient/upload_acknowledgement.go: what is done with a segment after its upload.
-- `to_lower` is strings.ToLower; the error of an upload is its text.
pub mod Parts
use yu_feng.Base.{
  ℕ, String, Bool, true, false, ◌||◌, List, [], ◌∷◌, Option, none, some, str_eq, starts_with,
  if◌then◌else◌, any,
}
use yu_feng.Base.Assoc.{Assoc, lookup, insert}
use yu_feng.Client.Events.{Event, EventCodec}
use yu_feng.Client.Spool.{Calls, Spool, SpoolError, remove}
use yu_feng.Client.Spool.Rewrite.{quarantine, resolve_upload}

-- An entry of UploadEventsResponse.rejected.
pub record Rejection : Type 0 where
  pub event_id : String
  pub code : String

-- `strings.Contains`
unfoldable pub contains : String → String → Bool
contains sub String.[] = starts_with sub ""
contains sub (String.◌∷◌ c s) = starts_with sub (String.◌∷◌ c s) || contains sub s

unfoldable pub is_permanent_upload_err : String → Bool
is_permanent_upload_err text = contains "invalid_argument" text || contains "permission_denied" text

-- A later entry for an event replaces an earlier one.
unfoldable pub rejected_codes : List (Option Rejection) → Assoc String → Assoc String
rejected_codes [] codes = codes
rejected_codes (none ∷ rs) codes = rejected_codes rs codes
rejected_codes (some r ∷ rs) codes = rejected_codes rs (insert r.event_id r.code codes)

-- `nil` from ApplyUploadAck, an error of the spool, or the error of the upload.
pub data AckError : Type 0 where
  no_error : AckError
  spool_failed : SpoolError → AckError
  upload_failed : String → AckError

abbrev pub ack_error : Option SpoolError → AckError
ack_error none = no_error
ack_error (some e) = spool_failed e

module _ (to_lower : String → String) where
  unfoldable pub is_permanent_code : String → Bool
  is_permanent_code code =
      any (str_eq (to_lower code))
        ("invalid_event" ∷ "unknown_asset" ∷ "invalid_argument" ∷ "permission_denied" ∷ [])

  -- Where an event goes by the code it was turned down with.
  abbrev pub sorted :
      Option Event
      → Option String
      → List (Option Event) × List (Option Event)
      → List (Option Event) × List (Option Event)
  sorted e none (retry, permanent) = (retry, permanent)
  sorted e (some code) (retry, permanent) =
      if is_permanent_code code then (retry, e ∷ permanent) else (e ∷ retry, permanent)

  unfoldable pub partition :
      Assoc String → List (Option Event) → List (Option Event) × List (Option Event)
  partition codes [] = ([], [])
  partition codes (none ∷ es) = partition codes es
  partition codes (some e ∷ es) = sorted (some e) (lookup e.id codes) (partition codes es)

  -- The retries, and the events that are turned down for good.
  unfoldable pub partition_upload_ack :
      List (Option Event)
      → Option (List (Option Rejection))
      → List (Option Event) × List (Option Event)
  partition_upload_ack es none = ([], [])
  partition_upload_ack es (some rejected) = partition (rejected_codes rejected []) es

  unfoldable pub apply_upload_ack :
      EventCodec
      → Calls
      → Calls
      → String
      → List (Option Event)
      → Option (List (Option Rejection))
      → Option String
      → Spool
      → AckError × Spool
  apply_upload_ack codec first second stem es resp (some text) s =
      if is_permanent_upload_err text
      then (let out = quarantine codec first stem s in (ack_error out.0, out.1))
      else (upload_failed text, s)
  apply_upload_ack codec first second stem es none none s =
      let out = remove codec first stem s in (ack_error out.0, out.1)
  apply_upload_ack codec first second stem es (some rejected) none s =
      let parts = partition_upload_ack es (some rejected) in
      let out = resolve_upload codec first second stem parts.0 parts.1 s in (ack_error out.0, out.1)
