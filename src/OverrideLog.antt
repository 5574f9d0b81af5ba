-- ===== src/OverrideLog.antt =====
-- lib/ap-controls/override-log.ts: the sealed log of an invoice's overrides. `canonicalize` of that
-- file stands with the JSON values, in Ap/Json.
pub mod Logging
pub mod Chain
mod Tests
use aemulus.Common.{
  ℕ, zero, suc, ◌+◌, Bool, true, false, not, ◌&&◌, ◌||◌, String, string_Eq, Option, none, some,
  List, [], ◌∷◌, ◌==◌, if◌then◌else◌, keep, any, Result, ok, err,
}
use aemulus.Ap.Json.{
  Number, whole, Json, null, num, str, arr, obj, Items, nil, cons, Fields, end, field, canonicalize,
}
use aemulus.Ap.Store.{Seals}
use aemulus.Controls.Schema.{
  Numbers, Role, clerk, approver, controller, auditor, OverrideType, duplicate, vendor, amount,
  currency, totals, gl, ceiling, ApControlConfig,
}
use aemulus.Controls.Override.{
  Decision, allow, needs_review, require_second, block, Actor, passed, maker_checker,
  not_authorized, check_second_approver, is_given,
}

pub data Artifact : Type 0 where
  source_invoice replay duplicate_comparison vendor_match : Artifact

abbrev pub same_artifact : Artifact → Artifact → Bool
same_artifact source_invoice source_invoice = true
same_artifact replay replay = true
same_artifact duplicate_comparison duplicate_comparison = true
same_artifact vendor_match vendor_match = true
same_artifact _ _ = false

pub record EvidenceView : Type 0 where
  pub artifact : Artifact
  pub at : ℕ
  pub watched_ms : Option ℕ
  pub compared_to : Option String

-- `string | number | null`.
pub data FieldValue : Type 0 where
  no_value : FieldValue
  text_value : String → FieldValue
  number_value : Number → FieldValue

pub record ActorRef : Type 0 where
  pub user_id : String
  pub role : Role
  pub at : ℕ

-- An event without its seal; a key that is not written is `none`.
pub record UnsealedOverride : Type 0 where
  pub id : String
  pub invoice_id : String
  pub entry_record_id : String
  pub type : OverrideType
  pub field_name : String
  pub original_value : FieldValue
  pub new_value : FieldValue
  pub reason_code : String
  pub reason_note : Option String
  pub actor : ActorRef
  pub second_approver : Option ActorRef
  pub evidence_viewed : List EvidenceView
  pub at : ℕ
  pub seal_prev : String

pub record OverrideEvent : Type 0 where
  pub unsealed : UnsealedOverride
  pub open unsealed use *
  pub seal : String

pub data OverrideWriteError : Type 0 where
  reason_required second_approver_required invalid_second_approver : OverrideWriteError
  evidence_required : List Artifact → OverrideWriteError
  refused_decision : Decision → OverrideWriteError

abbrev pub role_name : Role → String
role_name clerk = "clerk"
role_name approver = "approver"
role_name controller = "controller"
role_name auditor = "auditor"

abbrev pub override_name : OverrideType → String
override_name duplicate = "duplicate"
override_name vendor = "vendor"
override_name amount = "amount"
override_name currency = "currency"
override_name totals = "totals"
override_name gl = "gl"
override_name ceiling = "ceiling"

abbrev pub artifact_name : Artifact → String
artifact_name source_invoice = "sourceInvoice"
artifact_name replay = "replay"
artifact_name duplicate_comparison = "duplicateComparison"
artifact_name vendor_match = "vendorMatch"

abbrev pub value_json : FieldValue → Json
value_json no_value = null
value_json (text_value s) = str s
value_json (number_value x) = num x

abbrev pub actor_json : ActorRef → Json
actor_json a = obj (
    field "userId" (str a.user_id)
      (field "role" (str (role_name a.role)) (field "at" (num (whole a.at)) end)))

abbrev pub optional : String → Option Json → Fields → Fields
optional k none fs = fs
optional k (some v) fs = field k v fs

abbrev pub map_option {ℓ κ} : {A : Type ℓ} {B : Type κ} → (A → B) → Option A → Option B
map_option f none = none
map_option f (some a) = some (f a)

abbrev pub view_json : EvidenceView → Json
view_json v = obj (
    field "artifact" (str (artifact_name v.artifact)) (
      field "at" (num (whole v.at)) (
        optional "watchedMs" (map_option (λ n. num (whole n)) v.watched_ms)
          (optional "comparedTo" (map_option str v.compared_to) end))))

unfoldable pub views_json : List EvidenceView → Items
views_json [] = nil
views_json (v ∷ vs) = cons (view_json v) (views_json vs)

unfoldable pub event_json : UnsealedOverride → Json
unfolding views_json
event_json e = obj (
    field "id" (str e.id) (
      field "invoiceId" (str e.invoice_id) (
        field "entryRecordId" (str e.entry_record_id) (
          field "type" (str (override_name e.type)) (
            field "field" (str e.field_name) (
              field "originalValue" (value_json e.original_value) (
                field "newValue" (value_json e.new_value) (
                  field "reasonCode" (str e.reason_code) (
                    optional "reasonNote" (map_option str e.reason_note) (
                      field "actor" (actor_json e.actor) (
                        optional "secondApprover" (map_option actor_json e.second_approver) (
                          field "evidenceViewed" (arr (views_json e.evidence_viewed)) (
                            field "at" (num (whole e.at))
                              (field "sealPrev" (str e.seal_prev) end))))))))))))))

-- `DEFAULT_REQUIRED_EVIDENCE`.
abbrev pub default_required_evidence : List Artifact
default_required_evidence = source_invoice ∷ replay ∷ []

abbrev pub or_required : Option (List Artifact) → List Artifact
or_required none = default_required_evidence
or_required (some artifacts) = artifacts

-- The required artifacts that no view shows.
unfoldable pub missing_evidence : List Artifact → List EvidenceView → List Artifact
missing_evidence required viewed =
    keep (λ a. not (any (λ v. same_artifact v.artifact a) viewed)) required

module _ (n : Numbers) where
  pub record OverrideLogInput : Type 0 where
    pub prior_seal : String
    pub invoice_id : String
    pub entry_record_id : String
    pub decision : Decision
    pub type : OverrideType
    pub field_name : String
    pub original_value : FieldValue
    pub new_value : FieldValue
    pub reason_code : String
    pub reason_note : Option String
    pub actor : Actor
    pub preparer_id : String
    pub second_approver : Option Actor
    pub evidence_viewed : List EvidenceView
    pub config : ApControlConfig n
    pub now : ℕ
    pub id : String
    pub required_evidence : Option (List Artifact)

  abbrev pub ref_at : ℕ → Actor → ActorRef
  ref_at now a = record { user_id = a.user_id; role = a.role; at = now }

  -- `reason.note ? { reasonNote } : {}`: an empty note is not written.
  abbrev pub written_note : Option String → Option String
  written_note none = none
  written_note (some s) = if s == "" then none else some s

  -- Why the decision, with the second approver, does not allow the write.
  unfoldable pub decision_refusal : OverrideLogInput → Option OverrideWriteError
  decision_refusal i = elim i.decision [
    | allow ↦ none
    | require_second ↦ elim i.second_approver [
      | none ↦ some second_approver_required
      | some second ↦ elim (check_second_approver n i.config i.actor i.preparer_id second) [
        | passed ↦ none
        | maker_checker ↦ some invalid_second_approver
        | not_authorized ↦ some invalid_second_approver
      ]
    ]
    | needs_review ↦ some (refused_decision needs_review)
    | block ↦ some (refused_decision block)
  ]

  abbrev pub refuse_missing : List Artifact → Option OverrideWriteError → Option OverrideWriteError
  refuse_missing [] next = next
  refuse_missing (a ∷ more) next = some (evidence_required (a ∷ more))

  unfoldable pub write_refusal : (String → String) → OverrideLogInput → Option OverrideWriteError
  unfolding decision_refusal missing_evidence
  write_refusal trim i =
      if trim i.reason_code == ""
      then some reason_required
      else refuse_missing (missing_evidence (or_required i.required_evidence) i.evidence_viewed)
          (decision_refusal i)

  unfoldable pub unsealed_override : OverrideLogInput → UnsealedOverride
  unsealed_override i = record {
    id = i.id;
    invoice_id = i.invoice_id;
    entry_record_id = i.entry_record_id;
    type = i.type;
    field_name = i.field_name;
    original_value = i.original_value;
    new_value = i.new_value;
    reason_code = i.reason_code;
    reason_note = written_note i.reason_note;
    actor = ref_at i.now i.actor;
    second_approver = map_option (ref_at i.now) i.second_approver;
    evidence_viewed = i.evidence_viewed;
    at = i.now;
    seal_prev = i.prior_seal;
  }

module _ (s : Seals) where
  open s use {printing, sha256_hex}

  -- The seal of an event: the hash of its canonical text.
  unfoldable pub seal_of : UnsealedOverride → String
  unfolding event_json
  seal_of e = sha256_hex (canonicalize printing (event_json e))

  unfoldable pub write_override_event :
      (n : Numbers)
      → (String → String)
      → OverrideLogInput n
      → Result OverrideWriteError OverrideEvent
  unfolding write_refusal unsealed_override seal_of
  write_override_event n trim i = elim (write_refusal n trim i) [
    | some e ↦ err e
    | none ↦
        ok (record { unsealed = unsealed_override n i; seal = seal_of (unsealed_override n i) })
  ]

  -- The loop of `verifyOverrideChain`: the first index that fails.
  unfoldable pub chain_fault : String → ℕ → List OverrideEvent → Option ℕ
  chain_fault prev i [] = none
  chain_fault prev i (e ∷ es) =
      let later = chain_fault e.seal (i + 1) es in
      if not (e.seal_prev == prev)
      then some i
      else if not (seal_of e.unsealed == e.seal)
      then some i
      else later

  unfoldable pub verify_override_chain : String → List OverrideEvent → Option ℕ
  verify_override_chain genesis events = chain_fault genesis 0 events
