-- ===== src/Controls/AutoSubmit.antt =====
-- lib/ap-controls/evaluate.ts: `evaluateAutoSubmit`.
pub mod Gates
use aemulus.Common.{
  ℕ, Bool, true, false, not, ◌&&◌, ◌||◌, String, string_Eq, Option, none, some, List, [], ◌∷◌, ◌++◌,
  map, ◌==◌, if◌then◌else◌,
}
use aemulus.Controls.Schema.{Numbers, Thresholds, ApControlConfig}
use aemulus.Controls.Override.{
  Decision, allow, needs_review, Reason, Detail, number, text, EvalResult, mk,
}

pub data VendorStatus : Type 0 where
  matched ambiguous unknown : VendorStatus

-- `REQUIRED_FIELDS`.
abbrev pub required_fields : List String
required_fields = "vendor" ∷ "invoiceNumber" ∷ "invoiceDate" ∷ "subtotal" ∷ "tax" ∷ "total" ∷ []

-- Text that JavaScript takes for true.
abbrev pub is_truthy : Option String → Bool
is_truthy none = false
is_truthy (some s) = not (s == "")

module _ (n : Numbers) where
  open n use {Number, lit, greater, minus, divide, round}

  pub data Value : Type 0 where
    a_text : String → Value
    a_number : Number → Value
    a_null : Value

  pub record ExtractedField : Type 0 where
    pub field : String
    pub value : Value
    pub confidence : Number

  pub record InvoiceFacts : Type 0 where
    pub total : Number
    pub currency : String
    pub invoice_date : Number
    pub vendor_status : VendorStatus
    pub duplicate_of : Option String
    pub totals_reconciled : Bool
    pub totals_discrepancy : Number
    pub gl_account : Option String
    pub gl_sensitive : Bool
    pub used_fallback_on_critical : Bool
    pub outcome_confirmed : Bool

  pub record AutoSubmitInput : Type 0 where
    pub facts : InvoiceFacts
    pub fields : List ExtractedField
    pub config : ApControlConfig n
    pub now : Number

  -- `new Map(…).get(name)`: of two fields with one name the later one counts.
  unfoldable pub last_named : String → List ExtractedField → Option ExtractedField
  last_named name [] = none
  last_named name (f ∷ fs) =
      let later = last_named name fs in
      elim later [ some g ↦ some g | none ↦ if f.field == name then some f else none ]

  abbrev pub is_present : Value → Bool
  is_present (a_text s) = not (s == "")
  is_present (a_number x) = true
  is_present a_null = false

  -- A fired rule with its reason.
  abbrev pub Fired : Type 0
  Fired = String × Reason n

  abbrev pub fire : Bool → String → String → Option String → List (String × Detail n) → List Fired
  fire false id code field detail = []
  fire true id code field detail = (id, record { code = code; field = field; detail = detail }) ∷ []

  unfoldable pub check_field : Thresholds n → String → Option ExtractedField → List Fired
  check_field t name none = fire true "AUTO.COMPLETENESS" "REQUIRED_FIELD_MISSING" (some name) []
  check_field t name (some f) =
      if not (is_present f.value)
      then fire true "AUTO.COMPLETENESS" "REQUIRED_FIELD_MISSING" (some name) []
      else fire (greater t.auto_confidence f.confidence) "AUTO.CONFIDENCE" "LOW_CONFIDENCE"
          (some name)
          (("confidence", number f.confidence) ∷ ("need", number t.auto_confidence) ∷ [])

  unfoldable pub check_fields : Thresholds n → List ExtractedField → List String → List Fired
  check_fields t fields [] = []
  check_fields t fields (name ∷ names) =
      check_field t name (last_named name fields) ++ check_fields t fields names

  abbrev pub age_days : Number → InvoiceFacts → Number
  age_days now f = divide (minus now f.invoice_date) (lit 86400000 0)

  unfoldable pub check_date : Thresholds n → InvoiceFacts → Number → List Fired
  check_date t f now =
      if greater f.invoice_date now
      then fire true "AUTO.DATE" "FUTURE_DATE" (some "invoiceDate") []
      else fire (greater (age_days now f) t.stale_invoice_days) "AUTO.DATE" "STALE_DATE"
          (some "invoiceDate") (("ageDays", number (round (age_days now f))) ∷ [])

  unfoldable pub check_vendor : VendorStatus → List Fired
  check_vendor unknown = fire true "AUTO.VENDOR" "NEW_VENDOR" (some "vendor") []
  check_vendor ambiguous = fire true "AUTO.VENDOR" "AMBIGUOUS_VENDOR" (some "vendor") []
  check_vendor matched = []

  abbrev pub named : Option String → List (String × Detail n)
  named none = []
  named (some d) = ("duplicateOf", text d) ∷ []

  abbrev pub is_null : Option String → Bool
  is_null none = true
  is_null (some _) = false

  -- The checks, in the order of the code.
  unfoldable pub checks : AutoSubmitInput → List (List Fired)
  checks i =
      let f = i.facts in
      let t = i.config.thresholds in
      check_fields t i.fields required_fields
      ∷ fire f.used_fallback_on_critical "AUTO.CONFIDENCE" "FALLBACK_ON_CRITICAL" none []
      ∷ fire (not f.totals_reconciled || greater f.totals_discrepancy t.totals_tolerance)
          "AUTO.TOTALS" "TOTALS_MISMATCH" (some "total")
          (("discrepancy", number f.totals_discrepancy) ∷ [])
      ∷ check_date t f i.now
      ∷ fire (not (f.currency == t.currency)) "AUTO.CURRENCY" "FOREIGN_CURRENCY" (some "currency")
          (("currency", text f.currency) ∷ [])
      ∷ check_vendor f.vendor_status
      ∷ fire (is_truthy f.duplicate_of) "AUTO.DUPLICATE" "DUPLICATE" (some "invoiceNumber")
          (named f.duplicate_of)
      ∷ fire (greater f.total t.approval_ceiling) "AUTO.CEILING" "OVER_CEILING" (some "total")
          (("total", number f.total) ∷ ("ceiling", number t.approval_ceiling) ∷ [])
      ∷ fire (is_null f.gl_account) "AUTO.GL" "GL_UNDETERMINED" (some "glAccount") []
      ∷ fire (not f.outcome_confirmed) "AUTO.OUTCOME" "OUTCOME_UNCONFIRMED" none []
      ∷ []

  unfoldable pub joined : List (List Fired) → List Fired
  joined [] = []
  joined (xs ∷ xss) = xs ++ joined xss

  abbrev pub conclude : List Fired → EvalResult n
  conclude [] = mk n allow [] []
  conclude (x ∷ xs) = mk n needs_review (map (λ r. r.1) (x ∷ xs)) (map (λ r. r.0) (x ∷ xs))

  unfoldable pub evaluate_auto_submit : AutoSubmitInput → EvalResult n
  evaluate_auto_submit i = conclude (joined (checks i))
