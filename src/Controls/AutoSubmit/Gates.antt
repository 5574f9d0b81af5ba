-- ===== src/Controls/AutoSubmit/Gates.antt =====
-- Which invoices are entered without a person.
use aemulus.Common.{
  ◌≡◌, ◌↔◌, inl, inr, Bool, true, false, String, string_Eq, Option, some, List, [], ◌∷◌, ◌++◌, All,
  Option-cases, arith,
}
use aemulus.Controls.Schema.{Numbers, Thresholds}
use aemulus.Controls.Override.{allow, Detail}
use aemulus.Controls.AutoSubmit.{
  VendorStatus, matched, unknown, ambiguous, required_fields, is_truthy, ExtractedField,
  InvoiceFacts, AutoSubmitInput, last_named, is_present, Fired, fire, check_field, check_fields,
  age_days, check_date, check_vendor, is_null, checks, joined, conclude, evaluate_auto_submit,
}

append_nil : {A : Type 0} (xs ys : List A) → (xs ++ ys ≡ []) ↔ ((xs ≡ []) × (ys ≡ []))
append_nil [] ys = ground arith
append_nil (x ∷ xs) ys = ((λ h. cc), (λ (a, b). cc))

module _ (n : Numbers) where
  open n use {greater}

  -- A required field is there and was read with enough confidence.
  abbrev pub IsRead : Thresholds n → List (ExtractedField n) → String → Type 0
  IsRead t fields name =
      (f : ExtractedField n) × (last_named n name fields ≡ some f)
      × (is_present n f.value ≡ true)
      × (greater t.auto_confidence f.confidence ≡ false)

  -- The gates of the policy.
  pub record Clear (i : AutoSubmitInput n) : Type 0 where
    pub fields_read : All (IsRead i.config.thresholds i.fields) required_fields
    pub no_fallback : i.facts.used_fallback_on_critical ≡ false
    pub reconciled : i.facts.totals_reconciled ≡ true
    pub in_tolerance :
        greater i.facts.totals_discrepancy i.config.thresholds.totals_tolerance ≡ false
    pub not_future : greater i.facts.invoice_date i.now ≡ false
    pub not_stale :
        greater (age_days n i.now i.facts) i.config.thresholds.stale_invoice_days ≡ false
    pub base_currency : i.facts.currency ≡ i.config.thresholds.currency
    pub known_vendor : i.facts.vendor_status ≡ matched
    pub no_duplicate : is_truthy i.facts.duplicate_of ≡ false
    pub under_ceiling : greater i.facts.total i.config.thresholds.approval_ceiling ≡ false
    pub has_account : is_null n i.facts.gl_account ≡ false
    pub confirmed : i.facts.outcome_confirmed ≡ true

  fire_nil :
      (b : Bool) (id code : String) (field : Option String) (detail : List (String × Detail n))
      → (fire n b id code field detail ≡ []) ↔ (b ≡ false)
  fire_nil true id code field detail = ((λ h. cc), (λ h. cc))
  fire_nil false id code field detail = ground arith

  check_field-some_nil :
      (t : Thresholds n) (name : String) (f : ExtractedField n)
      → (check_field n t name (some f) ≡ [])
        ↔ ((is_present n f.value ≡ true) × (greater t.auto_confidence f.confidence ≡ false))
  unfolding check_field
  check_field-some_nil t name f = ground arith

  check_field_nil :
      (t : Thresholds n) (name : String) (fields : List (ExtractedField n))
      → (check_field n t name (last_named n name fields) ≡ []) ↔ IsRead t fields name
  unfolding check_field
  check_field_nil t name fields = elim (Option-cases (last_named n name fields)) [
    | inl e ↦ ((λ h. let h' = rw e at h in cc h'), (λ (f, at, p, c). cc (e, at)))
    | inr (f, e) ↦ (
      (λ h. let (p, c) = (check_field-some_nil t name f).0 (rw e at h) in (f, e, p, c)),
      (λ (g, at, p, c). rw at ((check_field-some_nil t name g).1 (p, c))),
    )
  ]

  check_fields_nil :
      (t : Thresholds n) (fields : List (ExtractedField n)) (names : List String)
      → (check_fields n t fields names ≡ []) ↔ All (IsRead t fields) names
  unfolding check_fields
  check_fields_nil t fields [] = ground arith
  check_fields_nil t fields (name ∷ names) = (
    (λ h.
        let (a, b) = (append_nil (check_field n t name (last_named n name fields)) _).0 h in
        ((check_field_nil t name fields).0 a, (check_fields_nil t fields names).0 b)),
    (λ (a, b).
        (append_nil (check_field n t name (last_named n name fields)) _).1
          ((check_field_nil t name fields).1 a, (check_fields_nil t fields names).1 b)),
  )

  check_date_nil :
      (t : Thresholds n) (f : InvoiceFacts n) (now : n.Number)
      → (check_date n t f now ≡ []) ↔ (
          (greater f.invoice_date now ≡ false)
          × (greater (age_days n now f) t.stale_invoice_days ≡ false))
  unfolding check_date
  check_date_nil t f now = ground arith

  check_vendor_nil : (v : VendorStatus) → (check_vendor n v ≡ []) ↔ (v ≡ matched)
  unfolding check_vendor
  check_vendor_nil matched = ground arith
  check_vendor_nil ambiguous = ground arith
  check_vendor_nil unknown = ground arith

  joined_nil : (xss : List (List (Fired n))) → (joined n xss ≡ []) ↔ All (λ xs. xs ≡ []) xss
  unfolding joined
  joined_nil [] = ground arith
  joined_nil (xs ∷ xss) = (
    (λ h. let (a, b) = (append_nil xs _).0 h in (a, (joined_nil xss).0 b)),
    (λ (a, b). (append_nil xs _).1 (a, (joined_nil xss).1 b)),
  )

  conclude-allow : (fired : List (Fired n)) → ((conclude n fired).decision ≡ allow) ↔ (fired ≡ [])
  conclude-allow [] = ground arith
  conclude-allow (x ∷ xs) = ((λ h. cc), (λ h. cc))

  checks-Clear : (i : AutoSubmitInput n) → All (λ xs. xs ≡ []) (checks n i) → Clear i
  unfolding checks
  checks-Clear i (h1, (h2, (h3, (h4, (h5, (h6, (h7, (h8, (h9, (h10, _)))))))))) =
      let sums = (fire_nil _ _ _ _ _).0 h3 in
      let dates = (check_date_nil i.config.thresholds i.facts i.now).0 h4 in
      record {
        fields_read = (check_fields_nil i.config.thresholds i.fields required_fields).0 h1;
        no_fallback = (fire_nil _ _ _ _ _).0 h2;
        reconciled = ground arith;
        in_tolerance = ground arith;
        not_future = dates.0;
        not_stale = dates.1;
        base_currency = ground (
          arith,
          (fire_nil _ _ _ _ _).0 h5,
          string_Eq.decides i.facts.currency i.config.thresholds.currency,
        );
        known_vendor = (check_vendor_nil i.facts.vendor_status).0 h6;
        no_duplicate = (fire_nil _ _ _ _ _).0 h7;
        under_ceiling = (fire_nil _ _ _ _ _).0 h8;
        has_account = (fire_nil _ _ _ _ _).0 h9;
        confirmed = ground (arith, (fire_nil _ _ _ _ _).0 h10);
      }

  Clear-checks : (i : AutoSubmitInput n) → Clear i → All (λ xs. xs ≡ []) (checks n i)
  unfolding checks
  Clear-checks i c = (
    (check_fields_nil i.config.thresholds i.fields required_fields).1 c.fields_read,
    (
      (fire_nil _ _ _ _ _).1 c.no_fallback,
      (
        (fire_nil _ _ _ _ _).1 (ground (arith, c.reconciled, c.in_tolerance)),
        (
          (check_date_nil i.config.thresholds i.facts i.now).1 (c.not_future, c.not_stale),
          (
            (fire_nil _ _ _ _ _).1 (
                ground (
                  arith,
                  c.base_currency,
                  string_Eq.decides i.facts.currency i.config.thresholds.currency,
                )),
            (
              (check_vendor_nil i.facts.vendor_status).1 c.known_vendor,
              (
                (fire_nil _ _ _ _ _).1 c.no_duplicate,
                (
                  (fire_nil _ _ _ _ _).1 c.under_ceiling,
                  (
                    (fire_nil _ _ _ _ _).1 c.has_account,
                    ((fire_nil _ _ _ _ _).1 (ground (arith, c.confirmed)), tt),
                  ),
                ),
              ),
            ),
          ),
        ),
      ),
    ),
  )

  -- An invoice is entered automatically just where every gate of the policy holds: required
  -- fields present and confident, no fallback, totals reconciled within tolerance, a date neither
  -- in the future nor stale, base currency, known vendor, no duplicate, under the ceiling,
  -- account determined, outcome confirmed.
  pub evaluate_auto_submit-Clear :
      (i : AutoSubmitInput n) → ((evaluate_auto_submit n i).decision ≡ allow) ↔ Clear i
  unfolding evaluate_auto_submit
  evaluate_auto_submit-Clear i = (
    (λ h.
        checks-Clear i
          ((joined_nil (checks n i)).0 ((conclude-allow (joined n (checks n i))).0 h))),
    (λ c.
        (conclude-allow (joined n (checks n i))).1
          ((joined_nil (checks n i)).1 (Clear-checks i c))),
  )
