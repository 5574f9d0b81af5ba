-- ===== src/Controls/Samples.antt =====
-- lib/ap-controls/schema.ts: the two sample configurations.
pub mod Policy
use aemulus.Common.{true, false, some, none, [], ◌∷◌}
use aemulus.Controls.Schema.{
  Numbers, clerk, approver, controller, auditor, invoice_review, invoice_submit, override_duplicate,
  override_vendor, override_amount, override_currency, override_totals, override_gl,
  override_ceiling, approve_second, vendor_request, vendor_approve, vendor_bank, config_manage,
  audit_view, duplicate, vendor, amount, currency, totals, gl, ceiling, always, amount_above,
  account_flagged_sensitive, discrepancy_above, no_block, block_amount_above,
  block_discrepancy_above, ApControlConfig,
}

module _ (n : Numbers) where
  open n use {lit}

  unfoldable pub small_firm : ApControlConfig n
  small_firm = record {
    version = 1;
    org_id = "firm_small";
    thresholds = record {
      currency = "USD";
      auto_confidence = lit 9 1;
      approval_ceiling = lit 1000 0;
      dual_threshold = lit 5000 0;
      hard_cap = lit 25000 0;
      totals_tolerance = lit 1 2;
      totals_hard_limit_pct = lit 5 2;
      totals_hard_limit_abs = lit 250 0;
      stale_invoice_days = lit 120 0;
    };
    roles =
        record {
          role = clerk;
          permissions =
              invoice_review ∷ invoice_submit ∷ override_duplicate ∷ override_vendor
              ∷ override_amount ∷ override_totals ∷ override_gl ∷ vendor_request ∷ audit_view ∷ [];
        }
        ∷ record {
          role = controller;
          permissions =
              invoice_review ∷ invoice_submit ∷ override_duplicate ∷ override_vendor
              ∷ override_amount ∷ override_currency ∷ override_totals ∷ override_gl
              ∷ override_ceiling ∷ approve_second ∷ vendor_request ∷ vendor_approve ∷ vendor_bank
              ∷ config_manage ∷ audit_view ∷ [];
        }
        ∷ [];
    overrides =
        record {
          type = duplicate;
          permission = override_duplicate;
          reason_required = true;
          second_approval = amount_above (lit 1000 0);
          hard_block = block_amount_above (lit 25000 0) config_manage;
        }
        ∷ record {
          type = amount;
          permission = override_amount;
          reason_required = true;
          second_approval = amount_above (lit 5000 0);
          hard_block = block_amount_above (lit 25000 0) config_manage;
        }
        ∷ record {
          type = vendor;
          permission = override_vendor;
          reason_required = true;
          second_approval = amount_above (lit 5000 0);
          hard_block = no_block;
        }
        ∷ record {
          type = currency;
          permission = override_currency;
          reason_required = true;
          second_approval = always;
          hard_block = block_amount_above (lit 5000 0) config_manage;
        }
        ∷ record {
          type = totals;
          permission = override_totals;
          reason_required = true;
          second_approval = discrepancy_above none (some (lit 1000 0));
          hard_block = block_discrepancy_above (lit 5 2) (lit 250 0);
        }
        ∷ record {
          type = gl;
          permission = override_gl;
          reason_required = false;
          second_approval = account_flagged_sensitive;
          hard_block = no_block;
        }
        ∷ record {
          type = ceiling;
          permission = override_ceiling;
          reason_required = true;
          second_approval = amount_above (lit 5000 0);
          hard_block = block_amount_above (lit 25000 0) config_manage;
        }
        ∷ [];
    vendor_policy = record {
      request_permission = vendor_request;
      approve_permission = vendor_approve;
      bank_permission = vendor_bank;
      maker_checker_enforced = true;
      bank_change_dual_approval = true;
      bank_change_out_of_band_verify = false;
      first_invoice_always_review = true;
      first_invoice_separate_approver = false;
    };
    sensitive_gl_accounts = "Owner Draw" ∷ "Intercompany" ∷ [];
  }

  unfoldable pub large_team : ApControlConfig n
  large_team = record {
    version = 1;
    org_id = "corp_finance";
    thresholds = record {
      currency = "USD";
      auto_confidence = lit 92 2;
      approval_ceiling = lit 5000 0;
      dual_threshold = lit 25000 0;
      hard_cap = lit 100000 0;
      totals_tolerance = lit 1 2;
      totals_hard_limit_pct = lit 3 2;
      totals_hard_limit_abs = lit 500 0;
      stale_invoice_days = lit 90 0;
    };
    roles =
        record {
          role = clerk;
          permissions =
              invoice_review ∷ invoice_submit ∷ override_duplicate ∷ override_vendor
              ∷ override_amount ∷ override_totals ∷ override_gl ∷ vendor_request ∷ [];
        }
        ∷ record {
          role = approver;
          permissions =
              invoice_review ∷ invoice_submit ∷ override_duplicate ∷ override_vendor
              ∷ override_amount ∷ override_currency ∷ override_totals ∷ override_gl
              ∷ override_ceiling ∷ approve_second ∷ vendor_request ∷ vendor_approve ∷ [];
        }
        ∷ record {
          role = controller;
          permissions =
              invoice_review ∷ invoice_submit ∷ override_duplicate ∷ override_vendor
              ∷ override_amount ∷ override_currency ∷ override_totals ∷ override_gl
              ∷ override_ceiling ∷ approve_second ∷ vendor_request ∷ vendor_approve ∷ vendor_bank
              ∷ config_manage ∷ audit_view ∷ [];
        }
        ∷ record { role = auditor; permissions = invoice_review ∷ audit_view ∷ [] }
        ∷ [];
    overrides =
        record {
          type = duplicate;
          permission = override_duplicate;
          reason_required = true;
          second_approval = amount_above (lit 5000 0);
          hard_block = block_amount_above (lit 100000 0) config_manage;
        }
        ∷ record {
          type = amount;
          permission = override_amount;
          reason_required = true;
          second_approval = amount_above (lit 25000 0);
          hard_block = block_amount_above (lit 100000 0) config_manage;
        }
        ∷ record {
          type = vendor;
          permission = override_vendor;
          reason_required = true;
          second_approval = amount_above (lit 25000 0);
          hard_block = no_block;
        }
        ∷ record {
          type = currency;
          permission = override_currency;
          reason_required = true;
          second_approval = always;
          hard_block = block_amount_above (lit 25000 0) config_manage;
        }
        ∷ record {
          type = totals;
          permission = override_totals;
          reason_required = true;
          second_approval = discrepancy_above (some (lit 1 2)) (some (lit 500 0));
          hard_block = block_discrepancy_above (lit 3 2) (lit 500 0);
        }
        ∷ record {
          type = gl;
          permission = override_gl;
          reason_required = true;
          second_approval = account_flagged_sensitive;
          hard_block = no_block;
        }
        ∷ record {
          type = ceiling;
          permission = override_ceiling;
          reason_required = true;
          second_approval = amount_above (lit 25000 0);
          hard_block = block_amount_above (lit 100000 0) config_manage;
        }
        ∷ [];
    vendor_policy = record {
      request_permission = vendor_request;
      approve_permission = vendor_approve;
      bank_permission = vendor_bank;
      maker_checker_enforced = true;
      bank_change_dual_approval = true;
      bank_change_out_of_band_verify = true;
      first_invoice_always_review = true;
      first_invoice_separate_approver = true;
    };
    sensitive_gl_accounts = "Capex" ∷ "Intercompany" ∷ "Payroll Clearing" ∷ "Tax Payable" ∷ [];
  }
