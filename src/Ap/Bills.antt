-- ===== src/Ap/Bills.antt =====
-- lib/ap-controls/ledger.ts: the bills of invoices that are entered without QuickBooks. The table
-- is a list of rows, with the last number that AUTOINCREMENT gave.
pub mod Numbering
use Prim.Native.String.{◌++◌ as text_append}
use aemulus.Common.{
  ℕ, zero, suc, ◌+◌, Bool, ◌&&◌, not, String, string_Eq, Option, none, some, List, [], ◌∷◌, ◌++◌,
  map, length, ltb, ◌==◌, keep, find, sort,
}
use aemulus.Ap.Json.{Number}

pub record Bill : Type 0 where
  pub bill_no : ℕ
  pub workspace_id : String
  pub invoice_id : String
  pub vendor : String
  pub doc_number : String
  pub amount : Number
  pub currency : String
  pub entered_at : ℕ

pub record BillTable : Type 0 where
  pub rows : List Bill
  pub last_no : ℕ

pub record LedgerBillInput : Type 0 where
  pub workspace_id : String
  pub invoice_id : String
  pub vendor : String
  pub doc_number : String
  pub amount : Number
  pub currency : String
  pub now : ℕ

abbrev pub is_bill_of : String → String → Bill → Bool
is_bill_of workspace invoice b = b.workspace_id == workspace && b.invoice_id == invoice

unfoldable pub find_bill : BillTable → String → String → Option Bill
find_bill t workspace invoice = find (is_bill_of workspace invoice) t.rows

abbrev pub new_bill : ℕ → LedgerBillInput → Bill
new_bill number i = record {
  bill_no = number;
  workspace_id = i.workspace_id;
  invoice_id = i.invoice_id;
  vendor = i.vendor;
  doc_number = i.doc_number;
  amount = i.amount;
  currency = i.currency;
  entered_at = i.now;
}

-- `INSERT OR IGNORE`, and the number of the row that is there in the end.
unfoldable pub record_ledger_bill : BillTable → LedgerBillInput → BillTable × ℕ
unfolding find_bill
record_ledger_bill t i = elim (find_bill t i.workspace_id i.invoice_id) [
  | some b ↦ (t, b.bill_no)
  | none ↦ (
    record { rows = t.rows ++ new_bill (t.last_no + 1) i ∷ []; last_no = t.last_no + 1 },
    t.last_no + 1,
  )
]

unfoldable pub delete_ledger_bill : BillTable → String → String → BillTable
delete_ledger_bill t workspace invoice = record t {
  rows = keep (λ b. not (is_bill_of workspace invoice b)) t.rows;
}

-- Count and total of a workspace's bills; the sum is the database's.
unfoldable pub ledger_stats : (List Number → Number) → BillTable → String → ℕ × Number
ledger_stats sum t workspace =
    let mine = keep (λ b. b.workspace_id == workspace) t.rows in
    (length mine, sum (map (λ b. b.amount) mine))

abbrev pub first_bills : ℕ → List Bill → List Bill
first_bills zero bs = []
first_bills (suc n) [] = []
first_bills (suc n) (b ∷ bs) = b ∷ first_bills n bs

unfoldable pub list_ledger_bills : ℕ → BillTable → String → List Bill
list_ledger_bills limit t workspace =
    first_bills limit
      (sort (λ a b. ltb b.bill_no a.bill_no) (keep (λ b. b.workspace_id == workspace) t.rows))

-- `billNumber`: the text of a number is the language's.
abbrev pub bill_number : (ℕ → String) → ℕ → String
bill_number show number = text_append "AEM-" (show number)
