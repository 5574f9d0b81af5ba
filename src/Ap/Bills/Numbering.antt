-- ===== src/Ap/Bills/Numbering.antt =====
-- lib/ap-controls/ledger.ts: one bill for an invoice, and no number twice.
use aemulus.Common.{
  ℕ, ◌+◌, ◌≤◌, ◌≡◌, ◌≢◌, refl, ap, ◌∙◌, inl, inr, Bool, true, false, not, String, string_Eq, none,
  some, List, [], ◌∷◌, ◌++◌, ==_self, keep, find, find-yes, keep-yes, keep-no, All, All-mono,
  Bool-cases, Option-cases, arith,
}
use aemulus.Ap.Bills.{
  Bill, BillTable, LedgerBillInput, is_bill_of, find_bill, new_bill, record_ledger_bill,
  delete_ledger_bill,
}

-- Two bills of different invoices, with different numbers.
pub record Differ (a b : Bill) : Type 0 where
  pub invoices : is_bill_of a.workspace_id a.invoice_id b ≡ false
  pub numbers : a.bill_no ≢ b.bill_no

abbrev pub AllDiffer : List Bill → Type 0
AllDiffer [] = Unit
AllDiffer (b ∷ bs) = All (Differ b) bs × AllDiffer bs

-- The numbers given are up to the last one, and no two bills share a number or an invoice.
pub record IsNumbered (t : BillTable) : Type 0 where
  pub given : All (λ b. b.bill_no ≤ t.last_no) t.rows
  pub apart : AllDiffer t.rows

find-append {ℓ} :
    {A : Type ℓ} (p : A → Bool) (xs : List A) (x : A)
    → find p xs ≡ none
    → p x ≡ true
    → find p (xs ++ x ∷ []) ≡ some x
find-append p [] x h e = find-yes p x [] e
find-append p (y ∷ xs) x h e = ground (arith, find-append p xs x)

find-keep-none {ℓ} :
    {A : Type ℓ} (p : A → Bool) (xs : List A) → find p (keep (λ x. not (p x)) xs) ≡ none
find-keep-none p [] = refl
find-keep-none p (x ∷ xs) = ground (arith, find-keep-none p xs)

abbrev with_bill : BillTable → LedgerBillInput → BillTable
with_bill t i = record { rows = t.rows ++ new_bill (t.last_no + 1) i ∷ []; last_no = t.last_no + 1 }

record_old :
    (t : BillTable) (i : LedgerBillInput) (b : Bill)
    → find_bill t i.workspace_id i.invoice_id ≡ some b
    → record_ledger_bill t i ≡ (t, b.bill_no)
unfolding record_ledger_bill
record_old t i b e = rw (e, record_ledger_bill) refl

record_new :
    (t : BillTable) (i : LedgerBillInput)
    → find_bill t i.workspace_id i.invoice_id ≡ none
    → record_ledger_bill t i ≡ (with_bill t i, t.last_no + 1)
unfolding record_ledger_bill
record_new t i e = rw (e, record_ledger_bill) refl

find_bill-with_bill :
    (t : BillTable) (i : LedgerBillInput)
    → find_bill t i.workspace_id i.invoice_id ≡ none
    → find_bill (with_bill t i) i.workspace_id i.invoice_id ≡ some (new_bill (t.last_no + 1) i)
unfolding find_bill
find_bill-with_bill t i e =
    find-append (is_bill_of i.workspace_id i.invoice_id) t.rows (new_bill (t.last_no + 1) i) e
      (rw (==_self i.workspace_id, ==_self i.invoice_id) refl)

-- What is recorded is found, under the number that was answered.
pub find_bill-record_ledger_bill :
    (t : BillTable) (i : LedgerBillInput)
    → (b : Bill) × (find_bill (record_ledger_bill t i).0 i.workspace_id i.invoice_id ≡ some b)
      × (b.bill_no ≡ (record_ledger_bill t i).1)
find_bill-record_ledger_bill t i = elim (Option-cases (find_bill t i.workspace_id i.invoice_id)) [
  | inr (b, e) ↦ rw (record_old t i b e) (b, e, refl)
  | inl e ↦ rw (record_new t i e) (new_bill (t.last_no + 1) i, find_bill-with_bill t i e, refl)
]

-- To record the bill of an invoice again changes nothing.
pub record_ledger_bill-again :
    (t : BillTable) (i j : LedgerBillInput)
    → j.workspace_id ≡ i.workspace_id
    → j.invoice_id ≡ i.invoice_id
    → record_ledger_bill (record_ledger_bill t i).0 j ≡ record_ledger_bill t i
record_ledger_bill-again t i j w v =
    let (b, found, number) = find_bill-record_ledger_bill t i in
    record_old (record_ledger_bill t i).0 j b (rw (w, v) found)
    ∙ ap (λ (k : ℕ). ((record_ledger_bill t i).0, k)) number

pub find_bill-delete_ledger_bill :
    (t : BillTable) (workspace invoice : String)
    → find_bill (delete_ledger_bill t workspace invoice) workspace invoice ≡ none
unfolding find_bill delete_ledger_bill
find_bill-delete_ledger_bill t workspace invoice =
    find-keep-none (is_bill_of workspace invoice) t.rows

All-append_one {ℓ κ} :
    {A : Type ℓ} (P : A → Type κ) (xs : List A) (x : A) → All P xs → P x → All P (xs ++ x ∷ [])
All-append_one P [] x ps p = (p, tt)
All-append_one P (y ∷ xs) x (q, ps) p = (q, All-append_one P xs x ps p)

AllDiffer-append :
    (bs : List Bill) (b : Bill) → AllDiffer bs → All (λ a. Differ a b) bs → AllDiffer (bs ++ b ∷ [])
AllDiffer-append [] b d n = (tt, tt)
AllDiffer-append (a ∷ bs) b (d, ds) (n, ns) =
    (All-append_one (Differ a) bs b d n, AllDiffer-append bs b ds ns)

-- Where an invoice has no bill, a bill of it with a new number differs from all.
new-Differ :
    (i : LedgerBillInput) (last : ℕ) (bs : List Bill)
    → find (is_bill_of i.workspace_id i.invoice_id) bs ≡ none
    → All (λ b. b.bill_no ≤ last) bs
    → All (λ a. Differ a (new_bill (last + 1) i)) bs
new-Differ i last [] e g = tt
new-Differ i last (b ∷ bs) e (g, gs) = (
  record {
    invoices = ground (
      arith,
      e,
      string_Eq.decides i.workspace_id b.workspace_id,
      string_Eq.decides b.workspace_id i.workspace_id,
      string_Eq.decides i.invoice_id b.invoice_id,
      string_Eq.decides b.invoice_id i.invoice_id,
    );
    numbers = λ s. absurd (omega (arith, s));
  },
  new-Differ i last bs (ground arith) gs,
)

All-keep {ℓ κ} :
    {A : Type ℓ} (P : A → Type κ) (p : A → Bool) (xs : List A) → All P xs → All P (keep p xs)
All-keep P p [] ps = tt
All-keep P p (x ∷ xs) (q, ps) = elim (Bool-cases (p x)) [
  | inl stays ↦ rw (keep-yes p x xs stays) (q, All-keep P p xs ps)
  | inr gone ↦ rw (keep-no p x xs gone) (All-keep P p xs ps)
]

AllDiffer-keep : (p : Bill → Bool) (bs : List Bill) → AllDiffer bs → AllDiffer (keep p bs)
AllDiffer-keep p [] d = tt
AllDiffer-keep p (b ∷ bs) (d, ds) = elim (Bool-cases (p b)) [
  | inl stays ↦ rw (keep-yes p b bs stays) (All-keep (Differ b) p bs d, AllDiffer-keep p bs ds)
  | inr gone ↦ rw (keep-no p b bs gone) (AllDiffer-keep p bs ds)
]

-- A recorded bill keeps the numbering sound.
pub record_ledger_bill-IsNumbered :
    (t : BillTable) (i : LedgerBillInput) → IsNumbered t → IsNumbered (record_ledger_bill t i).0
record_ledger_bill-IsNumbered t i v =
    elim (Option-cases (find_bill t i.workspace_id i.invoice_id)) [
      | inr (b, e) ↦ rw (record_old t i b e) v
      | inl e ↦ rw (record_new t i e) (record {
        given =
            All-append_one (λ b. b.bill_no ≤ t.last_no + 1) t.rows (new_bill (t.last_no + 1) i)
              (All-mono (λ b. b.bill_no ≤ t.last_no) (λ b. b.bill_no ≤ t.last_no + 1)
                (λ b le. omega (arith, le)) t.rows v.given)
              (omega arith);
        apart =
            AllDiffer-append t.rows (new_bill (t.last_no + 1) i) v.apart
              (new-Differ i t.last_no t.rows (unfold find_bill in e) v.given);
      })
    ]

pub delete_ledger_bill-IsNumbered :
    (t : BillTable) (workspace invoice : String)
    → IsNumbered t
    → IsNumbered (delete_ledger_bill t workspace invoice)
unfolding delete_ledger_bill
delete_ledger_bill-IsNumbered t workspace invoice v = record {
  given =
      All-keep (λ b. b.bill_no ≤ t.last_no) (λ b. not (is_bill_of workspace invoice b)) t.rows
        v.given;
  apart = AllDiffer-keep (λ b. not (is_bill_of workspace invoice b)) t.rows v.apart;
}
