-- ===== src/Ap/Projections/Order.antt =====
-- The queue of invoices: who is in it, and in what order.
use mathlib.Core.List.{Perm}
use aemulus.Common.{
  ℕ, ◌≡◌, true, false, List, [], ◌∷◌, map, keep, sort, insert_sorted, sort-perm, All, All-mono,
  All-insert_sorted, Bool-cases, arith, inl, inr,
}
use aemulus.Ap.Projections.{InvoiceEntryState}
use aemulus.Ap.Projections.Folds.{
  InvoiceQueueItem, is_waiting, queue_item, is_ahead, build_invoice_queue,
}

-- No item stands behind one that it is ahead of.
abbrev pub IsOrdered : List InvoiceQueueItem → Type 0
IsOrdered [] = Unit
IsOrdered (x ∷ xs) = All (λ y. is_ahead y x ≡ false) xs × IsOrdered xs

not_ahead_trans :
    (x y z : InvoiceQueueItem) → is_ahead z y ≡ false → is_ahead y x ≡ false → is_ahead z x ≡ false
not_ahead_trans x y z h g = ground arith

ahead_asym : (x y : InvoiceQueueItem) → is_ahead x y ≡ true → is_ahead y x ≡ false
ahead_asym x y h = ground arith

insert_sorted-IsOrdered :
    (x : InvoiceQueueItem) (xs : List InvoiceQueueItem)
    → IsOrdered xs
    → IsOrdered (insert_sorted is_ahead x xs)
unfolding insert_sorted
insert_sorted-IsOrdered x [] o = (tt, tt)
insert_sorted-IsOrdered x (y ∷ ys) (first, o) = elim (Bool-cases (is_ahead y x)) [
  | inl ahead ↦ rw ahead (
    All-insert_sorted is_ahead (λ z. is_ahead z y ≡ false) x ys (ahead_asym y x ahead) first,
    insert_sorted-IsOrdered x ys o,
  )
  | inr here ↦ rw here (
    (
      here,
      All-mono (λ z. is_ahead z y ≡ false) (λ z. is_ahead z x ≡ false)
          (λ z h. not_ahead_trans x y z h here) ys first,
    ),
    (first, o),
  )
]

sort-IsOrdered : (xs : List InvoiceQueueItem) → IsOrdered (sort is_ahead xs)
unfolding sort
sort-IsOrdered [] = tt
sort-IsOrdered (x ∷ xs) = insert_sorted-IsOrdered x (sort is_ahead xs) (sort-IsOrdered xs)

-- In the invoice queue no item stands behind one that it is ahead of, and the queue is a
-- permutation of the items of the invoices under review.
pub build_invoice_queue-IsOrdered :
    (states : List InvoiceEntryState) (now : ℕ)
    → IsOrdered (build_invoice_queue states now)
      × Perm (build_invoice_queue states now) (map (queue_item now) (keep is_waiting states))
unfolding build_invoice_queue
build_invoice_queue-IsOrdered states now = (
  sort-IsOrdered (map (queue_item now) (keep is_waiting states)),
  sort-perm is_ahead (map (queue_item now) (keep is_waiting states)),
)
