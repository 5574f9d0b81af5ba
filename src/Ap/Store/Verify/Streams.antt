-- ===== src/Ap/Store/Verify/Streams.antt =====
-- The stream of an aggregate after a row was added to the table.
use mathlib.Core.List.{append-nil}
use aemulus.Common.{
  ◌≤◌, ◌<◌, ◌≡◌, ◌≢◌, refl, ap, inl, inr, Bool, false, some, List, [], ◌∷◌, ◌++◌, ltb, ◌==◌, keep,
  keep-append, keep-yes, keep-no, All, All-mono, sort, insert_sorted, sort-append, All-sort_inv,
  All-insert_sorted_inv, Bool-cases, ==_self, arith,
}
use aemulus.Ap.Store.{Key, key_Eq, EventRow, ApDb, last_row, next_seq, read_aggregate}

pub last_row-append : (xs : List EventRow) (r : EventRow) → last_row (xs ++ r ∷ []) ≡ some r
last_row-append [] r = refl
last_row-append (x ∷ []) r = refl
last_row-append (x ∷ y ∷ rest) r = last_row-append (y ∷ rest) r

pub last_row-cons :
    (x : EventRow) (xs : List EventRow) → (r : EventRow) × (last_row (x ∷ xs) ≡ some r)
last_row-cons x [] = (x, refl)
last_row-cons x (y ∷ rest) = last_row-cons y rest

abbrev in_order : EventRow → EventRow → Bool
in_order a b = ltb a.seq b.seq

-- Every row stands below the next position.
abbrev pub Bounded : List EventRow → Type 0
Bounded xs = All (λ x. x.seq < next_seq (last_row xs)) xs

Bounded-cons :
    (y : EventRow) (ws : List EventRow)
    → y.seq < next_seq (last_row ws)
    → Bounded ws
    → Bounded (y ∷ ws)
Bounded-cons y [] lt b = (omega arith, tt)
Bounded-cons y (w ∷ ws) lt b = (lt, b)

Bounded-tail : (y : EventRow) (ys : List EventRow) → Bounded (y ∷ ys) → Bounded ys
Bounded-tail y [] b = tt
Bounded-tail y (z ∷ zs) b = b.1

insert_sorted-Bounded :
    (x : EventRow) (xs : List EventRow) → Bounded xs → Bounded (insert_sorted in_order x xs)
unfolding insert_sorted
insert_sorted-Bounded x [] b = (omega arith, tt)
insert_sorted-Bounded x (y ∷ ys) b = elim (Bool-cases (in_order y x)) [
  | inl later ↦
      let b' = insert_sorted-Bounded x ys (Bounded-tail y ys b) in
      let (top, _) = All-insert_sorted_inv in_order _ x ys b' in
      rw later (Bounded-cons y (insert_sorted in_order x ys) (ground arith) b')
  | inr here ↦ rw here (Bounded-cons x (y ∷ ys) (ground (arith, b.0)) b)
]

sort-Bounded : (xs : List EventRow) → Bounded (sort in_order xs)
unfolding sort
sort-Bounded [] = tt
sort-Bounded (x ∷ xs) = insert_sorted-Bounded x (sort in_order xs) (sort-Bounded xs)

-- A row at the next position, or above, joins its stream at the end.
pub read_aggregate-append :
    (db db' : ApDb) (row : EventRow)
    → db'.events ≡ db.events ++ row ∷ []
    → next_seq (last_row (read_aggregate db row.key)) ≤ row.seq
    → read_aggregate db' row.key ≡ read_aggregate db row.key ++ row ∷ []
unfolding read_aggregate
read_aggregate-append db db' row e le =
    let mine : List EventRow = keep (λ r. r.key == row.key) db.events in
    let below : All (λ x. x.seq < next_seq (last_row (sort in_order mine))) mine =
      All-sort_inv in_order _ mine (sort-Bounded mine) in
    rw
      (
        e,
        keep-append (λ (r : EventRow). r.key == row.key) db.events (row ∷ []),
        keep-yes (λ (r : EventRow). r.key == row.key) row [] (==_self row.key),
      )
      (sort-append in_order mine row
        (All-mono _ (λ x. in_order row x ≡ false) (λ x lt. ground arith) mine below))

pub read_aggregate-append_other :
    (db db' : ApDb) (row : EventRow) (k : Key)
    → db'.events ≡ db.events ++ row ∷ []
    → row.key ≢ k
    → read_aggregate db' k ≡ read_aggregate db k
unfolding read_aggregate
read_aggregate-append_other db db' row k e n =
    let other : (row.key == k) ≡ false = ground (arith, key_Eq.decides row.key k) in
    rw
      (
        e,
        keep-append (λ (r : EventRow). r.key == k) db.events (row ∷ []),
        keep-no (λ (r : EventRow). r.key == k) row [] other,
      )
      (ap (sort in_order) (append-nil (keep (λ r. r.key == k) db.events)))
