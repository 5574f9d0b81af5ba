-- ===== src/Batches/Rows.antt =====
-- lib/receipt-batch.ts: rows by their id, through the claim and the writes.
use aemulus.Common.{
  ◌≡◌, refl, inl, inr, Bool, true, false, ◌||◌, String, string_Eq, Option, none, some, List, [],
  ◌∷◌, map, ◌==◌, ==_sound, if◌then◌else◌, any, find, sort, insert_sorted, All, Bool-cases, arith,
  ap, ◌∙◌, subst,
}
use aemulus.Batches.{ReceiptRow, update}

unfoldable pub get_run : String → List ReceiptRow → Option ReceiptRow
get_run id rows = find (λ r. r.id == id) rows

abbrev pub changed : Bool → (ReceiptRow → ReceiptRow) → Option ReceiptRow → Option ReceiptRow
changed hit f none = none
changed hit f (some r) = some (if hit then f r else r)

pub get_run-update :
    (id j : String) (f : ReceiptRow → ReceiptRow) (rows : List ReceiptRow)
    → ((x : ReceiptRow) → (f x).id ≡ x.id)
    → get_run id (update j f rows) ≡ changed (id == j) f (get_run id rows)
unfolding get_run update
get_run-update id j f [] k = refl
get_run-update id j f (r ∷ rows) k = ground (
  arith,
  k r,
  get_run-update id j f rows k,
  string_Eq.decides r.id j,
  string_Eq.decides r.id id,
  string_Eq.decides id j,
)

-- A change of each row by itself.
pub get_run-map :
    (id : String) (g : ReceiptRow → ReceiptRow) (rows : List ReceiptRow)
    → ((x : ReceiptRow) → (g x).id ≡ x.id)
    → get_run id (map g rows) ≡ changed true g (get_run id rows)
unfolding get_run
get_run-map id g [] k = refl
get_run-map id g (r ∷ rows) k = ground (arith, k r, get_run-map id g rows k)

-- Ids are a key.
abbrev pub IsKeyed : List ReceiptRow → Type 0
IsKeyed [] = Unit
IsKeyed (r ∷ rows) = All (λ (x : ReceiptRow). (x.id == r.id) ≡ false) rows × IsKeyed rows

module _ {ℓ} {A : Type ℓ} (before : A → A → Bool) where
  any-insert_sorted :
      (p : A → Bool) (x : A) (xs : List A) → any p (insert_sorted before x xs) ≡ p x || any p xs
  unfolding insert_sorted
  any-insert_sorted p x [] = refl
  any-insert_sorted p x (y ∷ ys) = ground (arith, any-insert_sorted p x ys)

  pub any-sort : (p : A → Bool) (xs : List A) → any p (sort before xs) ≡ any p xs
  unfolding sort
  any-sort p [] = refl
  any-sort p (x ∷ xs) = any-insert_sorted p x (sort before xs) ∙ ap (λ b. p x || b) (any-sort p xs)

pub any-map {ℓ κ} :
    {A : Type ℓ} {B : Type κ} (p : B → Bool) (f : A → B) (xs : List A)
    → any p (map f xs) ≡ any (λ x. p (f x)) xs
any-map p f [] = refl
any-map p f (x ∷ xs) = ap (λ b. p (f x) || b) (any-map p f xs)

-- The row that is found under an id has what all rows have.
pub All-get_run {κ} :
    (P : ReceiptRow → Type κ) (id : String) (rows : List ReceiptRow) (r : ReceiptRow)
    → All P rows
    → get_run id rows ≡ some r
    → P r
unfolding get_run
All-get_run P id [] r ps h = cc
All-get_run P id (x ∷ rows) r (p, ps) h = elim (Bool-cases (x.id == id)) [
  | inl here ↦ (let same : x ≡ r = ground arith in subst P same p)
  | inr there ↦ All-get_run P id rows r ps (ground arith)
]

-- Where ids are a key, each row is found under its id.
get_run-later :
    (x : ReceiptRow) (rows : List ReceiptRow)
    → All (λ (y : ReceiptRow). (y.id == x.id) ≡ false) rows
    → All (λ (y : ReceiptRow). get_run y.id rows ≡ some y) rows
    → All (λ (y : ReceiptRow). get_run y.id (x ∷ rows) ≡ some y) rows
unfolding get_run
get_run-later x rows apart found = go rows apart found
  where
    go :
        (ys : List ReceiptRow)
        → All (λ (y : ReceiptRow). (y.id == x.id) ≡ false) ys
        → All (λ (y : ReceiptRow). get_run y.id rows ≡ some y) ys
        → All (λ (y : ReceiptRow). get_run y.id (x ∷ rows) ≡ some y) ys
    go [] as' bs = tt
    go (y ∷ ys) (a, as') (b, bs) =
        (ground (arith, string_Eq.decides y.id x.id, string_Eq.decides x.id y.id), go ys as' bs)

pub IsKeyed-found :
    (rows : List ReceiptRow)
    → IsKeyed rows
    → All (λ (y : ReceiptRow). get_run y.id rows ≡ some y) rows
unfolding get_run
IsKeyed-found [] k = tt
IsKeyed-found (x ∷ rows) (apart, k) =
    (ground (arith, string_Eq.decides x.id x.id), get_run-later x rows apart (IsKeyed-found rows k))

All-map_row :
    (x : ReceiptRow) (g : ReceiptRow → ReceiptRow) (rows : List ReceiptRow)
    → ((y : ReceiptRow) → (g y).id ≡ y.id)
    → All (λ (y : ReceiptRow). (y.id == x.id) ≡ false) rows
    → All (λ (y : ReceiptRow). (y.id == (g x).id) ≡ false) (map g rows)
All-map_row x g [] k ps = tt
All-map_row x g (y ∷ rows) k (p, ps) = (rw (k y, k x) p, All-map_row x g rows k ps)

pub IsKeyed-map :
    (g : ReceiptRow → ReceiptRow) (rows : List ReceiptRow)
    → ((y : ReceiptRow) → (g y).id ≡ y.id)
    → IsKeyed rows
    → IsKeyed (map g rows)
IsKeyed-map g [] k h = tt
IsKeyed-map g (x ∷ rows) k (p, h) = (All-map_row x g rows k p, IsKeyed-map g rows k h)

pub get_run-id :
    (id : String) (rows : List ReceiptRow) (r : ReceiptRow) → get_run id rows ≡ some r → r.id ≡ id
unfolding get_run
get_run-id id [] r h = cc
get_run-id id (x ∷ rows) r h = elim (Bool-cases (x.id == id)) [
  | inl here ↦
      (let same : x ≡ r = ground arith in
        subst (λ (z : ReceiptRow). z.id ≡ id) same (==_sound x.id id here))
  | inr there ↦ get_run-id id rows r (ground arith)
]
