-- ===== src/Ap/Store/Verify/Verdicts.antt =====
-- What a verdict says of the stream and the head it was made from.

use aemulus.Common.{
  ℕ, ◌+◌, ◌≡◌, sym, ◌∙◌, ap, inl, inr, string_Eq, Option, none, some, List, [], ◌∷◌, ◌++◌, length,
  length-append, Option-cases, ==_self, arith,
}
use aemulus.Ap.Store.{
  Key, key_Eq, EventRow, Head, ApDb, Seals, genesis_for, last_row, read_aggregate, load_head,
}
use aemulus.Ap.Store.Append.{head_mac}
use aemulus.Ap.Store.Verify.{
  Reason, valid, broken, last_seal, first_fault, check_head, conclude, verify_aggregate,
}
use aemulus.Ap.Store.Verify.Streams.{last_row-append}

module _ (s : Seals) where
  pub verify_aggregate-none :
      (db : ApDb) (k : Key)
      → first_fault s 0 (genesis_for k.aggregate_type k.aggregate_id) (read_aggregate db k) ≡ none
      → verify_aggregate s db k ≡ check_head s k (read_aggregate db k) (load_head db k)
  unfolding verify_aggregate
  verify_aggregate-none db k e = ap (conclude s k (read_aggregate db k) (load_head db k)) e

  pub verify_aggregate-some :
      (db : ApDb) (k : Key) (f : ℕ × Reason)
      → first_fault s 0 (genesis_for k.aggregate_type k.aggregate_id) (read_aggregate db k) ≡ some f
      → verify_aggregate s db k ≡ broken (length (read_aggregate db k)) f.0 f.1
  unfolding verify_aggregate
  verify_aggregate-some db k f e = ap (conclude s k (read_aggregate db k) (load_head db k)) e

  pub check_head-length :
      (k : Key) (rows : List EventRow) (head : Option Head) (n : ℕ)
      → check_head s k rows head ≡ valid n
      → n ≡ length rows
  unfolding check_head
  check_head-length k [] none n h = ground arith
  check_head-length k (x ∷ rows) none n h = cc
  check_head-length k [] (some d) n h = ground arith
  check_head-length k (x ∷ rows) (some d) n h = ground arith

  pub check_head-count :
      (k : Key) (rows : List EventRow) (d : Head) (n : ℕ)
      → check_head s k rows (some d) ≡ valid n
      → d.seq_count ≡ length rows
  unfolding check_head
  check_head-count k [] d n h = ground arith
  check_head-count k (x ∷ rows) d n h = ground arith

  pub check_head-some :
      (k : Key) (rows : List EventRow) (d : Head)
      → d.seq_count ≡ length rows
      → d.head_mac ≡ head_mac s k (length rows) (last_seal (last_row rows))
      → check_head s k rows (some d) ≡ valid (length rows)
  unfolding check_head
  check_head-some k rows d count mac =
      ground (arith, mac, ==_self (head_mac s k (length rows) (last_seal (last_row rows))))

  pub check_head-fresh :
      (k : Key) (rows : List EventRow) (r : EventRow) (h : Head)
      → h.seq_count ≡ length rows + 1
      → h.head_mac ≡ head_mac s k (length rows + 1) r.seal
      → check_head s k (rows ++ r ∷ []) (some h) ≡ valid (length rows + 1)
  unfolding check_head
  check_head-fresh k rows r h count mac =
      rw (length-append rows (r ∷ []), last_row-append rows r)
        (ground (arith, mac, ==_self (head_mac s k (length rows + 1) r.seal)))

  verify_aggregate-check_head :
      (db : ApDb) (k : Key) (n : ℕ)
      → verify_aggregate s db k ≡ valid n
      → check_head s k (read_aggregate db k) (load_head db k) ≡ valid n
  verify_aggregate-check_head db k n v =
      elim (Option-cases
        (first_fault s 0 (genesis_for k.aggregate_type k.aggregate_id) (read_aggregate db k))) [
          | inr (f, e) ↦ let x = sym (verify_aggregate-some db k f e) ∙ v in cc x
          | inl e ↦ sym (verify_aggregate-none db k e) ∙ v
        ]

  check_head-none :
      (k : Key) (rows : List EventRow) (n : ℕ) → check_head s k rows none ≡ valid n → n ≡ 0
  unfolding check_head
  check_head-none k [] n h = ground arith
  check_head-none k (x ∷ rows) n h = cc

  -- Two states of the tables with the same head for an aggregate, both with a valid chain of it,
  -- hold chains of one length, which both verdicts report.
  pub verify_aggregate-truncated :
      (db db' : ApDb) (k : Key) (m n : ℕ)
      → load_head db k ≡ load_head db' k
      → verify_aggregate s db k ≡ valid m
      → verify_aggregate s db' k ≡ valid n
      → (m ≡ n) × (m ≡ length (read_aggregate db k)) × (n ≡ length (read_aggregate db' k))
  verify_aggregate-truncated db db' k m n head v v' =
      let size = check_head-length k _ _ m (verify_aggregate-check_head db k m v) in
      let size' = check_head-length k _ _ n (verify_aggregate-check_head db' k n v') in
      let w' = rw (← head) at (verify_aggregate-check_head db' k n v') in
      elim (Option-cases (load_head db k)) [
        | inl e ↦
            let w = rw e at (verify_aggregate-check_head db k m v) in
            let w'' = rw e at w' in
            let zero_m = check_head-none k _ m w in
            let zero_n = check_head-none k _ n w'' in (zero_m ∙ sym zero_n, size, size')
        | inr (d, e) ↦
            let w = rw e at (verify_aggregate-check_head db k m v) in
            let w'' = rw e at w' in
            let count = check_head-count k _ d m w in
            let count' = check_head-count k _ d n w'' in
            (omega (arith, size, size', count, count'), size, size')
      ]
