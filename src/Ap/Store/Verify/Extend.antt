-- ===== src/Ap/Store/Verify/Extend.antt =====
-- What an append does to the verdict on a stream.
use mathlib.Core.Path.{ap₂}
use aemulus.Common.{
  ℕ, ◌+◌, ◌≤◌, ◌<◌, ◌≡◌, ◌≢◌, refl, sym, ◌∙◌, ap, inl, inr, String, string_Eq, Option, none, some,
  List, [], ◌∷◌, ◌++◌, length, lookup, lookup-put_self, lookup-put_ne, Option-cases, ==_self, ok,
  arith,
}
use aemulus.Ap.Store.{
  Key, key_Eq, EventRow, Head, ApDb, AppendInput, Seals, genesis_for, last_row, next_seq, tail_seal,
  read_aggregate, load_head,
}
use aemulus.Ap.Store.Append.{head_mac, extension_refusal, sealed_row, advance_head, append_ap_event}
use aemulus.Ap.Store.Verify.{valid, row_fault, first_fault, verdict, verify_aggregate}
use aemulus.Ap.Store.Verify.Streams.{read_aggregate-append, read_aggregate-append_other}
use aemulus.Ap.Store.Verify.Faults.{
  tail_seal-prev_seal, first_fault-append_some, first_fault-append_none, first_fault-numbered,
}
use aemulus.Ap.Store.Verify.Verdicts.{
  verify_aggregate-none, verify_aggregate-some, check_head-length, check_head-count,
  check_head-some, check_head-fresh,
}
use aemulus.Ap.Store.Verify.Appended.{Appended, append_ap_event-Appended}

valid-injective : {m n : ℕ} → valid m ≡ valid n → m ≡ n
valid-injective h = cc

module _ (s : Seals) where
  row_fault-sealed_row :
      (input : AppendInput) (last : Option EventRow)
      → row_fault s (next_seq last) (tail_seal input.key last) (sealed_row s input last) ≡ none
  unfolding row_fault sealed_row
  row_fault-sealed_row input last =
      ground (arith, ==_self (tail_seal input.key last), ==_self (sealed_row s input last).seal)

  lookup-advance_head :
      (k : Key) (h : Head) (heads : List (Key × Head))
      → ((old : Head) → lookup k heads ≡ some old → old.seq_count < h.seq_count)
      → lookup k (advance_head s k h heads) ≡ some h
  unfolding advance_head
  lookup-advance_head k h heads older = elim (Option-cases (lookup k heads)) [
    | inl e ↦ rw (e, advance_head) (lookup-put_self k h heads)
    | inr (old, e) ↦ rw (e, advance_head) (ground (arith, older old e, lookup-put_self k h heads))
  ]

  lookup-advance_head_other :
      (j k : Key) (h : Head) (heads : List (Key × Head))
      → j ≢ k
      → lookup k (advance_head s j h heads) ≡ lookup k heads
  unfolding advance_head
  lookup-advance_head_other j k h heads n = ground (arith, lookup-put_ne j k h heads n)

  extension_refusal-none :
      (k : Key) (r : EventRow) (head : Option Head)
      → extension_refusal s (some r) head k ≡ none
      → (d : Head) × (head ≡ some d)
        × (d.seq_count ≡ r.seq + 1)
        × (d.head_mac ≡ head_mac s k (r.seq + 1) r.seal)
  unfolding extension_refusal
  extension_refusal-none k r none h = cc
  extension_refusal-none k r (some d) h = (
    d,
    refl,
    ground arith,
    ground (arith, string_Eq.decides d.head_mac (head_mac s k (r.seq + 1) r.seal)),
  )

  module _ (db db' : ApDb) (input : AppendInput) (row : EventRow)
      (done : append_ap_event s db input ≡ ok (db', row)) where
    a : Appended s db input db' row
    a = append_ap_event-Appended s db input db' row done

    pub row-key : row.key ≡ input.key
    unfolding sealed_row
    row-key = ap (λ r. r.key) a.sealed

    pub row-seq : row.seq ≡ next_seq (last_row (read_aggregate db input.key))
    unfolding sealed_row
    row-seq = ap (λ r. r.seq) a.sealed

    -- The stream grows by the new row.
    pub read_aggregate-append_ap_event :
        read_aggregate db' input.key ≡ read_aggregate db input.key ++ row ∷ []
    read_aggregate-append_ap_event =
        rw (← row-key)
          (read_aggregate-append db db' row a.added (rw row-key (omega (arith, row-seq))))

    row_fault-next :
        (prev : String)
        → first_fault s 0 prev (read_aggregate db input.key) ≡ none
        → row_fault s
            (0 + length (read_aggregate db input.key))
            (tail_seal input.key (last_row (read_aggregate db input.key)))
            row
          ≡ none
    row_fault-next prev e =
        let at : 0 + length (read_aggregate db input.key)
            ≡ next_seq (last_row (read_aggregate db input.key)) =
          omega (arith, first_fault-numbered s (read_aggregate db input.key) prev e) in
        rw (at, a.sealed) (row_fault-sealed_row input (last_row (read_aggregate db input.key)))

    abbrev new_head : Head
    new_head = record {
      seq_count = row.seq + 1;
      head_mac = head_mac s row.key (row.seq + 1) row.seal;
      updated_at = row.created_at;
    }

    load_head-append_ap_event :
        ((old : Head) → load_head db input.key ≡ some old → old.seq_count ≤ row.seq)
        → load_head db' input.key ≡ some new_head
    unfolding load_head
    load_head-append_ap_event older =
        rw (a.head, row-key)
          (lookup-advance_head input.key
            (record new_head { head_mac = head_mac s input.key (row.seq + 1) row.seal }) db.heads
            λ old e. omega (arith, older old e))

    -- A successful append to a chain with the verdict `valid n` leaves a chain with the verdict
    -- `valid (n + 1)`.
    pub verify_aggregate-append_ap_event :
        (n : ℕ)
        → verify_aggregate s db input.key ≡ valid n
        → verify_aggregate s db' input.key ≡ valid (n + 1)
    verify_aggregate-append_ap_event n v =
        let k = input.key in
        let start : String = genesis_for k.aggregate_type k.aggregate_id in
        let rows : List EventRow = read_aggregate db k in
        elim (Option-cases (first_fault s 0 start rows)) [
          | inr (f, e) ↦ let x = sym (verify_aggregate-some s db k f e) ∙ v in cc x
          | inl e ↦
              let v' = sym (verify_aggregate-none s db k e) ∙ v in
              let fault =
                first_fault-append_none s rows 0 start row e
                  (rw (← tail_seal-prev_seal k rows) (row_fault-next start e)) in
              let grow = read_aggregate-append_ap_event in
              let size = check_head-length s k rows (load_head db k) n v' in
              let numbered = first_fault-numbered s rows start e in
              let head = load_head-append_ap_event λ old o.
                let v'' = rw o at v' in
                omega (arith, check_head-count s k rows old n v'', row-seq, numbered) in
              let count : new_head.seq_count ≡ length rows + 1 = omega (arith, row-seq, numbered) in
              let fresh =
                check_head-fresh s k rows row new_head count
                  (ap₂ (λ c m. head_mac s c m row.seal) row-key count) in
              verify_aggregate-none s db' k (rw grow fault) ∙ rw (grow, head, size) fresh
        ]

    -- After a successful append to a stream that had a row, a verdict `valid m` on the new tables
    -- means that the verdict on the old ones was `valid n` with m = n + 1: no append makes a
    -- broken chain valid.
    pub verify_aggregate-append_ap_event_inv :
        (last : EventRow) (m : ℕ)
        → last_row (read_aggregate db input.key) ≡ some last
        → verify_aggregate s db' input.key ≡ valid m
        → (n : ℕ) × (verify_aggregate s db input.key ≡ valid n) × (m ≡ n + 1)
    verify_aggregate-append_ap_event_inv last m l v =
        let k = input.key in
        let start : String = genesis_for k.aggregate_type k.aggregate_id in
        let rows : List EventRow = read_aggregate db k in
        let grow = read_aggregate-append_ap_event in
        elim (Option-cases (first_fault s 0 start rows)) [
          | inr (f, e) ↦
              let kept = first_fault-append_some s rows 0 start row f e in
              let x = sym (verify_aggregate-some s db' k f (rw grow kept)) ∙ v in cc x
          | inl e ↦
              let numbered = first_fault-numbered s rows start e in
              let (d, at, count, mac) =
                extension_refusal-none input.key last (load_head db k) (rw l at a.allowed) in
              let next : last.seq + 1 ≡ length rows = rw l at numbered in
              let sound : verify_aggregate s db k ≡ valid (length rows) =
                verify_aggregate-none s db k e
                ∙ rw at (check_head-some s k rows d (count ∙ next) (rw (l, ← next) mac)) in
              let v' = verify_aggregate-append_ap_event (length rows) sound in
              (length rows, sound, valid-injective (sym v ∙ v'))
        ]

    -- A successful append leaves the verdict on every other aggregate as it was.
    pub verify_aggregate-append_ap_event_other :
        (k : Key) → k ≢ input.key → verify_aggregate s db' k ≡ verify_aggregate s db k
    unfolding verify_aggregate load_head
    verify_aggregate-append_ap_event_other k n =
        ap₂ (verdict s k)
          (read_aggregate-append_other db db' row k a.added (λ e. n (sym e ∙ row-key)))
          (rw a.head
            (lookup-advance_head_other row.key k new_head db.heads λ e. n (sym e ∙ row-key)))
