-- ===== src/Ap/Store/Verify/Appended.antt =====
-- What a successful append has read and written.
use aemulus.Common.{◌+◌, ◌≡◌, ap, inl, inr, string_Eq, none, [], ◌∷◌, ◌++◌, Result-cases, ok, arith}
use aemulus.Ap.Store.{
  key_Eq, EventRow, ApDb, AppendInput, Seals, last_row, read_aggregate, load_head,
}
use aemulus.Ap.Store.Append.{
  head_mac, extension_refusal, sealed_row, prepare, advance_head, commit, append_ap_event,
}

module _ (s : Seals) where
  -- What a successful append did: the row it sealed, and the two writes.
  pub record Appended (db : ApDb) (input : AppendInput) (db' : ApDb) (row : EventRow) : Type 0 where
    pub sealed : row ≡ sealed_row s input (last_row (read_aggregate db input.key))
    pub allowed :
        extension_refusal s
          (last_row (read_aggregate db input.key))
          (load_head db input.key)
          input.key
        ≡ none
    pub added : db'.events ≡ db.events ++ row ∷ []
    pub head :
        db'.heads
        ≡ advance_head s row.key
            (record {
              seq_count = row.seq + 1;
              head_mac = head_mac s row.key (row.seq + 1) row.seal;
              updated_at = row.created_at;
            })
            db.heads

  pub prepare-parts :
      (at_tail at_head : ApDb) (input : AppendInput) (row : EventRow)
      → prepare s at_tail at_head input ≡ ok row
      → (row ≡ sealed_row s input (last_row (read_aggregate at_tail input.key)))
        × (extension_refusal s
              (last_row (read_aggregate at_tail input.key))
              (load_head at_head input.key)
              input.key
            ≡ none)
  unfolding prepare
  prepare-parts at_tail at_head input row h = ground arith

  pub commit-parts :
      (db db' : ApDb) (row : EventRow)
      → commit s db row ≡ ok db'
      → (db'.events ≡ db.events ++ row ∷ [])
        × (db'.heads
            ≡ advance_head s row.key
                (record {
                  seq_count = row.seq + 1;
                  head_mac = head_mac s row.key (row.seq + 1) row.seal;
                  updated_at = row.created_at;
                })
                db.heads)
  unfolding commit
  commit-parts db db' row h = ground arith

  append_ap_event-parts :
      (db : ApDb) (input : AppendInput) (db' : ApDb) (row : EventRow)
      → append_ap_event s db input ≡ ok (db', row)
      → (prepare s db db input ≡ ok row) × (commit s db row ≡ ok db')
  unfolding append_ap_event
  append_ap_event-parts db input db' row h = elim (Result-cases (prepare s db db input)) [
    | inr (e, p) ↦ let h' = rw (p, append_ap_event) at h in cc h'
    | inl (r, p) ↦ elim (Result-cases (commit s db r)) [
      | inr (e, q) ↦ let h' = rw (p, append_ap_event, q) at h in cc h'
      | inl (d, q) ↦
          let h' = rw (p, append_ap_event, q) at h in
          let same : r ≡ row = ground arith in
          let same' : d ≡ db' = ground arith in (rw p (ap ok same), rw (← same, q) (ap ok same'))
    ]
  ]

  pub append_ap_event-Appended :
      (db : ApDb) (input : AppendInput) (db' : ApDb) (row : EventRow)
      → append_ap_event s db input ≡ ok (db', row)
      → Appended db input db' row
  append_ap_event-Appended db input db' row h =
      let (p, q) = append_ap_event-parts db input db' row h in
      let (sealed, allowed) = prepare-parts db db input row p in
      let (added, head) = commit-parts db db' row q in
      record { sealed = sealed; allowed = allowed; added = added; head = head }
