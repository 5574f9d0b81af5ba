-- ===== src/Ap/Store/Races.antt =====
-- What other writers do to an append between its reads and its writes.
use aemulus.Common.{
  ◌≡◌, refl, sym, ap, ◌∙◌, Bool, true, ◌&&◌, ◌||◌, string_Eq, [], ◌∷◌, nat_eq, ◌==◌, any,
  any-append, ok, err, arith,
}
use aemulus.Ap.Store.{
  key_Eq, EventRow, ApDb, AppendInput, sequence_conflict, Seals, next_seq, last_row, read_aggregate,
}
use aemulus.Ap.Store.Append.{sealed_row, prepare, commit}
use aemulus.Ap.Store.Verify.Appended.{prepare-parts, commit-parts}

-- The test of the primary key and of the unique index of positions.
abbrev collides : EventRow → EventRow → Bool
collides row r = r.id == row.id || (r.key == row.key && nat_eq r.seq row.seq)

module _ (s : Seals) where
  -- The tables after some write batches that went through, of any writers.
  pub data Later (db : ApDb) : ApDb → Type 0 where
    here : Later db db
    more :
        {mid db' : ApDb} (row : EventRow) → Later db mid → commit s mid row ≡ ok db' → Later db db'

  any-commit :
      (row : EventRow) (db db' : ApDb) (r : EventRow)
      → commit s db r ≡ ok db'
      → any (collides row) db.events ≡ true
      → any (collides row) db'.events ≡ true
  any-commit row db db' r done h =
      rw ((commit-parts s db db' r done).0, any-append (collides row) db.events (r ∷ []), h) refl

  any-Later :
      (row : EventRow) {db db' : ApDb}
      → Later db db'
      → any (collides row) db.events ≡ true
      → any (collides row) db'.events ≡ true
  any-Later row here h = h
  any-Later row (more r later done) h = any-commit row _ _ r done (any-Later row later h)

  commit-taken :
      (db : ApDb) (row : EventRow)
      → any (collides row) db.events ≡ true
      → commit s db row ≡ err (sequence_conflict row.seq row.seq)
  unfolding commit
  commit-taken db row h = rw h refl

  any_self :
      (row : EventRow) (db db' : ApDb) (r : EventRow)
      → commit s db r ≡ ok db'
      → r.key ≡ row.key
      → r.seq ≡ row.seq
      → any (collides row) db'.events ≡ true
  any_self row db db' r done key seq =
      rw ((commit-parts s db db' r done).0, any-append (collides row) db.events (r ∷ []))
        (ground (arith, key_Eq.decides r.key row.key))

  -- Of two appends to one aggregate that have read the same tail, the second to be written is
  -- refused as a conflict at its position, whatever other write batches went through after the
  -- first.
  pub commit-prepare_race :
      (t1 h1 t2 h2 db db1 db2 : ApDb) (i1 i2 : AppendInput) (r1 r2 : EventRow)
      → i1.key ≡ i2.key
      → last_row (read_aggregate t1 i1.key) ≡ last_row (read_aggregate t2 i2.key)
      → prepare s t1 h1 i1 ≡ ok r1
      → prepare s t2 h2 i2 ≡ ok r2
      → commit s db r1 ≡ ok db1
      → Later db1 db2
      → commit s db2 r2 ≡ err (sequence_conflict r2.seq r2.seq)
  unfolding sealed_row
  commit-prepare_race t1 h1 t2 h2 db db1 db2 i1 i2 r1 r2 key tail p1 p2 done later =
      let e1 = (prepare-parts s t1 h1 i1 r1 p1).0 in
      let e2 = (prepare-parts s t2 h2 i2 r2 p2).0 in
      let same_key : r1.key ≡ r2.key = ap (λ r. r.key) e1 ∙ key ∙ sym (ap (λ r. r.key) e2) in
      let same_seq : r1.seq ≡ r2.seq =
        ap (λ r. r.seq) e1 ∙ ap next_seq tail ∙ sym (ap (λ r. r.seq) e2) in
      commit-taken db2 r2 (any-Later r2 later (any_self r2 db db1 r1 done same_key same_seq))
