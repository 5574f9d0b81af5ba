-- ===== src/Ap/Store/Append.antt =====
-- lib/ap-controls/store.ts: the seals, and `appendApEvent`.
use aemulus.Common.{
  ℕ, ◌+◌, not, ◌&&◌, ◌||◌, String, string_Eq, Option, none, some, List, [], ◌∷◌, ◌++◌, ltb, leb,
  nat_eq, ◌==◌, if◌then◌else◌, any, put, lookup, Result, ok, err,
}
use aemulus.Ap.Json.{whole, str, num, obj, field, end, canonicalize}
use aemulus.Ap.Store.{
  Key, key_Eq, Unsealed, EventRow, Head, ApDb, AppendInput, AppendError, sequence_conflict,
  head_integrity, Seals, type_name, envelope, get_version, last_row, next_seq, tail_seal, is_stale,
  get_expected, read_aggregate, load_head,
}

-- `CURRENT_SEAL_VERSION`.
abbrev pub current_seal_version : ℕ
current_seal_version = 2

module _ (s : Seals) where
  open s use {printing, sha256_hex, hmac_hex, seal_key}

  unfoldable pub seal_for_version : ℕ → Unsealed → String
  seal_for_version version e =
      if leb 2 version
      then hmac_hex seal_key
          (canonicalize printing (obj (field "workspaceId" (str e.key.workspace_id) (envelope e))))
      else sha256_hex (canonicalize printing (obj (envelope e)))

  unfoldable pub head_mac : Key → ℕ → String → String
  head_mac k count last_seal = hmac_hex seal_key (
      canonicalize printing (
        obj (
          field "kind" (str "ap-head") (
            field "workspaceId" (str k.workspace_id) (
              field "aggregateType" (str (type_name k.aggregate_type)) (
                field "aggregateId" (str k.aggregate_id)
                  (field "count" (num (whole count)) (field "lastSeal" (str last_seal) end))))))))

  -- Why the head does not allow the chain to be extended.
  unfoldable pub head_refusal : Option Head → ℕ → String → Option AppendError
  head_refusal none seq mac = some head_integrity
  head_refusal (some h) seq mac =
      if not (nat_eq h.seq_count seq)
      then some (sequence_conflict seq h.seq_count)
      else if not (h.head_mac == mac)
      then some head_integrity
      else none

  -- The check of the head, made only where the stream has a last row.
  unfoldable pub extension_refusal : Option EventRow → Option Head → Key → Option AppendError
  unfolding head_refusal
  extension_refusal none head k = none
  extension_refusal (some r) head k = head_refusal head (r.seq + 1) (head_mac k (r.seq + 1) r.seal)

  unfoldable pub sealed_row : AppendInput → Option EventRow → EventRow
  sealed_row input last = record { unsealed = e; seal = seal_for_version current_seal_version e }
    where
      e : Unsealed
      e = record {
        id = input.id;
        key = input.key;
        seq = next_seq last;
        event_type = input.event_type;
        event_version = get_version input.event_version input.event_type;
        payload = input.payload;
        actor = input.actor;
        created_at = input.now;
        seal_prev = tail_seal input.key last;
        seal_version = current_seal_version;
      }

  -- What `appendApEvent` decides from its two reads, before it writes: the tail is read first and
  -- the head later, so other writers may come between.
  unfoldable pub prepare : ApDb → ApDb → AppendInput → Result AppendError EventRow
  unfolding extension_refusal
  prepare at_tail at_head input =
      let last = last_row (read_aggregate at_tail input.key) in
      if is_stale input.expected_seq (next_seq last)
      then err (sequence_conflict (get_expected input.expected_seq) (next_seq last))
      else elim (extension_refusal last (load_head at_head input.key) input.key) [
        | some e ↦ err e
        | none ↦ ok (sealed_row input last)
      ]

  -- `INSERT … ON CONFLICT DO UPDATE … WHERE excluded.seq_count > ap_aggregate_head.seq_count`.
  unfoldable pub advance_head : Key → Head → List (Key × Head) → List (Key × Head)
  advance_head k h heads = elim (lookup k heads) [
    | none ↦ put k h heads
    | some old ↦ if ltb old.seq_count h.seq_count then put k h heads else heads
  ]

  -- The write batch: a primary key or a position that is taken rolls it back.
  unfoldable pub commit : ApDb → EventRow → Result AppendError ApDb
  unfolding advance_head
  commit db row =
      if any (λ r. r.id == row.id || (r.key == row.key && nat_eq r.seq row.seq)) db.events
      then err (sequence_conflict row.seq row.seq)
      else ok (record {
        events = db.events ++ row ∷ [];
        heads =
            advance_head row.key
              (record {
                seq_count = row.seq + 1;
                head_mac = head_mac row.key (row.seq + 1) row.seal;
                updated_at = row.created_at;
              })
              db.heads;
      })

  -- `appendApEvent` with no other writer between its statements.
  unfoldable pub append_ap_event : ApDb → AppendInput → Result AppendError (ApDb × EventRow)
  append_ap_event db input = elim (prepare db db input) [
    | err e ↦ err e
    | ok row ↦ elim (commit db row) [ err e ↦ err e | ok db' ↦ ok (db', row) ]
  ]
