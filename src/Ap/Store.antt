-- ===== src/Ap/Store.antt =====
-- lib/ap-controls/store.ts: the append-only, sealed event log of each aggregate, with its keyed
-- head. The tables are lists of rows in the order of insertion.
pub mod Append
pub mod Verify
pub mod Races
pub mod Tests
use Prim.Native.String.{◌++◌ as text_append}
use aemulus.Common.{
  ℕ, zero, suc, ◌+◌, ◌≡◌, refl, ◌↔◌, Bool, true, false, not, ◌&&◌, ◌||◌, String, string_Eq, nat_Eq,
  Eq, Option, none, some, List, [], ◌∷◌, ◌++◌, length, ltb, leb, nat_eq, ◌==◌, if◌then◌else◌, keep,
  any, sort, lookup, put, Result, ok, err, arith,
}
use aemulus.Common.Int.{ℤ, pos}
use aemulus.Ap.Json.{whole, Json, str, num, obj, Fields, field, end, Printing, canonicalize}

pub data AggregateType : Type 0 where
  invoice vendor : AggregateType

pub data EventType : Type 0 where
  invoice_received invoice_override invoice_submitted invoice_review_paused invoice_rejected :
      EventType
  vendor_requested vendor_approved vendor_bank_verified : EventType

abbrev pub type_name : AggregateType → String
type_name invoice = "invoice"
type_name vendor = "vendor"

abbrev pub event_name : EventType → String
event_name invoice_received = "invoice.received"
event_name invoice_override = "invoice.override"
event_name invoice_submitted = "invoice.submitted"
event_name invoice_review_paused = "invoice.review_paused"
event_name invoice_rejected = "invoice.rejected"
event_name vendor_requested = "vendor.requested"
event_name vendor_approved = "vendor.approved"
event_name vendor_bank_verified = "vendor.bank_verified"

-- `CURRENT_VERSIONS`.
abbrev pub current_version : EventType → ℕ
current_version invoice_submitted = 2
current_version _ = 1

-- An aggregate: the columns by which the tables are read.
pub record Key : Type 0 where
  pub workspace_id : String
  pub aggregate_type : AggregateType
  pub aggregate_id : String

abbrev pub same_type : AggregateType → AggregateType → Bool
same_type invoice invoice = true
same_type vendor vendor = true
same_type _ _ = false

abbrev pub same_key : Key → Key → Bool
same_key a b =
    a.workspace_id == b.workspace_id
    && (same_type a.aggregate_type b.aggregate_type && a.aggregate_id == b.aggregate_id)

same_type_iff : (a b : AggregateType) → (same_type a b ≡ true) ↔ (a ≡ b)
same_type_iff invoice invoice = ground arith
same_type_iff vendor vendor = ground arith
same_type_iff _ _ = ground arith

pub same_key_iff : (a b : Key) → (same_key a b ≡ true) ↔ (a ≡ b)
same_key_iff a b = ground (
  arith,
  same_type_iff a.aggregate_type b.aggregate_type,
  string_Eq.decides a.workspace_id b.workspace_id,
  string_Eq.decides a.aggregate_id b.aggregate_id,
)

instance abbrev pub key_Eq : Eq Key
key_Eq = record { same = same_key; decides = same_key_iff }

pub record Actor : Type 0 where
  pub user_id : String
  pub role : String

-- An event without its seal.
pub record Unsealed : Type 0 where
  pub id : String
  pub key : Key
  pub seq : ℕ
  pub event_type : EventType
  pub event_version : ℕ
  pub payload : Json
  pub actor : Actor
  pub created_at : ℕ
  pub seal_prev : String
  pub seal_version : ℕ

pub record EventRow : Type 0 where
  pub unsealed : Unsealed
  pub open unsealed use *
  pub seal : String

pub record Head : Type 0 where
  pub seq_count : ℕ
  pub head_mac : String
  pub updated_at : ℕ

pub record ApDb : Type 0 where
  pub events : List EventRow
  pub heads : List (Key × Head)

pub record AppendInput : Type 0 where
  pub key : Key
  pub event_type : EventType
  pub event_version : Option ℕ
  pub payload : Json
  pub actor : Actor
  pub now : ℕ
  pub id : String
  pub expected_seq : Option ℕ

pub data AppendError : Type 0 where
  sequence_conflict : ℕ → ℕ → AppendError
  head_integrity : AppendError

-- node:crypto, with the server's secret, and the printing of JSON.
pub record Seals : Type 0 where
  pub printing : Printing
  pub sha256_hex : String → String
  pub hmac_hex : String → String → String
  pub seal_key : String

abbrev pub genesis_for : AggregateType → String → String
genesis_for type id = text_append "genesis:" (text_append (type_name type) (text_append ":" id))

abbrev pub get_version : Option ℕ → EventType → ℕ
get_version none e = current_version e
get_version (some v) e = v

-- The last row of a stream read in order, as `ORDER BY seq DESC LIMIT 1` gives it.
abbrev pub last_row : List EventRow → Option EventRow
last_row [] = none
last_row (r ∷ []) = some r
last_row (r ∷ s ∷ rest) = last_row (s ∷ rest)

abbrev pub next_seq : Option EventRow → ℕ
next_seq none = 0
next_seq (some r) = r.seq + 1

abbrev pub tail_seal : Key → Option EventRow → String
tail_seal k none = genesis_for k.aggregate_type k.aggregate_id
tail_seal k (some r) = r.seal

-- Is the caller's idea of the next position stale?
abbrev pub is_stale : Option ℕ → ℕ → Bool
is_stale none seq = false
is_stale (some e) seq = not (nat_eq e seq)

abbrev pub get_expected : Option ℕ → ℕ
get_expected none = 0
get_expected (some e) = e

unfoldable pub read_aggregate : ApDb → Key → List EventRow
read_aggregate db k = sort (λ a b. ltb a.seq b.seq) (keep (λ r. r.key == k) db.events)

unfoldable pub load_head : ApDb → Key → Option Head
load_head db k = lookup k db.heads

-- The fields of the envelope that both seal formulas bind.
abbrev pub envelope : Unsealed → Fields
envelope e = field "id" (str e.id) (
    field "aggregateType" (str (type_name e.key.aggregate_type)) (
      field "aggregateId" (str e.key.aggregate_id) (
        field "seq" (num (whole e.seq)) (
          field "eventType" (str (event_name e.event_type)) (
            field "eventVersion" (num (whole e.event_version)) (
              field "payload" e.payload (
                field "actor"
                  (obj (field "userId" (str e.actor.user_id) (field "role" (str e.actor.role) end)))
                  (field "createdAt" (num (whole e.created_at))
                    (field "sealPrev" (str e.seal_prev) end)))))))))
