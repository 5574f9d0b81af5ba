-- ===== src/Idempotency.antt =====
-- lib/idempotency.ts: a repeated request returns the first answer and does nothing again.
pub mod Replay
mod Tests
use aemulus.Common.{
  ℕ, ◌+◌, ◌↔◌, ◌≡◌, Bool, true, false, not, ◌&&◌, ◌||◌, String, string_Eq, Option, none, some, List,
  [], ◌∷◌, Eq, ◌==◌, if◌then◌else◌, keep, length, lookup, put, ltb, Result, ok, err, arith,
}

-- The primary key of the table.
pub record Slot : Type 0 where
  pub owner : String
  pub scope : String
  pub key : String

abbrev pub same_slot : Slot → Slot → Bool
same_slot a b = a.owner == b.owner && (a.scope == b.scope && a.key == b.key)

pub same_slot_iff : (a b : Slot) → (same_slot a b ≡ true) ↔ (a ≡ b)
same_slot_iff a b = ground (
  arith,
  string_Eq.decides a.owner b.owner,
  string_Eq.decides a.scope b.scope,
  string_Eq.decides a.key b.key,
)

instance abbrev pub slot_Eq : Eq Slot
slot_Eq = record { same = same_slot; decides = same_slot_iff }

-- What the code takes from the language: JSON of answers, and the length of a text.
pub record Wire : Type 1 where
  pub Body : Type 0
  pub stringify : Body → String
  pub parse : String → Option Body
  pub of_text : String → Body
  pub size : String → ℕ
  pub in_progress : Body

module _ (w : Wire) where
  open w use {Body, stringify, parse, of_text, size, in_progress}

  pub record IdemResult : Type 0 where
    pub status : ℕ
    pub body : Body

  pub record Stored : Type 0 where
    pub status : ℕ
    pub body : String

  -- A row: a reservation, with the answer once there is one.
  pub record Row : Type 0 where
    pub answer : Option Stored
    pub created_at : ℕ

  abbrev pub Table : Type 0
  Table = List (Slot × Row)

  -- The server's other state, with the table.
  pub record State (World : Type 0) : Type 0 where
    pub table : Table
    pub world : World

  -- A handler changes the world, and answers or throws.
  abbrev pub Handler : Type 0 → Type 0
  Handler World = World → World × Result String IdemResult

  abbrev pub max_key_len : ℕ
  max_key_len = 255

  unfoldable pub prune_idempotency_keys : ℕ → ℕ → Table → Table × ℕ
  prune_idempotency_keys now older_than_ms t = (
    keep (λ e. not (ltb (e.1.created_at + older_than_ms) now)) t,
    length (keep (λ e. ltb (e.1.created_at + older_than_ms) now) t),
  )

  -- The insert: `none` where the slot is taken.
  unfoldable pub reserve : Slot → ℕ → Table → Option Table
  reserve slot now t = elim (lookup slot t) [
    | some row ↦ none
    | none ↦ some (put slot (record { answer = none; created_at = now }) t)
  ]

  abbrev pub with_answer : Stored → Row → Row
  with_answer s row = record row { answer = some s }

  -- The update after the handler has answered; no row is met where the reservation is gone.
  unfoldable pub store_answer : Slot → IdemResult → Table → Table
  store_answer slot r t = elim (lookup slot t) [
    | none ↦ t
    | some row ↦
        put slot (with_answer (record { status = r.status; body = stringify r.body }) row) t
  ]

  unfoldable pub release : Slot → Table → Table
  release slot t = keep (λ e. not (e.0 == slot)) t

  abbrev pub or_text : String → Option Body → Body
  or_text text none = of_text text
  or_text text (some b) = b

  abbrev pub conflict : IdemResult
  conflict = record { status = 409; body = in_progress }

  -- The answer where the slot was taken.
  unfoldable pub replay : Option Row → IdemResult
  replay none = conflict
  replay (some row) = elim row.answer [
    | none ↦ conflict
    | some s ↦ record { status = s.status; body = or_text s.body (parse s.body) }
  ]

  abbrev pub is_usable : Slot → Bool
  is_usable slot = not (slot.key == "") && not (ltb max_key_len (size slot.key))

  -- What follows the handler's run under a reservation.
  unfoldable pub finish :
      {World : Type 0}
      → Slot
      → Table
      → World × Result String IdemResult
      → State World × Result String IdemResult
  unfolding store_answer release
  finish slot t (world, ok r) = (record { table = store_answer slot r t; world = world }, ok r)
  finish slot t (world, err e) = (record { table = release slot t; world = world }, err e)

  abbrev pub run_plain :
      {World : Type 0}
      → Table
      → World × Result String IdemResult
      → State World × Result String IdemResult
  run_plain t (world, r) = (record { table = t; world = world }, r)

  -- `withIdempotency`; a missing key is the empty one. No other request writes in between.
  unfoldable pub with_idempotency :
      {World : Type 0}
      → Slot
      → ℕ
      → Handler World
      → State World
      → State World × Result String IdemResult
  with_idempotency slot now handler s =
      if not (is_usable slot)
      then run_plain s.table (handler s.world)
      else elim (reserve slot now s.table) [
        | none ↦ (s, ok (replay (lookup slot s.table)))
        | some reserved ↦ finish slot reserved (handler s.world)
      ]
