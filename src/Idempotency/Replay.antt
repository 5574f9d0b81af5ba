-- ===== src/Idempotency/Replay.antt =====
-- A key executes its operation at most once.

use aemulus.Common.{
  ℕ, ◌≡◌, refl, sym, ap, ◌∙◌, true, String, none, some, [], ◌∷◌, lookup, put, lookup-put_self,
  Option-cases, ==_self, ok, err, arith, inl, inr,
}
use aemulus.Idempotency.{
  Slot, slot_Eq, Wire, IdemResult, Row, Table, State, Handler, reserve, store_answer, release,
  or_text, conflict, with_answer, replay, is_usable, finish, with_idempotency,
}

module _ (w : Wire) where
  open w use {Body, stringify, parse}

  abbrev pub reservation : ℕ → Row w
  reservation now = record { answer = none; created_at = now }

  reserve-free :
      (slot : Slot) (now : ℕ) (t : Table w)
      → lookup slot t ≡ none
      → reserve w slot now t ≡ some (put slot (reservation now) t)
  unfolding reserve
  reserve-free slot now t h = rw (h, reserve) refl

  reserve-taken :
      (slot : Slot) (now : ℕ) (t : Table w) (row : Row w)
      → lookup slot t ≡ some row
      → reserve w slot now t ≡ none
  unfolding reserve
  reserve-taken slot now t row h = rw (h, reserve) refl

  lookup-reserve :
      (slot : Slot) (now : ℕ) (t reserved : Table w)
      → reserve w slot now t ≡ some reserved
      → lookup slot reserved ≡ some (reservation now)
  lookup-reserve slot now t reserved got = elim (Option-cases (lookup slot t)) [
    | inr (row, e) ↦ let x = sym (reserve-taken slot now t row e) ∙ got in cc x
    | inl e ↦
        let x = sym (reserve-free slot now t e) ∙ got in
        let same : put slot (reservation now) t ≡ reserved = cc x in
        ap (lookup slot) (sym same) ∙ lookup-put_self slot (reservation now) t
  ]

  store_answer-some :
      (slot : Slot) (r : IdemResult w) (t : Table w) (row : Row w)
      → lookup slot t ≡ some row
      → store_answer w slot r t
        ≡ put slot (with_answer w (record { status = r.status; body = stringify r.body }) row) t
  unfolding store_answer
  store_answer-some slot r t row h = rw (h, store_answer) refl

  release-put :
      (slot : Slot) (row : Row w) (t : Table w)
      → lookup slot t ≡ none
      → release w slot (put slot row t) ≡ t
  unfolding release put lookup
  release-put slot row [] h = ground (arith, ==_self slot)
  release-put slot row ((k, v) ∷ t) h = ground (arith, release-put slot row t)

  taken :
      {World : Type 0} (slot : Slot) (now : ℕ) (handler : Handler w World) (s : State w World)
      (row : Row w)
      → is_usable w slot ≡ true
      → lookup slot s.table ≡ some row
      → with_idempotency w slot now handler s ≡ (s, ok (replay w (some row)))
  unfolding with_idempotency
  taken slot now handler s row usable h = rw (usable, reserve-taken slot now s.table row h, h) refl

  free :
      {World : Type 0} (slot : Slot) (now : ℕ) (handler : Handler w World) (s : State w World)
      → is_usable w slot ≡ true
      → lookup slot s.table ≡ none
      → with_idempotency w slot now handler s
        ≡ finish w slot (put slot (reservation now) s.table) (handler s.world)
  unfolding with_idempotency
  free slot now handler s usable h = rw (usable, reserve-free slot now s.table h) refl

  -- Where a usable key has no row, the handler answers, and JSON of bodies can be read back, the
  -- request gives that answer, and a later request with the same key gives it again, whatever its
  -- handler, and changes nothing.
  pub with_idempotency-again :
      {World : Type 0} (slot : Slot) (now later : ℕ) (handler other : Handler w World)
      (s : State w World) (world : World) (r : IdemResult w)
      → ((b : Body) → parse (stringify b) ≡ some b)
      → is_usable w slot ≡ true
      → lookup slot s.table ≡ none
      → handler s.world ≡ (world, ok r)
      → ((with_idempotency w slot now handler s).1 ≡ ok r)
        × (with_idempotency w slot later other (with_idempotency w slot now handler s).0
            ≡ ((with_idempotency w slot now handler s).0, ok r))
  unfolding finish replay
  with_idempotency-again slot now later handler other s world r trip usable absent ran =
      let held : Table w = put slot (reservation now) s.table in
      let row : Row w =
        with_answer w (record { status = r.status; body = stringify r.body }) (reservation now) in
      let first = free slot now handler s usable absent ∙ ap (finish w slot held) ran in
      let found : lookup slot (store_answer w slot r held) ≡ some row =
        ap (lookup slot) (
          store_answer-some slot r held (reservation now)
            (lookup-put_self slot (reservation now) s.table))
        ∙ lookup-put_self slot row held in
      let kept = ap (λ x. lookup slot x.0.table) first ∙ found in
      (
        ap (λ x. x.1) first,
        taken slot later other (with_idempotency w slot now handler s).0 row usable kept
            ∙ ap
                (λ o. (
                  (with_idempotency w slot now handler s).0,
                  ok (record { status = r.status; body = or_text w (stringify r.body) o }),
                ))
                (trip r.body),
      )

  -- While a usable key is reserved, another request with it is answered with a conflict and
  -- changes nothing.
  pub with_idempotency-in_flight :
      {World : Type 0} (slot : Slot) (now later : ℕ) (other : Handler w World)
      (t reserved : Table w) (world : World)
      → is_usable w slot ≡ true
      → reserve w slot now t ≡ some reserved
      → with_idempotency w slot later other (record { table = reserved; world = world })
        ≡ (record { table = reserved; world = world }, ok (conflict w))
  unfolding replay
  with_idempotency-in_flight slot now later other t reserved world usable got =
      let held = lookup-reserve slot now t reserved got in
      taken slot later other (record { table = reserved; world = world }) (reservation now) usable
        held

  -- Where a usable key has no row and the handler throws, the request throws the same, the
  -- handler's changes stay, and the table of keys is as it was.
  pub with_idempotency-failed :
      {World : Type 0} (slot : Slot) (now : ℕ) (handler : Handler w World) (s : State w World)
      (world : World) (e : String)
      → is_usable w slot ≡ true
      → lookup slot s.table ≡ none
      → handler s.world ≡ (world, err e)
      → with_idempotency w slot now handler s ≡ (record { table = s.table; world = world }, err e)
  unfolding finish
  with_idempotency-failed slot now handler s world e usable absent ran =
      free slot now handler s usable absent
      ∙ ap (finish w slot (put slot (reservation now) s.table)) ran
      ∙ ap (λ t. (record { table = t; world = world }, err e))
          (release-put slot (reservation now) s.table absent)
