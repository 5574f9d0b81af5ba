-- ===== src/Idempotency/Tests.antt =====
-- lib/idempotency.ts at a concrete request, whose handler counts its runs.
use aemulus.Common.{ℕ, ◌+◌, ◌≡◌, refl, String, none, some, [], ok, err, lookup, put}
use aemulus.Idempotency.{
  Slot, slot_Eq, Wire, IdemResult, State, Handler, Table, reserve, with_idempotency,
}
use aemulus.Idempotency.Replay.{reservation, with_idempotency-again}

-- Bodies that are texts already.
abbrev plain : Wire
plain = record {
  Body = String;
  stringify = λ s. s;
  parse = λ s. some s;
  of_text = λ s. s;
  size = λ s. 3;
  in_progress = "in progress";
}

abbrev slot : Slot
slot = record { owner = "ann"; scope = "runs"; key = "k1" }

abbrev answer : IdemResult plain
answer = record { status = 200; body = "run 1" }

abbrev start : Handler plain ℕ
start n = (n + 1, ok answer)

abbrev broken : Handler plain ℕ
broken n = (n, err "no credit")

abbrev before : State plain ℕ
before = record { table = []; world = 0 }

no_row : lookup slot before.table ≡ none
unfolding lookup
no_row = refl

with_idempotency-again_example :
    ((with_idempotency plain slot 10 start before).1 ≡ ok answer)
    × (with_idempotency plain slot 20 start (with_idempotency plain slot 10 start before).0
        ≡ ((with_idempotency plain slot 10 start before).0, ok answer))
with_idempotency-again_example =
    with_idempotency-again plain slot 10 20 start start before 1 answer (λ b. refl) refl no_row refl

abbrev reserved : Table plain
unfolding put
reserved = put slot (reservation plain 10) []

held : reserve plain slot 10 [] ≡ some reserved
unfolding reserve lookup put
held = refl
