-- ===== src/Nonces.antt =====
-- lib/nonce-store.ts: sign-in nonces that are used once.
pub mod Once
mod Tests
use aemulus.Common.{
  ℕ, ◌+◌, ◌-◌, Bool, true, false, not, String, string_Eq, Option, none, some, List, [], ◌∷◌, ◌==◌,
  if◌then◌else◌, keep, lookup, put, ltb,
}

abbrev pub nonce_ttl_ms : ℕ
nonce_ttl_ms = 300000

-- The rows: a nonce with its time of issue.
abbrev pub Nonces : Type 0
Nonces = List (String × ℕ)

-- The rows older than the TTL go, and a nonce that is there stays as it is.
unfoldable pub issue_nonce : String → ℕ → Nonces → Nonces
issue_nonce nonce issued rows =
    let kept = keep (λ e. not (ltb (e.1 + nonce_ttl_ms) issued)) rows in
    elim (lookup nonce kept) [ some t ↦ kept | none ↦ put nonce issued kept ]

abbrev pub unexpired : ℕ → Option ℕ → Option ℕ
unexpired now none = none
unexpired now (some issued) = if ltb nonce_ttl_ms (now - issued) then none else some issued

-- `DELETE … RETURNING issued_at`.
unfoldable pub consume_nonce : String → ℕ → Nonces → Nonces × Option ℕ
consume_nonce nonce now rows =
    if nonce == ""
    then (rows, none)
    else (keep (λ e. not (e.0 == nonce)) rows, unexpired now (lookup nonce rows))
