-- ===== src/Nonces/Once.antt =====
-- A nonce signs in once, and only while it is fresh.
use aemulus.Common.{
  ℕ, ◌+◌, ◌≡◌, ◌≢◌, refl, Bool, false, not, String, string_Eq, none, some, [], ◌∷◌, ◌==◌,
  if◌then◌else◌, keep, lookup, lookup-put_self, ltb, Bool-cases, arith, inl, inr,
}
use aemulus.Nonces.{nonce_ttl_ms, Nonces, issue_nonce, consume_nonce}

lookup-gone :
    (nonce : String) (rows : Nonces) → lookup nonce (keep (λ e. not (e.0 == nonce)) rows) ≡ none
unfolding lookup
lookup-gone nonce [] = refl
lookup-gone nonce ((n, t) ∷ rows) = ground (arith, lookup-gone nonce rows)

keep-gone :
    (nonce : String) (rows : Nonces)
    → keep (λ e. not (e.0 == nonce)) (keep (λ e. not (e.0 == nonce)) rows)
      ≡ keep (λ e. not (e.0 == nonce)) rows
keep-gone nonce [] = refl
keep-gone nonce ((n, t) ∷ rows) = ground (arith, keep-gone nonce rows)

lookup_kept :
    (nonce : String) (p : String × ℕ → Bool) (rows : Nonces)
    → lookup nonce rows ≡ none
    → lookup nonce (keep p rows) ≡ none
unfolding lookup
lookup_kept nonce p [] h = refl
lookup_kept nonce p ((n, t) ∷ rows) h = ground (arith, lookup_kept nonce p rows)

lookup-issue_nonce :
    (nonce : String) (issued : ℕ) (rows : Nonces)
    → lookup nonce rows ≡ none
    → lookup nonce (issue_nonce nonce issued rows) ≡ some issued
unfolding issue_nonce
lookup-issue_nonce nonce issued rows new =
    rw (lookup_kept nonce (λ e. not (ltb (e.1 + nonce_ttl_ms) issued)) rows new, issue_nonce)
      (lookup-put_self nonce issued (keep (λ e. not (ltb (e.1 + nonce_ttl_ms) issued)) rows))

-- After a nonce was consumed, consuming it again gives nothing and changes nothing.
pub consume_nonce-again :
    (nonce : String) (now later : ℕ) (rows : Nonces)
    → consume_nonce nonce later (consume_nonce nonce now rows).0
      ≡ ((consume_nonce nonce now rows).0, none)
unfolding consume_nonce
consume_nonce-again nonce now later rows = elim (Bool-cases (nonce == "")) [
  | inl empty ↦ rw empty refl
  | inr real ↦ rw (real, keep-gone nonce rows, lookup-gone nonce rows) refl
]

-- A nonce that is not empty and was not there, once issued, is consumed with its time of issue as
-- long as it is not older than the time to live, and else with nothing.
pub consume_nonce-issue_nonce :
    (nonce : String) (issued now : ℕ) (rows : Nonces)
    → nonce ≢ ""
    → lookup nonce rows ≡ none
    → (consume_nonce nonce now (issue_nonce nonce issued rows)).1
      ≡ (if ltb (issued + nonce_ttl_ms) now then none else some issued)
unfolding consume_nonce
consume_nonce-issue_nonce nonce issued now rows given new =
    let real : (nonce == "") ≡ false = ground (arith, string_Eq.decides nonce "") in
    rw (real, lookup-issue_nonce nonce issued rows new) (ground arith)
