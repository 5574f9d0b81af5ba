-- ===== src/OverrideLog/Chain.antt =====
-- lib/ap-controls/override-log.ts: how the chain of override events grows, and what an edit does.
use aemulus.Common.{
  ℕ, ◌+◌, ◌≡◌, refl, sym, ◌∙◌, subst, inl, inr, String, string_Eq, none, List, [], ◌∷◌, ◌++◌,
  Option-cases, ok, arith,
}
use aemulus.Ap.Store.{Seals}
use aemulus.Controls.Schema.{Numbers}
use aemulus.OverrideLog.{
  OverrideEvent, OverrideLogInput, write_refusal, unsealed_override, seal_of, write_override_event,
  chain_fault, verify_override_chain,
}

-- The seal that the next event has to name.
abbrev pub last_link : String → List OverrideEvent → String
last_link prev [] = prev
last_link prev (e ∷ es) = last_link e.seal es

module _ (s : Seals) where
  -- An event that names the seal before it and carries its own.
  pub record IsLinked (prev : String) (e : OverrideEvent) : Type 0 where
    pub linked : e.seal_prev ≡ prev
    pub sealed : seal_of s e.unsealed ≡ e.seal

  chain_fault-linked :
      (prev : String) (i : ℕ) (e : OverrideEvent) (es : List OverrideEvent)
      → IsLinked prev e
      → chain_fault s prev i (e ∷ es) ≡ chain_fault s e.seal (i + 1) es
  unfolding chain_fault
  chain_fault-linked prev i e es l = ground (
    arith,
    l.linked,
    l.sealed,
    string_Eq.decides e.seal_prev prev,
    string_Eq.decides (seal_of s e.unsealed) e.seal,
  )

  chain_fault-none :
      (prev : String) (i : ℕ) (e : OverrideEvent) (es : List OverrideEvent)
      → chain_fault s prev i (e ∷ es) ≡ none
      → IsLinked prev e × (chain_fault s e.seal (i + 1) es ≡ none)
  unfolding chain_fault
  chain_fault-none prev i e es h = (
    record {
      linked = ground (arith, string_Eq.decides e.seal_prev prev);
      sealed = ground (arith, string_Eq.decides (seal_of s e.unsealed) e.seal);
    },
    ground arith,
  )

  chain_fault-append :
      (prev : String) (i : ℕ) (es : List OverrideEvent) (e : OverrideEvent)
      → chain_fault s prev i es ≡ none
      → IsLinked (last_link prev es) e
      → chain_fault s prev i (es ++ e ∷ []) ≡ none
  unfolding chain_fault
  chain_fault-append prev i [] e h l = chain_fault-linked prev i e [] l
  chain_fault-append prev i (x ∷ es) e h l =
      let (first, rest) = chain_fault-none prev i x es h in
      chain_fault-linked prev i x (es ++ e ∷ []) first
      ∙ chain_fault-append x.seal (i + 1) es e rest l

  write_override_event-IsLinked :
      (n : Numbers) (trim : String → String) (i : OverrideLogInput n) (e : OverrideEvent)
      → write_override_event s n trim i ≡ ok e
      → IsLinked i.prior_seal e
  unfolding write_override_event unsealed_override
  write_override_event-IsLinked n trim i e h = elim (Option-cases (write_refusal n trim i)) [
    | inr (why, r) ↦ let h' = rw (r, write_override_event) at h in cc h'
    | inl r ↦
        let h' = rw (r, write_override_event) at h in
        let same : event ≡ e = cc h' in
        subst (IsLinked i.prior_seal) same (record { linked = refl; sealed = refl })
  ]
    where
      event : OverrideEvent
      event = record { unsealed = unsealed_override n i; seal = seal_of s (unsealed_override n i) }

  -- An override event that was written with the last seal of a valid chain as its prior seal
  -- extends the chain to a valid one.
  pub verify_override_chain-write_override_event :
      (n : Numbers) (trim : String → String) (i : OverrideLogInput n) (e : OverrideEvent)
      (genesis : String) (es : List OverrideEvent)
      → write_override_event s n trim i ≡ ok e
      → i.prior_seal ≡ last_link genesis es
      → verify_override_chain s genesis es ≡ none
      → verify_override_chain s genesis (es ++ e ∷ []) ≡ none
  unfolding verify_override_chain
  verify_override_chain-write_override_event n trim i e genesis es w prior v =
      chain_fault-append genesis 0 es e v
        (rw (← prior) (write_override_event-IsLinked n trim i e w))

  chain_fault-edited :
      (prev : String) (i : ℕ) (before : List OverrideEvent) (e e' next : OverrideEvent)
      (after : List OverrideEvent)
      → chain_fault s prev i (before ++ e ∷ next ∷ after) ≡ none
      → chain_fault s prev i (before ++ e' ∷ next ∷ after) ≡ none
      → (e.seal ≡ e'.seal) × (seal_of s e.unsealed ≡ seal_of s e'.unsealed)
  chain_fault-edited prev i [] e e' next after h h' =
      let (l, r) = chain_fault-none prev i e (next ∷ after) h in
      let (l', r') = chain_fault-none prev i e' (next ∷ after) h' in
      let (m, q) = chain_fault-none e.seal (i + 1) next after r in
      let (m', q') = chain_fault-none e'.seal (i + 1) next after r' in
      let same : e.seal ≡ e'.seal = sym m.linked ∙ m'.linked in
      (same, l.sealed ∙ same ∙ sym l'.sealed)
  chain_fault-edited prev i (x ∷ before) e e' next after h h' =
      chain_fault-edited x.seal (i + 1) before e e' next after
        (chain_fault-none prev i x (before ++ e ∷ next ∷ after) h).1
        (chain_fault-none prev i x (before ++ e' ∷ next ∷ after) h').1

  -- Where an event of a valid chain that has a later one is replaced by another and the chain is
  -- still valid, the two events carry the same seal, and their canonical texts hash to the same.
  pub verify_override_chain-edited :
      (genesis : String) (before : List OverrideEvent) (e e' next : OverrideEvent)
      (after : List OverrideEvent)
      → verify_override_chain s genesis (before ++ e ∷ next ∷ after) ≡ none
      → verify_override_chain s genesis (before ++ e' ∷ next ∷ after) ≡ none
      → (e.seal ≡ e'.seal) × (seal_of s e.unsealed ≡ seal_of s e'.unsealed)
  unfolding verify_override_chain
  verify_override_chain-edited genesis before e e' next after =
      chain_fault-edited genesis 0 before e e' next after
