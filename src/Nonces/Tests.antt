-- ===== src/Nonces/Tests.antt =====
-- lib/nonce-store.ts at concrete nonces.
use text.Mathlib.TextEquality.{eq_iff}
use aemulus.Common.{◌≡◌, ◌≢◌, refl, String, string_Eq, none, [], ◌∷◌, lookup, arith}
use aemulus.Nonces.{Nonces}

abbrev rows : Nonces
rows = ("x", 3) ∷ []

abbrev nonce : String
nonce = "n"

given : nonce ≢ ""
given h = ground (arith, eq_iff "n" "")

unknown : lookup "n" rows ≡ none
unfolding lookup
unknown = refl
