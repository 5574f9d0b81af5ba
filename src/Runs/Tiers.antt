-- ===== src/Runs/Tiers.antt =====
-- lib/quota.ts: the daily quotas of a wallet by its tier, as in lib/solana.ts.
use aemulus.Common.{
  ℕ, ◌-◌, Bool, true, false, not, String, string_Eq, Option, none, some, List, ltb, leb, nat_eq,
  ◌==◌, if◌then◌else◌,
}
use aemulus.Common.Int.{ℤ, pos, negsuc}
use aemulus.Runs.{RunRow, QuotaReserve, count_recent_runs}

-- The configured limits and thresholds of the tiers, and the token's mint, `""` where it is not set.
pub record TierConfig : Type 0 where
  pub mint : String
  pub whale_min : ℕ
  pub pro_min : ℕ
  pub holder_min : ℕ
  pub quota_whale : ℤ
  pub quota_pro : ℤ
  pub quota_holder : ℤ
  pub watch_whale : ℤ
  pub watch_pro : ℤ
  pub watch_holder : ℤ

pub data TierName : Type 0 where
  open_tier whale pro holder locked : TierName

pub record Tier : Type 0 where
  pub name : TierName
  pub level : ℕ
  pub allowed : Bool

module _ (c : TierConfig) where
  unfoldable pub limit_for_level : ℕ → ℤ
  limit_for_level level =
      if leb 3 level
      then c.quota_whale
      else if nat_eq level 2
      then c.quota_pro
      else if nat_eq level 1
      then c.quota_holder
      else pos 0

  unfoldable pub watch_limit_for_level : ℕ → ℤ
  watch_limit_for_level level =
      if leb 3 level
      then c.watch_whale
      else if nat_eq level 2
      then c.watch_pro
      else if nat_eq level 1
      then c.watch_holder
      else pos 0

  abbrev pub tier : TierName → ℕ → Bool → Tier
  tier name level allowed = record { name = name; level = level; allowed = allowed }

  -- A balance in whole units of the token.
  unfoldable pub compute_tier : ℕ → Tier
  compute_tier balance =
      if c.mint == ""
      then tier open_tier 3 true
      else if not (ltb 0 balance)
      then tier locked 0 false
      else if leb c.whale_min balance
      then tier whale 3 true
      else if leb c.pro_min balance
      then tier pro 2 true
      else if leb c.holder_min balance
      then tier holder 1 true
      else tier locked 0 false

  -- `QUOTA_WINDOW_MS`.
  abbrev pub quota_window_ms : ℕ
  quota_window_ms = 86400000

  unfoldable pub kind_limit : ℕ → Bool → ℤ
  unfolding limit_for_level watch_limit_for_level
  kind_limit level watch = if watch then watch_limit_for_level level else limit_for_level level

  -- `quotaReserve` and `quotaReserveForWatch`.
  unfoldable pub quota_reserve : ℕ → Bool → QuotaReserve
  unfolding kind_limit
  quota_reserve level watch = record { limit = kind_limit level watch; window_ms = quota_window_ms }

  pub record QuotaStatus : Type 0 where
    pub used : ℕ
    pub limit : ℤ
    pub remaining : Option ℕ
    pub unlimited : Bool
    pub has_run_left : Bool

  abbrev pub status_of : ℤ → ℕ → QuotaStatus
  status_of (negsuc k) used = record {
    used = used;
    limit = negsuc k;
    remaining = none;
    unlimited = true;
    has_run_left = true;
  }
  status_of (pos limit) used = record {
    used = used;
    limit = pos limit;
    remaining = some (limit - used);
    unlimited = false;
    has_run_left = ltb used limit;
  }

  unfoldable pub get_quota : List RunRow → String → ℕ → Bool → ℕ → QuotaStatus
  unfolding count_recent_runs kind_limit
  get_quota rows owner level watch now =
      status_of (kind_limit level watch)
        (count_recent_runs rows owner (now - quota_window_ms) watch)
