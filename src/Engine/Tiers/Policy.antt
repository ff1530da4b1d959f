-- ===== src/Engine/Tiers/Policy.antt =====
-- The tier policy: the ladder of scores, and the immutable break-glass rule.
use sams_simlplifynext.Prelude.{ℕ, ◌≤◌, ◌≡◌, ◌≢◌, ◌⊎◌, Bool, true, false, arith}
use sams_simlplifynext.Prelude.Int.{pos}
use sams_simlplifynext.Errors.{ok}
use sams_simlplifynext.Runtime.{Runtime}
use sams_simlplifynext.Value.{Value, number}
use sams_simlplifynext.Contracts.{Tier, T0, T1, T2, T3}
use sams_simlplifynext.Engine.Tiers.{lift_T1, break_glass, score_tier, select_tier}

-- "Ordered by increasing risk".
abbrev pub rank : Tier → ℕ
rank T0 = 0
rank T1 = 1
rank T2 = 2
rank T3 = 3

-- The scores of each tier, as the policy states them: from 3000, 6000 and 8500 upwards.
abbrev pub InTier : Bool → ℕ → Tier → Type 0
InTier glass n T0 = n ≤ 2999
InTier glass n T1 = (3000 ≤ n) × (n ≤ 5999) × (glass ≡ false)
InTier glass n T2 = (n ≤ 8499) × ((6000 ≤ n) ⊎ ((3000 ≤ n) × (glass ≡ true)))
InTier glass n T3 = (8500 ≤ n) × (n ≤ 10000)

-- A score of at most 10000 gets a tier, whatever the identity is, and it is the one whose range
-- of scores holds the score: below 3000 T0, below 6000 T1 without and T2 with the break-glass
-- rule, below 8500 T2, and T3 from there.
pub select_tier_total :
    (rt : Runtime) (n : ℕ) (identity : Value)
    → n ≤ 10000
    → (t : Tier) × (select_tier rt (number (pos n)) identity ≡ ok t)
      × InTier (break_glass rt identity) n t
unfolding select_tier
select_tier_total rt n identity h =
    (lift_T1 (break_glass rt identity) (score_tier n), ground arith, ground arith)

-- For the same identity, a higher score never gets a lower tier.
pub select_tier_mono :
    (rt : Runtime) (m n : ℕ) (identity : Value) {t u : Tier}
    → m ≤ n
    → select_tier rt (number (pos m)) identity ≡ ok t
    → select_tier rt (number (pos n)) identity ≡ ok u
    → rank t ≤ rank u
unfolding select_tier
select_tier_mono rt m n identity h p q = ground arith

-- An identity under the break-glass rule never gets the tier T1, whatever the score is.
pub break_glass-ne-T1 :
    (rt : Runtime) (score identity : Value)
    → break_glass rt identity ≡ true
    → select_tier rt score identity ≢ ok T1
unfolding select_tier
break_glass-ne-T1 rt (number (pos n)) identity h = ground arith
break_glass-ne-T1 rt _ identity h = cc
