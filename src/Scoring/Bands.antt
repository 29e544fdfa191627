-- ===== src/Scoring/Bands.antt =====
-- The bands of levels: `RiskLevelThresholds` of mcp-proxy/src/scoring/types.rs.
use sqreen_core.Prelude.{ℕ, ◌≤◌, arith}
use sqreen_core.Scoring.{level_rank, RiskLevelThresholds, level_for}

-- A greater score has no lower level, whatever the bands.
pub level_for_mono :
    (bands : RiskLevelThresholds) (a b : ℕ)
    → a ≤ b
    → level_rank (level_for bands a) ≤ level_rank (level_for bands b)
unfolding level_for
level_for_mono bands a b h = ground (arith, h)
