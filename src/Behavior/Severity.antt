-- ===== src/Behavior/Severity.antt =====
-- The severity of a finding (mcp-proxy/src/behavior/types.rs).
use sqreen_core.Prelude.{refl, ◌≤◌, ◌≡◌, arith, String, Bool, ◌||◌, leb, List, [], ◌∷◌, any}
use sqreen_core.Behavior.{
  BehaviorSeverity, BehaviorSignal, from_signals, severity_at_least, severity_rank, worst, worse,
}

severity_rank-pos : (s : BehaviorSeverity) → 1 ≤ severity_rank s
unfolding severity_rank
severity_rank-pos BehaviorSeverity.low = omega arith
severity_rank-pos BehaviorSeverity.medium = omega arith
severity_rank-pos BehaviorSeverity.high = omega arith
severity_rank-pos BehaviorSeverity.critical = omega arith

abbrev reaches : BehaviorSeverity → BehaviorSignal → Bool
unfolding severity_rank
reaches floor s = leb (severity_rank floor) (severity_rank s.severity)

worse-reaches :
    (floor a b : BehaviorSeverity)
    → leb (severity_rank floor) (severity_rank (worse a b))
      ≡ (leb (severity_rank floor) (severity_rank a) || leb (severity_rank floor) (severity_rank b))
unfolding worse
worse-reaches floor a b = ground arith

worst-reaches :
    (floor : BehaviorSeverity) (ss : List BehaviorSignal)
    → leb (severity_rank floor) (severity_rank (worst ss))
      ≡ (any (reaches floor) ss || leb (severity_rank floor) 1)
unfolding worst reaches severity_rank
worst-reaches floor [] = refl
worst-reaches floor (s ∷ ss) =
    ground (arith, worse-reaches floor s.severity (worst ss), worst-reaches floor ss)

-- A finding has at least a severity exactly where one of its signals has.
pub severity_at_least-any :
    (key : String) (signals : List BehaviorSignal) (floor : BehaviorSeverity)
    → severity_at_least (from_signals key signals) floor
      ≡ any (λ (s : BehaviorSignal). leb (severity_rank floor) (severity_rank s.severity)) signals
unfolding severity_at_least from_signals reaches
severity_at_least-any key [] floor = refl
severity_at_least-any key (s ∷ ss) floor =
    ground (arith, worst-reaches floor (s ∷ ss), severity_rank-pos s.severity)
