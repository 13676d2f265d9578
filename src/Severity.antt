-- ===== src/Severity.antt =====
-- app/internal/report/report.go: severities and their rank.
use swift_proof.Prelude.{
  Bool, String, eqb, if◌then◌else◌, leb, leb→le, refl, true, ℕ, ◌==◌, ◌≡◌, ◌≤◌,
}
use swift_proof.Texts.{to_lower}

-- The `switch` of `rank`, on the lowered text.
unfoldable pub lowered_rank : String → ℕ
lowered_rank s =
    if s == "critical"
    then 4
    else if s == "high"
    then 3
    else if s == "medium"
    then 2
    else if s == "low"
    then 1
    else 0

unfoldable pub rank : String → ℕ
unfolding lowered_rank to_lower
rank s = lowered_rank (to_lower s)

-- `severity` lowers its argument and calls `rank`, which lowers it again.
unfoldable pub severity : String → String
unfolding rank
severity s = if eqb (rank (to_lower s)) 0 then "medium" else to_lower s

abbrev pub IsHigh : String → Type 0
IsHigh s = 3 ≤ rank s

-- rank(s) >= rank("high")
unfoldable pub is_high : String → Bool
unfolding rank
is_high s = leb (rank "high") (rank s)

pub is_high→IsHigh : (s : String) → is_high s ≡ true → IsHigh s
unfolding is_high
is_high→IsHigh s h = leb→le 3 (rank s) h

rank_test : (rank "High" ≡ 3) × (severity "Blocker" ≡ "medium") × (severity "LOW" ≡ "low")
unfolding severity
rank_test = (refl, refl, refl)
