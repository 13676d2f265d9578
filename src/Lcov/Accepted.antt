-- ===== src/Lcov/Accepted.antt =====
-- Which reports are read.
use swift_proof.Prelude.{Bool, List, [], any, eqb, false, not, true, ℕ, ◌&&◌, ◌==◌, ◌∷◌, ◌≡◌}
use swift_proof.Lcov.{
  Parsed, Row, Turn, blank, block_limit, closing, failed, go_on, header, line_data, malformed,
  no_format, other, profile, source, stop, truncated, unreadable,
}

-- Records are opened by a file name and closed, their data stands inside them, and every row can
-- be read. The flag says whether a record is open.
pub accepts : Bool → List Row → Bool
accepts inside [] = not inside
accepts inside (blank ∷ rows) = accepts inside rows
accepts inside (closing ∷ rows) = inside && accepts false rows
accepts inside (other ∷ rows) = inside && accepts inside rows
accepts inside (header ∷ rows) = accepts inside rows
accepts inside (unreadable ∷ rows) = false
accepts inside (source f ∷ rows) = not inside && (not (f == "") && accepts true rows)
accepts inside (line_data m n ∷ rows) = inside && accepts inside rows

abbrev pub is_source : Row → Bool
is_source (source f) = true
is_source blank = false
is_source closing = false
is_source other = false
is_source header = false
is_source unreadable = false
is_source (line_data m n) = false

-- What a stop or an end of the loop says of the rows.
Outcome : Bool → ℕ → List Row → Turn → Type 0
Outcome inside records rows (stop (malformed at)) = accepts inside rows ≡ false
Outcome inside records rows (stop block_limit) = Unit {0}
Outcome inside records rows (stop truncated) = ⊥
Outcome inside records rows (stop no_format) = ⊥
Outcome inside records rows (go_on r) =
    (accepts inside rows ≡ not r.is_open)
    × (eqb r.records 0 ≡ (eqb records 0 && not (any is_source rows)))

-- What an answer says of the rows. A report that is not read for another reason than its size is
-- none that could be.
pub IsParsed : List Row → Parsed → Type 0
IsParsed rows (profile bs) = (accepts false rows ≡ true) × (any is_source rows ≡ true)
IsParsed rows (failed (malformed at)) = accepts false rows ≡ false
IsParsed rows (failed block_limit) = Unit {0}
IsParsed rows (failed truncated) = accepts false rows ≡ false
IsParsed rows (failed no_format) = any is_source rows ≡ false
