-- ===== src/Darwin/Violations/Bounded.antt =====
-- The report holds at most 256 violations, each of which a line reads as.
use claw_crate.Base.{
  ℕ, ◌≤◌, ◌≡◌, refl, Text, Option, none, some, List, [], ◌∷◌, ◌++◌, All, any, length, length-append,
  leb, arith, Bool-cases, inl, inr,
}
use claw_crate.Darwin.Violations.{
  SeatbeltViolation, Scan, same_violation, on_line, max_recorded_violations, parse_denial_line,
  scan_lines, parse_log_output,
}

All-append :
    (P : SeatbeltViolation → Type 0) (xs : List SeatbeltViolation) (v : SeatbeltViolation)
    → All P xs
    → P v
    → All P (xs ++ v ∷ [])
All-append P [] v h k = (k, tt)
All-append P (x ∷ xs) v (h, hs) k = (h, All-append P xs v hs k)

module _ (P : SeatbeltViolation → Type 0) where
  abbrev IsKept : Scan → Type 0
  IsKept scan = All P scan.violations × (length scan.violations ≤ max_recorded_violations)

  on_line-IsKept :
      (o : Option SeatbeltViolation) (scan : Scan)
      → ((v : SeatbeltViolation) → o ≡ some v → P v)
      → IsKept scan
      → IsKept (on_line o scan)
  on_line-IsKept none scan h k = k
  on_line-IsKept (some v) scan h k = elim (Bool-cases (any (λ x. same_violation x v) scan.seen)) [
    | inl seen ↦ rw seen k
    | inr fresh ↦ elim (Bool-cases (leb max_recorded_violations (length scan.violations))) [
      | inl full ↦ rw (fresh, full) k
      | inr room ↦
          rw (fresh, room)
            (
              All-append P scan.violations v k.0 (h v refl),
              ground (arith, length-append scan.violations (v ∷ [])),
            )
    ]
  ]

  scan_lines-IsKept :
      (lines : List Text) (pid : ℕ) (scan : Scan)
      → All (λ line. (v : SeatbeltViolation) → parse_denial_line line pid ≡ some v → P v) lines
      → IsKept scan
      → IsKept (scan_lines lines pid scan)
  unfolding scan_lines
  scan_lines-IsKept [] pid scan h k = k
  scan_lines-IsKept (line ∷ lines) pid scan (h, hs) k =
      scan_lines-IsKept lines pid (on_line (parse_denial_line line pid) scan) hs
        (on_line-IsKept (parse_denial_line line pid) scan h k)

-- Whatever holds of each violation that a line of the output reads as holds of those in the report,
-- which are at most 256.
pub parse_log_output-IsKept :
    (P : SeatbeltViolation → Type 0) (lines : List Text) (pid : ℕ)
    → All (λ line. (v : SeatbeltViolation) → parse_denial_line line pid ≡ some v → P v) lines
    → All P (parse_log_output lines pid).violations
      × (length (parse_log_output lines pid).violations ≤ max_recorded_violations)
unfolding parse_log_output
parse_log_output-IsKept P lines pid h =
    scan_lines-IsKept P lines pid (record { violations = []; seen = []; dropped = 0 }) h
      (tt, omega arith)
