-- ===== src/Darwin/Violations.antt =====
-- crates/clawcrate-sandbox/src/macos_violations.rs: the denials that are read back from the system's log.
-- Running `log show` is an argument.
pub mod Attributed
pub mod Bounded
use claw_crate.Base.{
  ℕ, zero, suc, ◌+◌, ◌*◌, ◌-◌, Text, codes, Bool, true, false, not, ◌&&◌, ◌||◌, if◌then◌else◌,
  Option, none, some, List, [], ◌∷◌, ◌++◌, any, length, ltb, leb, ◌==◌, min, max, text_eq, trim,
  is_empty, is_whitespace, strip_prefix, drop_while,
}
use claw_crate.Egress.Hosts.{digits_below}

pub record SeatbeltViolation : Type 0 where
  pub operation : Text
  pub target : Text

unfoldable pub resource : SeatbeltViolation → Text
resource violation = if is_empty violation.target then violation.operation else violation.target

unfoldable pub reason_text : SeatbeltViolation → Text
reason_text violation = codes "macOS Seatbelt denied " ++ violation.operation

pub record SeatbeltViolationReport : Type 0 where
  pub violations : List SeatbeltViolation
  pub dropped : ℕ
  pub window_truncated : Bool

-- `s.find(needle)` and `s.rfind(needle)`, with the texts before and behind the needle.
abbrev pub before_more : ℕ → Option (Text × Text) → Option (Text × Text)
before_more c none = none
before_more c (some (a, b)) = some (c ∷ a, b)

abbrev pub at_start : Option Text → Option (Text × Text)
at_start none = none
at_start (some rest) = some ([], rest)

abbrev pub or_else : Option (Text × Text) → Option (Text × Text) → Option (Text × Text)
or_else none other = other
or_else (some found) other = some found

unfoldable pub find : Text → Text → Option (Text × Text)
unfolding strip_prefix
find needle [] = none
find needle (c ∷ s) =
    or_else (at_start (strip_prefix (c ∷ s) needle)) (before_more c (find needle s))

unfoldable pub rfind : Text → Text → Option (Text × Text)
unfolding strip_prefix
rfind needle [] = none
rfind needle (c ∷ s) =
    or_else (before_more c (rfind needle s)) (at_start (strip_prefix (c ∷ s) needle))

abbrev pub some_digits : Text → Option ℕ
some_digits [] = none
some_digits (c ∷ s) = digits_below 0x100000000 0 (c ∷ s)

-- `parse::<u32>`: a `+` may stand before the digits, and one digit must be there.
unfoldable pub parse_u32 : Text → Option ℕ
unfolding digits_below strip_prefix
parse_u32 s = elim (strip_prefix s (codes "+")) [
  | some digits ↦ some_digits digits
  | none ↦ some_digits s
]

-- `split_once(char::is_whitespace)`.
unfoldable pub split_whitespace : Text → Option (Text × Text)
unfolding is_whitespace
split_whitespace [] = none
split_whitespace (c ∷ s) =
    let rest = before_more c (split_whitespace s) in if is_whitespace c then some ([], s) else rest

abbrev pub violation_of : Text → Option (Text × Text) → SeatbeltViolation
violation_of tail none = record { operation = tail; target = [] }
violation_of tail (some (operation, target)) = record {
  operation = operation;
  target = trim target;
}

abbrev pub from_tail : Text → Option SeatbeltViolation
from_tail tail = if is_empty tail then none else some (violation_of tail (split_whitespace tail))

-- Behind the number of the denial.
abbrev pub from_close : Option (Text × Text) → Option SeatbeltViolation
from_close none = none
from_close (some (number, rest)) = from_tail (trim rest)

abbrev pub if_own : Option ℕ → ℕ → Option SeatbeltViolation → Option SeatbeltViolation
if_own none pid violation = none
if_own (some logged_pid) pid violation = if logged_pid == pid then violation else none

-- From the text behind the last parenthesis before the denial, and the text behind its marker.
abbrev pub from_pid : ℕ → Option (Text × Text) → Text → Option SeatbeltViolation
from_pid pid none after_deny = none
from_pid pid (some (name, logged)) after_deny =
    if_own (parse_u32 (trim logged)) pid (from_close (find (codes ")") after_deny))

abbrev pub from_deny : ℕ → Option (Text × Text) → Option SeatbeltViolation
from_deny pid none = none
from_deny pid (some (before_deny, after_deny)) =
    from_pid pid (rfind (codes "(") before_deny) after_deny

abbrev pub from_payload : ℕ → Option (Text × Text) → Option SeatbeltViolation
from_payload pid none = none
from_payload pid (some (front, payload)) = from_deny pid (find (codes ") deny(") payload)

unfoldable pub parse_denial_line : Text → ℕ → Option SeatbeltViolation
unfolding rfind find parse_u32 trim split_whitespace
parse_denial_line line pid = from_payload pid (rfind (codes "Sandbox: ") line)

abbrev pub same_violation : SeatbeltViolation → SeatbeltViolation → Bool
same_violation a b = text_eq a.operation b.operation && text_eq a.target b.target

abbrev pub max_recorded_violations : ℕ
max_recorded_violations = 256

-- `usize::MAX` on the 64-bit targets.
abbrev pub usize_max : ℕ
usize_max = 0xFFFFFFFFFFFFFFFF

-- `violations`, `seen` and `dropped` of the loop.
pub record Scan : Type 0 where
  pub violations : List SeatbeltViolation
  pub seen : List SeatbeltViolation
  pub dropped : ℕ

abbrev pub keep : SeatbeltViolation → Scan → Scan
keep violation scan =
    if leb max_recorded_violations (length scan.violations)
    then record scan { seen = violation ∷ scan.seen; dropped = min (scan.dropped + 1) usize_max }
    else record scan {
      seen = violation ∷ scan.seen;
      violations = scan.violations ++ violation ∷ [];
    }

abbrev pub on_line : Option SeatbeltViolation → Scan → Scan
on_line none scan = scan
on_line (some violation) scan =
    if any (λ v. same_violation v violation) scan.seen then scan else keep violation scan

-- Over the lines of the output.
unfoldable pub scan_lines : List Text → ℕ → Scan → Scan
unfolding parse_denial_line text_eq
scan_lines [] pid scan = scan
scan_lines (line ∷ lines) pid scan =
    scan_lines lines pid (on_line (parse_denial_line line pid) scan)

unfoldable pub parse_log_output : List Text → ℕ → SeatbeltViolationReport
unfolding scan_lines
parse_log_output lines pid =
    let scan = scan_lines lines pid (record { violations = []; seen = []; dropped = 0 }) in
    record { violations = scan.violations; dropped = scan.dropped; window_truncated = false }

abbrev pub max_lookback_seconds : ℕ
max_lookback_seconds = 900

abbrev pub lookback_margin_seconds : ℕ
lookback_margin_seconds = 2

abbrev pub u64_max : ℕ
u64_max = 0xFFFFFFFFFFFFFFFF

abbrev pub report_of : Option (List Text) → ℕ → Bool → SeatbeltViolationReport
report_of none pid window_truncated = record {
  violations = [];
  dropped = 0;
  window_truncated = window_truncated;
}
report_of (some lines) pid window_truncated = record (parse_log_output lines pid) {
  window_truncated = window_truncated;
}

-- `run_log_show` gives the lines of its output for a number of seconds, or fails; `window` is in
-- seconds.
unfoldable pub collect_violations : (ℕ → Option (List Text)) → ℕ → ℕ → SeatbeltViolationReport
unfolding parse_log_output
collect_violations run_log_show pid window =
    let requested = min (window + lookback_margin_seconds) u64_max in
    let lookback = min (max requested 1) max_lookback_seconds in
    report_of (run_log_show lookback) pid (ltb max_lookback_seconds requested)

-- By the variable `CLAWCRATE_SEATBELT_VIOLATIONS`.
unfoldable pub violation_capture_enabled : Option Text → Bool
unfolding text_eq
violation_capture_enabled none = false
violation_capture_enabled (some value) = text_eq value (codes "1") || text_eq value (codes "true")
