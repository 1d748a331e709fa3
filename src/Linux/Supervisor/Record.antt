-- ===== src/Linux/Supervisor/Record.antt =====
-- The bounded record keeps each refused system call once, and counts what it has no room for.
use claw_crate.Base.{
  ◌≤◌, ◌<◌, ◌≡◌, refl, Bool, true, false, List, [], ◌∷◌, ◌++◌, length, length-append, any, ◌⊎◌,
  arith, ==_iff, ◌||◌,
}
use claw_crate.Linux.Supervisor.{
  DeniedSyscall, same_denial, DenialBuffer, max_recorded_denials, record_denial, Effect, recorded,
  replied, logged,
}

abbrev pub holds : DenialBuffer → DeniedSyscall → Bool
holds buffer denial = any (λ d. same_denial d denial) buffer.denials

-- No two of them are the same.
abbrev pub IsDistinct : List DeniedSyscall → Type 0
IsDistinct [] = Unit {0}
IsDistinct (d ∷ ds) = (any (λ e. same_denial d e) ds ≡ false) × IsDistinct ds

-- The invariant of the record.
pub record IsBounded (buffer : DenialBuffer) : Type 0 where
  pub distinct : IsDistinct buffer.denials
  pub within : length buffer.denials ≤ max_recorded_denials
  pub dropped_full : 0 < buffer.dropped → length buffer.denials ≡ max_recorded_denials

any-append :
    (p : DeniedSyscall → Bool) (xs ys : List DeniedSyscall)
    → any p (xs ++ ys) ≡ any p xs || any p ys
any-append p [] ys = refl
any-append p (x ∷ xs) ys = ground (arith, any-append p xs ys)

IsDistinct-append :
    (ds : List DeniedSyscall) (denial : DeniedSyscall)
    → IsDistinct ds
    → any (λ d. same_denial d denial) ds ≡ false
    → IsDistinct (ds ++ denial ∷ [])
IsDistinct-append [] denial h n = (refl, tt)
IsDistinct-append (d ∷ ds) denial (h, hs) n = (
  ground (arith, any-append (λ e. same_denial d e) ds (denial ∷ [])),
  IsDistinct-append ds denial hs (ground arith),
)

record_denial-IsBounded :
    (denial : DeniedSyscall) (buffer : DenialBuffer)
    → IsBounded buffer
    → IsBounded (record_denial denial buffer)
unfolding record_denial
record_denial-IsBounded denial buffer b = ground (
  arith,
  IsDistinct-append buffer.denials denial b.distinct,
  length-append buffer.denials (denial ∷ []),
)

-- A denial that is in the record, or has been counted with those there was no room for.
abbrev pub Accounted : DeniedSyscall → DenialBuffer → Type 0
Accounted denial buffer = (holds buffer denial ≡ true) ⊎ (0 < buffer.dropped)

record_denial-Accounted :
    (denial : DeniedSyscall) (buffer : DenialBuffer)
    → Accounted denial (record_denial denial buffer)
unfolding record_denial
record_denial-Accounted denial buffer = ground (
  arith,
  any-append (λ d. same_denial d denial) buffer.denials (denial ∷ []),
  ==_iff denial.nr denial.nr,
  ==_iff denial.pid denial.pid,
)

record_denial-stays :
    (denial other : DeniedSyscall) (buffer : DenialBuffer)
    → Accounted other buffer
    → Accounted other (record_denial denial buffer)
unfolding record_denial
record_denial-stays denial other buffer h =
    ground (arith, any-append (λ d. same_denial d other) buffer.denials (denial ∷ []))

-- The denials among effects are all accounted for.
abbrev pub AllAccounted : List Effect → DenialBuffer → Type 0
AllAccounted [] buffer = Unit {0}
AllAccounted (recorded denial ∷ effects) buffer =
    Accounted denial buffer × AllAccounted effects buffer
AllAccounted (replied id error ∷ effects) buffer = AllAccounted effects buffer

logged-stays :
    (effects : List Effect) (other : DeniedSyscall) (buffer : DenialBuffer)
    → Accounted other buffer
    → Accounted other (logged effects buffer)
unfolding logged
logged-stays [] other buffer h = h
logged-stays (recorded denial ∷ effects) other buffer h =
    logged-stays effects other (record_denial denial buffer)
      (record_denial-stays denial other buffer h)
logged-stays (replied id error ∷ effects) other buffer h = logged-stays effects other buffer h

logged-AllAccounted :
    (effects : List Effect) (buffer : DenialBuffer) → AllAccounted effects (logged effects buffer)
unfolding logged
logged-AllAccounted [] buffer = tt
logged-AllAccounted (recorded denial ∷ effects) buffer = (
  logged-stays effects denial (record_denial denial buffer) (record_denial-Accounted denial buffer),
  logged-AllAccounted effects (record_denial denial buffer),
)
logged-AllAccounted (replied id error ∷ effects) buffer = logged-AllAccounted effects buffer

-- Recording keeps the record without repetition and at no more than 256 denials, with a count of
-- others only where it is full; and each denial that was recorded is in it, or that count is not
-- zero.
pub logged-IsBounded :
    (effects : List Effect) (buffer : DenialBuffer)
    → IsBounded buffer
    → IsBounded (logged effects buffer) × AllAccounted effects (logged effects buffer)
unfolding logged
logged-IsBounded effects buffer b = (bounded effects buffer b, logged-AllAccounted effects buffer)
  where
    bounded :
        (effects : List Effect) (buffer : DenialBuffer)
        → IsBounded buffer
        → IsBounded (logged effects buffer)
    bounded [] buffer b = b
    bounded (recorded denial ∷ effects) buffer b =
        bounded effects (record_denial denial buffer) (record_denial-IsBounded denial buffer b)
    bounded (replied id error ∷ effects) buffer b = bounded effects buffer b
