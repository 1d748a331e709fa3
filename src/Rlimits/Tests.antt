-- ===== src/Rlimits/Tests.antt =====
-- A run that applies limits, and the theorems at it.
use claw_crate.Base.{◌≡◌, refl, true, List, arith, leb}
use claw_crate.Profiles.Resolve.{ResourceLimits}
use claw_crate.Rlimits.{rlimit_as, Limits, Kernel, AppliedRlimit, ok, apply_resource_limits}
use claw_crate.Rlimits.Applied.{apply_resource_limits-ok}
use claw_crate.Rlimits.Total.{apply_resource_limits-returns}

abbrev kernel : Kernel
kernel = record { answers = λ r. true; accepts = λ r soft hard. leb soft hard }

abbrev before : Limits
before r = record { soft = 512; hard = 1000 }

abbrev limits : ResourceLimits
limits = record {
  max_cpu_seconds = 120;
  max_memory_mb = 2048;
  max_open_files = 512;
  max_processes = 128;
  max_output_bytes = 2097152;
}

succeeds : (res : List AppliedRlimit) × ((apply_resource_limits kernel limits before).0 ≡ ok res)
succeeds =
    apply_resource_limits-returns kernel limits before (λ r. refl, λ r soft hard h. ground arith)
      (omega arith, omega arith, omega arith, omega arith) (λ r. omega arith)

-- The address space asked for is more than the hard limit.
apply_resource_limits-ok_example :
    (((apply_resource_limits kernel limits before).1 rlimit_as).soft ≡ 1000)
    × (((apply_resource_limits kernel limits before).1 rlimit_as).hard ≡ 1000)
apply_resource_limits-ok_example =
    apply_resource_limits-ok kernel limits before (succeeds.0) rlimit_as (omega arith) (omega arith)
      (succeeds.1)
