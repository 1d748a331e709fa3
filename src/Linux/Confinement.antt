-- ===== src/Linux/Confinement.antt =====
-- Runs of a launch on Linux, and the theorems about it at concrete inputs.
use claw_crate.Base.{
  ℕ, ◌≡◌, refl, codes, true, false, none, some, [], ◌∷◌, FilePath, root_dir, normal, path_eq,
  starts_with, text_eq, inl, inr,
}
use claw_crate.Profiles.Resolve.{no_network, ResourceLimits, to_path}
use claw_crate.Rlimits.{Limits}
use claw_crate.Linux.Landlock.{
  LinuxLandlockContext, landlock_write_access_mask_for_abi, landlock_read_access_mask_for_abi,
  apply_linux_landlock_restrictions, add_rule, landlock_access_for_path_type,
}
use claw_crate.Linux.Landlock
use claw_crate.Linux.Limits
use claw_crate.Linux.Anchors.{Kernel, PreparedPaths, ok, prepare_linux_landlock_context}
use claw_crate.Linux.Anchors.Confined.{Allowed, rules_confined}
use claw_crate.Linux.Filter.{LinuxSeccompContext, plain}
use claw_crate.Linux.Launch.{byte, ChildKernel, run_child, PreparedLinuxSandbox}
use claw_crate.Linux.Launch.Executed.{IsConfined, run_child-IsConfined}
use claw_crate.Linux.Enforcement.{
  LinuxEnforcer, World, SpawnedCommand, launch_with_stdio, empty_command, enforcement, landlock,
  rlimits, applied,
}
use claw_crate.Linux.Enforcement
use claw_crate.Linux.Enforcement.Ordered.{IsOrdered, launch_with_stdio-IsOrdered}

abbrev workspace : FilePath
workspace = root_dir ∷ normal (codes "w") ∷ []

-- Only the workspace exists; it opens as descriptor 5, a directory.
abbrev kernel : Kernel
kernel = record {
  abi = ok 3;
  exists = λ path. path_eq path workspace;
  open_path = λ path. ok 5;
  fstat = λ fd. ok true;
}

abbrev paths : PreparedPaths
paths = record {
  cwd = workspace;
  fs_read = [];
  fs_write = (root_dir ∷ normal (codes "w") ∷ normal (codes "target") ∷ []) ∷ [];
}

abbrev context : LinuxLandlockContext
context = record {
  write_access_mask = 0x7FF2;
  read_access_mask = 0xC;
  allowed_write_paths = record { fd = 5; is_dir = true } ∷ [];
  allowed_read_paths = [];
}

-- A missing path to write is anchored at its parent, and is no path to read.
context_of_paths : prepare_linux_landlock_context kernel paths ≡ ok context
unfolding prepare_linux_landlock_context landlock_write_access_mask_for_abi
    landlock_read_access_mask_for_abi to_path starts_with text_eq
context_of_paths = refl

abbrev willing : Landlock.Kernel
willing = record {
  creates = λ handled. none;
  adds = λ access fd. none;
  sets_no_new_privs = none;
  restricts = none;
  closes = none;
}

rules_confined_example : (v : ℕ) × (kernel.abi ≡ ok v) × Allowed kernel v paths 0x7FF2 5
unfolding apply_linux_landlock_restrictions
rules_confined_example =
    rules_confined kernel willing paths context 0x7FF2 5 context_of_paths (inr (inl refl))

abbrev child_kernel : ChildKernel
child_kernel = record {
  rlimits = record { gets = λ r. none; sets = λ r value. none };
  landlock = willing;
  seccomp = record {
    no_new_privs = none;
    applies = none;
    installs = some 9;
    install_errno = 0;
    sends = none;
    acknowledgement = byte;
  };
}

abbrev limits : ResourceLimits
limits = record {
  max_cpu_seconds = 60;
  max_memory_mb = 512;
  max_open_files = 256;
  max_processes = 32;
  max_output_bytes = 1000;
}

abbrev before : Limits
before r = record { soft = 1024; hard = 4096 }

abbrev filter : LinuxSeccompContext
filter = plain (record { code = 6; jt = 0; jf = 0; k = 0x7FFF0000 } ∷ [])

abbrev notifying : LinuxSeccompContext
notifying = record { program = []; listener_channel_child = some 7; notify_program = [] }

run_child-IsConfined_example :
    IsConfined child_kernel limits context notifying before
      (run_child child_kernel limits context notifying before)
unfolding run_child landlock_access_for_path_type Limits.build_linux_rlimit_targets
run_child-IsConfined_example =
    run_child-IsConfined child_kernel limits context notifying before refl

abbrev prepared : PreparedLinuxSandbox
prepared = record {
  execution_id = codes "1";
  command = codes "ls" ∷ codes "-l" ∷ [];
  cwd = workspace;
  fs_read = [];
  fs_write = [];
  net = no_network;
  resource_limits = limits;
  scrubbed_env = (codes "PATH", codes "/bin") ∷ [];
  scrubbed_keys = [];
}

abbrev enforcer : LinuxEnforcer
enforcer = record { apply_rlimits = true; apply_landlock = true; apply_seccomp = some (some 8) }

abbrev world : World
world = record { starts_thread = true; spawns = true }

abbrev listing : SpawnedCommand
listing = record {
  program = codes "ls";
  args = codes "-l" ∷ [];
  cwd = workspace;
  env = (codes "PATH", codes "/bin") ∷ [];
}

launch_with_stdio-IsOrdered_example :
    IsOrdered prepared listing (launch_with_stdio world enforcer prepared)
unfolding launch_with_stdio
launch_with_stdio-IsOrdered_example =
    launch_with_stdio-IsOrdered world enforcer prepared listing (inr (inr (inr (inr (inl refl)))))

landlock_fails :
    launch_with_stdio world (record enforcer { apply_landlock = false }) prepared
    ≡ (applied rlimits ∷ [], Enforcement.err (enforcement landlock))
unfolding launch_with_stdio
landlock_fails = refl
