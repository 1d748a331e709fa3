-- ===== src/Linux/Launch.antt =====
-- How a command is launched on Linux (crates/clawcrate-sandbox/src/linux.rs): what the parent prepares, and
-- what the child does between fork and exec.
pub mod Executed
use claw_crate.Base.{
  ℕ, zero, suc, Text, codes, Bool, true, false, not, if◌then◌else◌, Option, none, some, List, [],
  ◌∷◌, ◌++◌, FilePath,
}
use claw_crate.Profiles.Resolve.{NetLevel, ResourceLimits, ResolvedProfile}
use claw_crate.Env.{scrub_environment}
use claw_crate.PathNormalize.{home_from_env_pairs, normalize_paths}
use claw_crate.Rlimits.{Limits}
use claw_crate.Linux.Landlock.{
  LinuxLandlockContext, Ended, ok, os_error, Call, apply_linux_landlock_restrictions,
}
use claw_crate.Linux.Landlock
use claw_crate.Linux.Limits.{
  LinuxRlimitTarget, build_linux_rlimit_targets, apply_linux_rlimit_targets,
}
use claw_crate.Linux.Limits
use claw_crate.Linux.Filter.{SockFilter, LinuxSeccompContext}

pub record PreparedLinuxSandbox : Type 0 where
  pub execution_id : Text
  pub command : List Text
  pub cwd : FilePath
  pub fs_read : List FilePath
  pub fs_write : List FilePath
  pub net : NetLevel
  pub resource_limits : ResourceLimits
  pub scrubbed_env : List (Text × Text)
  pub scrubbed_keys : List Text

-- Of a plan its id, command, directory and profile.
unfoldable pub prepare_with_env :
    Text → List Text → FilePath → ResolvedProfile → List (Text × Text) → PreparedLinuxSandbox
unfolding scrub_environment home_from_env_pairs normalize_paths
prepare_with_env id command cwd profile env_vars =
    let scrubbed = scrub_environment env_vars profile.env_scrub profile.env_passthrough in
    let home = home_from_env_pairs scrubbed.kept in
    record {
      execution_id = id;
      command = command;
      cwd = cwd;
      fs_read = normalize_paths cwd profile.fs_read home;
      fs_write = normalize_paths cwd profile.fs_write home;
      net = profile.net;
      resource_limits = profile.resources;
      scrubbed_env = scrubbed.kept;
      scrubbed_keys = scrubbed.removed;
    }

-- What happens between the child's fork and its exec to the filter.
pub data FilterCall : Type 0 where
  set_no_new_privs close_listener : FilterCall
  apply_filter : List SockFilter → FilterCall
  install_with_listener : List SockFilter → FilterCall
  hand_over : ℕ → ℕ → FilterCall

-- The acknowledgement of the supervisor: a byte, a failed read or the end of the channel.
pub data Acknowledged : Type 0 where
  byte end : Acknowledged
  read_error : ℕ → Acknowledged

pub record FilterKernel : Type 0 where
  pub no_new_privs : Option ℕ
  -- `seccompiler::apply_filter`, with its error as a number.
  pub applies : Option ℕ
  -- The listener's descriptor, or the number of the error.
  pub installs : Option ℕ
  pub install_errno : ℕ
  pub sends : Option ℕ
  pub acknowledgement : Acknowledged

abbrev pub ended : Option ℕ → Ended
ended none = ok
ended (some errno) = os_error errno

-- `ECONNRESET` is 104.
abbrev pub on_acknowledgement : Acknowledged → Ended
on_acknowledgement byte = ok
on_acknowledgement (read_error errno) = os_error errno
on_acknowledgement end = os_error 104

abbrev pub hand_over_listener : Option ℕ → Acknowledged → Ended
hand_over_listener (some errno) acknowledgement = os_error errno
hand_over_listener none acknowledgement = on_acknowledgement acknowledgement

module _ (kernel : FilterKernel) where
  abbrev pub with_listener : List SockFilter → ℕ → Option ℕ → List FilterCall × Ended
  with_listener program channel none =
      (set_no_new_privs ∷ install_with_listener program ∷ [], os_error kernel.install_errno)
  with_listener program channel (some listener) = (
    set_no_new_privs
        ∷ install_with_listener program
        ∷ hand_over channel listener
        ∷ close_listener
        ∷ [],
    hand_over_listener kernel.sends kernel.acknowledgement,
  )

  abbrev pub install : LinuxSeccompContext → Option ℕ → List FilterCall × Ended
  install context none =
      (set_no_new_privs ∷ apply_filter context.program ∷ [], ended kernel.applies)
  install context (some channel) = with_listener context.notify_program channel kernel.installs

  abbrev pub on_no_new_privs : LinuxSeccompContext → Option ℕ → List FilterCall × Ended
  on_no_new_privs context (some errno) = (set_no_new_privs ∷ [], os_error errno)
  on_no_new_privs context none = install context context.listener_channel_child

  unfoldable pub apply_linux_seccomp_filter : LinuxSeccompContext → List FilterCall × Ended
  apply_linux_seccomp_filter context = on_no_new_privs context kernel.no_new_privs

-- The child: the hooks run in the order in which they were set up, and the first failure ends it
-- without an exec.
pub record ChildKernel : Type 0 where
  pub rlimits : Limits.Kernel
  pub landlock : Landlock.Kernel
  pub seccomp : FilterKernel

pub record Child : Type 0 where
  pub limits : Limits
  pub landlock_calls : List Call
  pub filter_calls : List FilterCall
  pub execs : Bool

module _ (kernel : ChildKernel) where
  abbrev pub after_filter : Limits → List Call → List FilterCall × Ended → Child
  after_filter limits calls (filter_calls, ok) = record {
    limits = limits;
    landlock_calls = calls;
    filter_calls = filter_calls;
    execs = true;
  }
  after_filter limits calls (filter_calls, os_error errno) = record {
    limits = limits;
    landlock_calls = calls;
    filter_calls = filter_calls;
    execs = false;
  }

  abbrev pub after_landlock : LinuxSeccompContext → Limits → List Call × Ended → Child
  after_landlock seccomp limits (calls, ok) =
      after_filter limits calls (apply_linux_seccomp_filter kernel.seccomp seccomp)
  after_landlock seccomp limits (calls, os_error errno) = record {
    limits = limits;
    landlock_calls = calls;
    filter_calls = [];
    execs = false;
  }

  abbrev pub after_limits : LinuxLandlockContext → LinuxSeccompContext → Ended × Limits → Child
  after_limits landlock seccomp (ok, limits) =
      after_landlock seccomp limits (apply_linux_landlock_restrictions kernel.landlock landlock)
  after_limits landlock seccomp (os_error errno, limits) = record {
    limits = limits;
    landlock_calls = [];
    filter_calls = [];
    execs = false;
  }

  unfoldable pub run_child :
      ResourceLimits → LinuxLandlockContext → LinuxSeccompContext → Limits → Child
  unfolding apply_linux_seccomp_filter apply_linux_landlock_restrictions apply_linux_rlimit_targets
  run_child resource_limits landlock seccomp before = after_limits landlock seccomp (
      apply_linux_rlimit_targets kernel.rlimits (build_linux_rlimit_targets resource_limits) before)
