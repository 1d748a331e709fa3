-- ===== src/Linux/Enforcement.antt =====
-- The parent's side of a launch on Linux (crates/clawcrate-sandbox/src/linux.rs): the steps of enforcement,
-- the supervisor and the spawn, in their order. What each of them comes to is an argument.
pub mod Ordered
use claw_crate.Base.{
  ℕ, Text, Bool, true, false, if◌then◌else◌, Option, none, some, List, [], ◌∷◌, ◌++◌, FilePath,
}
use claw_crate.Linux.Launch.{PreparedLinuxSandbox}

pub data EnforcementStep : Type 0 where
  rlimits landlock seccomp : EnforcementStep

pub data LinuxSandboxError : Type 0 where
  empty_command spawn_failed : LinuxSandboxError
  enforcement : EnforcementStep → LinuxSandboxError

-- Whether the three steps of the enforcer work, the last one with the supervisor's end of a channel
-- or without; whether the supervisor's thread starts; whether the spawn works, which waits for
-- the child's exec.
pub record LinuxEnforcer : Type 0 where
  pub apply_rlimits : Bool
  pub apply_landlock : Bool
  pub apply_seccomp : Option (Option ℕ)

pub record World : Type 0 where
  pub starts_thread : Bool
  pub spawns : Bool

pub record SpawnedCommand : Type 0 where
  pub program : Text
  pub args : List Text
  pub cwd : FilePath
  pub env : List (Text × Text)

pub data Effect : Type 0 where
  applied : EnforcementStep → Effect
  started_supervisor : ℕ → Effect
  spawned : SpawnedCommand → Effect

pub data Result (A : Type 0) : Type 0 where
  ok : A → Result A
  err : LinuxSandboxError → Result A

abbrev pub seccomp_step : Option (Option ℕ) → List Effect × Result (Option ℕ)
seccomp_step none = (applied rlimits ∷ applied landlock ∷ [], err (enforcement seccomp))
seccomp_step (some listener_channel) =
    (applied rlimits ∷ applied landlock ∷ applied seccomp ∷ [], ok listener_channel)

unfoldable pub apply_enforcement_steps : LinuxEnforcer → List Effect × Result (Option ℕ)
apply_enforcement_steps enforcer =
    if enforcer.apply_rlimits
    then (if enforcer.apply_landlock
        then seccomp_step enforcer.apply_seccomp
        else (applied rlimits ∷ [], err (enforcement landlock)))
    else ([], err (enforcement rlimits))

module _ (world : World) where
  -- The supervisor's channel is closed when its thread does not start.
  abbrev pub start_seccomp_notify_supervisor : Option ℕ → List Effect × Option ℕ
  start_seccomp_notify_supervisor none = ([], none)
  start_seccomp_notify_supervisor (some channel) =
      if world.starts_thread then (started_supervisor channel ∷ [], some channel) else ([], none)

  -- `ok` has the supervisor of the child, by its channel.
  abbrev pub spawn :
      SpawnedCommand → List Effect → List Effect × Option ℕ → List Effect × Result (Option ℕ)
  spawn command effects (started, supervisor) =
      if world.spawns
      then (effects ++ started ++ spawned command ∷ [], ok supervisor)
      else (effects ++ started, err spawn_failed)

  abbrev pub after_steps :
      SpawnedCommand → List Effect × Result (Option ℕ) → List Effect × Result (Option ℕ)
  after_steps command (effects, err e) = (effects, err e)
  after_steps command (effects, ok listener_channel) =
      spawn command effects (start_seccomp_notify_supervisor listener_channel)

  abbrev pub launch_command :
      LinuxEnforcer → PreparedLinuxSandbox → List Text → List Effect × Result (Option ℕ)
  launch_command enforcer prepared [] = ([], err empty_command)
  launch_command enforcer prepared (program ∷ args) =
      after_steps
        (record { program = program; args = args; cwd = prepared.cwd; env = prepared.scrubbed_env })
        (apply_enforcement_steps enforcer)

  -- The environment is cleared before the prepared variables are set.
  unfoldable pub launch_with_stdio :
      LinuxEnforcer → PreparedLinuxSandbox → List Effect × Result (Option ℕ)
  unfolding apply_enforcement_steps
  launch_with_stdio enforcer prepared = launch_command enforcer prepared prepared.command
