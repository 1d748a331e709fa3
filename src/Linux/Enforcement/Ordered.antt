-- ===== src/Linux/Enforcement/Ordered.antt =====
-- A command is spawned only behind all steps of the enforcement.
use claw_crate.Base.{
  ℕ, Text, ◌≡◌, refl, Option, none, some, List, [], ◌∷◌, ◌++◌, Any, inl, inr, arith, subst,
  Bool-cases, Option-cases,
}
use claw_crate.Linux.Launch.{PreparedLinuxSandbox}
use claw_crate.Linux.Enforcement.{
  rlimits, landlock, seccomp, LinuxEnforcer, World, SpawnedCommand, Effect, applied,
  started_supervisor, spawned, Result, ok, launch_command, launch_with_stdio,
  apply_enforcement_steps, after_steps, seccomp_step, spawn,
}

-- The supervisor's start, if it has a channel and a thread.
abbrev pub supervising : Option ℕ → List Effect
supervising none = []
supervising (some channel) = started_supervisor channel ∷ []

-- What has happened when a command was spawned, and what then is returned.
pub record IsOrdered (prepared : PreparedLinuxSandbox) (command : SpawnedCommand)
    (launch : List Effect × Result (Option ℕ)) : Type 0 where
  pub supervisor : Option ℕ
  pub order :
      launch.0
      ≡ applied rlimits
        ∷ applied landlock
        ∷ applied seccomp
        ∷ (supervising supervisor ++ spawned command ∷ [])
  pub returned : launch.1 ≡ ok supervisor
  pub named : prepared.command ≡ command.program ∷ command.args
  pub at : command.cwd ≡ prepared.cwd
  pub scrubbed : command.env ≡ prepared.scrubbed_env

abbrev pub Spawned : SpawnedCommand → List Effect → Type 0
Spawned command effects = Any (λ e. e ≡ spawned command) effects

-- Only the command that a launch spawns is spawned.
same_command :
    (c command : SpawnedCommand) (supervisor : Option ℕ)
    → Spawned command (
        applied rlimits
        ∷ applied landlock
        ∷ applied seccomp
        ∷ (supervising supervisor ++ spawned c ∷ []))
    → c ≡ command
same_command c command none m = ground arith
same_command c command (some channel) m = ground arith

not-Spawned :
    (command : SpawnedCommand) (supervisor : Option ℕ)
    → ¬ Spawned command
        (applied rlimits ∷ applied landlock ∷ applied seccomp ∷ (supervising supervisor ++ []))
not-Spawned command none m = ground arith
not-Spawned command (some channel) m = ground arith

module _ (world : World) (prepared : PreparedLinuxSandbox) (command c : SpawnedCommand)
    (named : prepared.command ≡ c.program ∷ c.args) (at : c.cwd ≡ prepared.cwd)
    (scrubbed : c.env ≡ prepared.scrubbed_env) where
  Spawned-append_nil :
      (supervisor : Option ℕ)
      → Spawned command
          (applied rlimits ∷ applied landlock ∷ applied seccomp ∷ supervising supervisor)
      → Spawned command
          (applied rlimits ∷ applied landlock ∷ applied seccomp ∷ (supervising supervisor ++ []))
  Spawned-append_nil none m = m
  Spawned-append_nil (some channel) m = m

  spawn-IsOrdered :
      (supervisor : Option ℕ)
      → Spawned command
          (spawn world c
            (applied rlimits ∷ applied landlock ∷ applied seccomp ∷ [])
            (supervising supervisor, supervisor)).0
      → IsOrdered prepared command (
          spawn world c
            (applied rlimits ∷ applied landlock ∷ applied seccomp ∷ [])
            (supervising supervisor, supervisor))
  spawn-IsOrdered supervisor m = elim (Bool-cases world.spawns) [
    | inl works ↦ rw works (
        let same = same_command c command supervisor (rw works at m) in
        subst
          (λ x. IsOrdered prepared x (
            applied rlimits
                ∷ applied landlock
                ∷ applied seccomp
                ∷ (supervising supervisor ++ spawned c ∷ []),
            ok supervisor,
          ))
          same
          (record {
            supervisor = supervisor;
            order = refl;
            returned = refl;
            named = named;
            at = at;
            scrubbed = scrubbed;
          }))
    | inr fails ↦
        absurd (not-Spawned command supervisor (Spawned-append_nil supervisor (rw fails at m)))
  ]

  channel-IsOrdered :
      (channel : Option ℕ)
      → Spawned command (after_steps world c (seccomp_step (some channel))).0
      → IsOrdered prepared command (after_steps world c (seccomp_step (some channel)))
  channel-IsOrdered none m = spawn-IsOrdered none m
  channel-IsOrdered (some channel) m = elim (Bool-cases world.starts_thread) [
    | inl starts ↦ rw starts (spawn-IsOrdered (some channel) (rw starts at m))
    | inr fails ↦ rw fails (spawn-IsOrdered none (rw fails at m))
  ]

  steps-IsOrdered :
      (enforcer : LinuxEnforcer)
      → Spawned command (after_steps world c (apply_enforcement_steps enforcer)).0
      → IsOrdered prepared command (after_steps world c (apply_enforcement_steps enforcer))
  unfolding apply_enforcement_steps
  steps-IsOrdered enforcer m = elim (Bool-cases enforcer.apply_rlimits) [
    | inr fails ↦ absurd (rw fails at m)
    | inl limited ↦ elim (Bool-cases enforcer.apply_landlock) [
      | inr fails ↦ absurd (ground arith)
      | inl restricted ↦ elim (Option-cases enforcer.apply_seccomp) [
        | inl fails ↦ absurd (ground arith)
        | inr (channel, e) ↦
            rw (limited, restricted, e)
              (channel-IsOrdered channel (rw (limited, restricted, e) at m))
      ]
    ]
  ]

-- A command is spawned only behind the resource limits, the file system rules and the filter, in
-- this order, and with the supervisor's thread started just before if it is; then the launch
-- returns a child with that supervisor, and the command is that of the plan, in its directory
-- and with the scrubbed environment alone.
pub launch_with_stdio-IsOrdered :
    (world : World) (enforcer : LinuxEnforcer) (prepared : PreparedLinuxSandbox)
    (command : SpawnedCommand)
    → Spawned command (launch_with_stdio world enforcer prepared).0
    → IsOrdered prepared command (launch_with_stdio world enforcer prepared)
unfolding launch_with_stdio
launch_with_stdio-IsOrdered world enforcer prepared command m = launched prepared.command refl m
  where
    launched :
        (words : List Text)
        → prepared.command ≡ words
        → Spawned command (launch_command world enforcer prepared words).0
        → IsOrdered prepared command (launch_command world enforcer prepared words)
    launched [] e s = absurd s
    launched (program ∷ args) e s =
        steps-IsOrdered world prepared command
          (record {
            program = program;
            args = args;
            cwd = prepared.cwd;
            env = prepared.scrubbed_env;
          })
          e refl refl enforcer s
