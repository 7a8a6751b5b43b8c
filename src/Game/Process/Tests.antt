-- ===== src/Game/Process/Tests.antt =====
-- Runs of the process table of game/core/process.py, and its theorems at concrete data.
use poodillion.Prelude.{
  ℕ, true, false, ◌≡◌, ◌≢◌, ◌⊎◌, inl, inr, refl, Option, none, some, [], ◌∷◌, arith, ◌==◌, nat_eq,
  string_eq, if◌then◌else◌,
}
use poodillion.Prelude.Int.{pos, ◌-ℤ◌, leb_ℤ}
use poodillion.Prelude.Dict.{lookup, insert, erase, map_values}
use poodillion.Game.Process.{
  Process, ProcessManager, running, zombie, dead, is_dead, initial_manager, new_process, spawn,
  kill_process, damage_process, cleanup_dead, get_children, reparent, get_process_tree,
}
use poodillion.Game.Process.Table.{IsValid}
use poodillion.Game.Process.Calls.{
  Call, spawns, kills, cleans, run_call, run_calls, run_calls-IsValid, spawn_lem,
}
use poodillion.Game.Process.Signals.{
  accepts_signal, kill_process-accepts_signal, kill_process-lookup, get_children-kill_process,
  damage_process-lookup, kill_process-zombie,
}
use poodillion.Game.Process.Orphans.{Reach, start, call, cleanup_dead-keeps}

abbrev shell_call : ℕ → Call
shell_call parent = spawns parent 1000 100 1000 100 "sh" ("sh" ∷ []) 1 [] none 5

-- init, a shell (2), and a child of the shell (3).
table : ProcessManager
unfolding run_calls run_call initial_manager spawn lookup insert nat_eq
table = run_calls (shell_call 1 ∷ shell_call 2 ∷ []) (initial_manager 0)

abbrev shell : Process
shell = record {
  pid = 2;
  ppid = 1;
  uid = 1000;
  gid = 100;
  euid = 1000;
  egid = 100;
  command = "sh";
  args = "sh" ∷ [];
  state = running;
  cwd = 1;
  start_time = 5;
  stdin = 0;
  stdout = 1;
  stderr = 2;
  env = [];
  tty = none;
  exit_code = none;
  health = pos 100;
  tags = [];
}

lookup_shell : lookup 2 table.processes ≡ some shell
unfolding table
lookup_shell = refl

table-IsValid : IsValid table
unfolding table
table-IsValid = run_calls-IsValid (shell_call 1 ∷ shell_call 2 ∷ []) 0

run_calls-IsValid_example :
    IsValid (run_calls (shell_call 1 ∷ kills 2 9 ∷ cleans ∷ []) (initial_manager 0))
run_calls-IsValid_example = run_calls-IsValid (shell_call 1 ∷ kills 2 9 ∷ cleans ∷ []) 0

spawn_lem_example :
    let r : ProcessManager × Option ℕ = spawn 2 0 0 0 0 "ls" [] 1 [] none 9 table in
    ((lookup 2 table.processes ≡ none) × (r ≡ (table, none)))
    ⊎ ((q : Process) × (lookup 2 table.processes ≡ some q)
        × (pid : ℕ) × (r.1 ≡ some pid)
        × (lookup pid table.processes ≡ none)
        × (p : Process) × (lookup pid r.0.processes ≡ some p)
        × (p.ppid ≡ 2)
        × (p.state ≡ running)
        × (p.env ≡ [])
        × (p.euid ≡ 0)
        × ((i : ℕ) → i ≢ pid → lookup i r.0.processes ≡ lookup i table.processes))
spawn_lem_example = spawn_lem 2 0 0 0 0 "ls" [] 1 [] none 9 table table-IsValid

kill_process-accepts_signal_example :
    ((kill_process 1 9 table).1 ≡ accepts_signal 1 table)
    × (accepts_signal 1 table ≡ false → (kill_process 1 9 table).0 ≡ table)
kill_process-accepts_signal_example = kill_process-accepts_signal 1 9 table

kill_process-lookup_example : lookup 3 (kill_process 2 9 table).0.processes ≡ (
    if ◌==◌ {A = ℕ} 3 2
    then some (record shell {
      state = dead;
      exit_code = some (if ◌==◌ {A = ℕ} 9 9 then 137 else 0);
      ppid = if shell.ppid == 2 then 1 else shell.ppid;
    })
    else elim (lookup 3 table.processes) [
      | none ↦ none
      | some q ↦ some (record q { ppid = if q.ppid == 2 then 1 else q.ppid })
    ])
kill_process-lookup_example =
    kill_process-lookup 2 9 table shell 3 (omega arith) lookup_shell refl (inl refl)

reached : accepts_signal 2 table ≡ true
unfolding table
reached = refl

get_children-kill_process_example : get_children 2 (kill_process 2 15 table).0 ≡ []
get_children-kill_process_example = get_children-kill_process 2 15 table reached (inr refl)

damage_process-lookup_example : lookup 2 (damage_process 2 (pos 120) table).0.processes ≡ (
    if leb_ℤ (shell.health -ℤ pos 120) (pos 0)
    then some (reparent 2 (record shell { state = dead; exit_code = some 137; health = pos 0 }))
    else some (record shell { health = shell.health -ℤ pos 120 }))
damage_process-lookup_example =
    damage_process-lookup 2 (pos 120) table shell (omega arith) lookup_shell refl

-- The shell after SIGKILL and a cleanup: a zombie.
reaped : ProcessManager
unfolding kill_process cleanup_dead erase map_values table
reaped = cleanup_dead (kill_process 2 9 table).0

abbrev zombie_shell : Process
zombie_shell = record shell { state = zombie; exit_code = some 137 }

lookup_zombie : lookup 2 reaped.processes ≡ some zombie_shell
unfolding reaped
lookup_zombie = refl

kill_process-zombie_example :
    lookup 2 (kill_process 2 18 (kill_process 2 19 reaped).0).0.processes
    ≡ some (record zombie_shell { state = running })
kill_process-zombie_example =
    kill_process-zombie 2 reaped zombie_shell (omega arith) lookup_zombie refl

abbrev with_shell : ProcessManager
with_shell = run_call (kills 2 9) (run_call (shell_call 1) (initial_manager 0))

with_shell-Reach : Reach 0 with_shell
with_shell-Reach = call (call start (shell_call 1) live_init) (kills 2 9) tt
  where
    live_init :
        (q : Process) × (lookup 1 (initial_manager 0).processes ≡ some q)
        × (is_dead q.state ≡ false)
    live_init =
        unfold initial_manager lookup insert nat_eq in
        (
          new_process 1 0 0 0 0 0 "init" ("init" ∷ []) 1
              (("PATH", "/bin:/usr/bin:/sbin:/usr/sbin")
                ∷ ("HOME", "/root")
                ∷ ("USER", "root")
                ∷ [])
              [] 0,
          refl,
          refl,
        )

lookup_dead_shell :
    lookup 2 with_shell.processes ≡ some (record shell { state = dead; exit_code = some 137 })
unfolding run_call initial_manager spawn kill_process lookup insert map_values nat_eq
lookup_dead_shell = refl

cleanup_dead-keeps_example :
    (q : Process) × (lookup 2 (cleanup_dead with_shell).processes ≡ some q) × (q.pid ≡ 2)
cleanup_dead-keeps_example =
    cleanup_dead-keeps 2 (record shell { state = dead; exit_code = some 137 }) with_shell-Reach
      lookup_dead_shell

tree_of_table : get_process_tree table ≡ (0, 1 ∷ []) ∷ (1, 2 ∷ []) ∷ (2, 3 ∷ []) ∷ []
unfolding get_process_tree table
tree_of_table = refl
