-- ===== src/Game/Process/Orphans.antt =====
-- Runs of the process table of game/core/process.py in which only live processes spawn.
use poodillion.Prelude.{
  ℕ, ◌≡◌, refl, Option, none, some, ◌==◌, nat_eq, arith, Bool-cases, inl, inr, subst, [], ◌∷◌,
  false,
}
use poodillion.Prelude.Dict.{Dict, lookup, insert, lookup-insert}
use poodillion.Game.Process.{
  Process, ProcessManager, is_dead, spawn, damage_process, update_cwd, set_env, cleanup_dead,
  initial_manager, new_process, tags_or,
}
use poodillion.Game.Process.Table.{IsValid, initial_manager-IsValid}
use poodillion.Game.Process.Calls.{
  Call, spawns, kills, damages, moves, sets_env, cleans, run_call, run_call-IsValid,
  dead_pids-AllAbove,
}
use poodillion.Game.Process.Reaping.{
  Live, IsRooted, kill_process-IsRooted, damage_found-IsRooted, change_found-IsRooted,
  reap_all-IsRooted,
}

-- A spawn is asked for by a process that is there and has not died.
abbrev pub SpawnsLive : Call → ProcessManager → Type 0
SpawnsLive (spawns parent _ _ _ _ _ _ _ _ _ _) m = Live parent m.processes
SpawnsLive _ m = Unit

pub data Reach (now : ℕ) : ProcessManager → Type 0 where
  start : Reach now (initial_manager now)
  call : {m : ProcessManager} → Reach now m → (c : Call) → SpawnsLive c m → Reach now (run_call c m)

initial_manager-IsRooted : (now : ℕ) → IsRooted (initial_manager now).processes
unfolding initial_manager lookup insert nat_eq
initial_manager-IsRooted now = record {
  init = (
    new_process 1 0 0 0 0 0 "init" ("init" ∷ []) 1
        (("PATH", "/bin:/usr/bin:/sbin:/usr/sbin") ∷ ("HOME", "/root") ∷ ("USER", "root") ∷ []) []
        now,
    refl,
    refl,
  );
  parent = λ i p h ne. absurd (ground arith);
}

insert_new-IsRooted :
    (i : ℕ) (p : Process) (d : Dict ℕ Process)
    → lookup i d ≡ none
    → is_dead p.state ≡ false
    → Live p.ppid d
    → IsRooted d
    → IsRooted (insert i p d)
insert_new-IsRooted i p d fresh lives up r = record {
  init = live 1 r.init;
  parent = λ j s h ne. elim (Bool-cases (j == i)) [
    | inl e ↦
        subst (λ k. Live k (insert i p d)) (ground (arith, lookup-insert j i p d)) (live p.ppid up)
    | inr n ↦ live s.ppid (r.parent j s (ground (arith, lookup-insert j i p d)) ne)
  ];
}
  where
    live : (j : ℕ) → Live j d → Live j (insert i p d)
    live j (s, e, a) = (s, ground (arith, lookup-insert j i p d), a)

run_call-IsRooted :
    (c : Call) (m : ProcessManager)
    → SpawnsLive c m
    → IsValid m
    → IsRooted m.processes
    → IsRooted (run_call c m).processes
unfolding run_call spawn damage_process update_cwd set_env cleanup_dead
run_call-IsRooted (spawns parent uid gid euid egid command args cwd env tags now) m (q, e, a) v r =
    rw (e, run_call, spawn)
      (insert_new-IsRooted m.next_pid
        (new_process m.next_pid parent uid gid euid egid command args cwd env (tags_or tags) now)
        m.processes (fresh (lookup m.next_pid m.processes) refl) refl (q, e, a) r)
  where
    fresh :
        (o : Option Process)
        → lookup m.next_pid m.processes ≡ o
        → lookup m.next_pid m.processes ≡ none
    fresh none h = h
    fresh (some p) h = absurd (ground (arith, v.keyed m.next_pid p))
run_call-IsRooted (kills pid signal) m live v r = kill_process-IsRooted pid signal m r
run_call-IsRooted (damages pid damage) m live v r =
    damage_found-IsRooted pid damage (lookup pid m.processes) m refl r
run_call-IsRooted (moves pid cwd) m live v r =
    change_found-IsRooted pid _ (lookup pid m.processes) m (λ p. (refl, refl)) refl r
run_call-IsRooted (sets_env pid key value) m live v r =
    change_found-IsRooted pid _ (lookup pid m.processes) m (λ p. (refl, refl)) refl r
run_call-IsRooted cleans m live v r =
    (reap_all-IsRooted _ m.processes (dead_pids-AllAbove m.processes) r).0

Reach-IsValid : {now : ℕ} {m : ProcessManager} → Reach now m → IsValid m
Reach-IsValid {now} start = initial_manager-IsValid now
Reach-IsValid (call {m} s c live) = run_call-IsValid c m (Reach-IsValid s)

-- As long as only live processes spawn, init and the parent of every other process are alive.
pub Reach-IsRooted : {now : ℕ} {m : ProcessManager} → Reach now m → IsRooted m.processes
Reach-IsRooted {now} start = initial_manager-IsRooted now
Reach-IsRooted (call {m} s c live) = run_call-IsRooted c m live (Reach-IsValid s) (Reach-IsRooted s)

-- As long as only live processes spawn, `cleanup_dead` never removes a process: whatever pid is in
-- the table before it is there after it.
pub cleanup_dead-keeps :
    {now : ℕ} {m : ProcessManager} (i : ℕ) (p : Process)
    → Reach now m
    → lookup i m.processes ≡ some p
    → (q : Process) × (lookup i (cleanup_dead m).processes ≡ some q) × (q.pid ≡ p.pid)
unfolding cleanup_dead
cleanup_dead-keeps {m} i p s h =
    (reap_all-IsRooted _ m.processes (dead_pids-AllAbove m.processes) (Reach-IsRooted s)).1 i p h
