-- ===== src/Game/Process/Calls.antt =====
-- Any sequence of calls on the process table of game/core/process.py.
use poodillion.Prelude.{
  Bool-cases, ℕ, ◌<◌, String, ◌≡◌, refl, ◌≢◌, ◌⊎◌, Option, none, some, List, [], ◌∷◌, nat_eq, arith,
  Option-cases, inl, inr,
}
use poodillion.Prelude.Int.{ℤ}
use poodillion.Prelude.Dict.{Dict, lookup, lookup-insert, lookup-erase}
use poodillion.Game.Process.{
  Process, ProcessManager, initial_manager, spawn, kill_process, damage_process, cleanup_dead,
  update_cwd, set_env, new_process, tags_or, reap, reap_all, dead_pids, gone, is_zombie, zombie,
  running,
}
use poodillion.Game.Process.Table.{
  IsValid, initial_manager-IsValid, spawn-IsValid, kill_process-IsValid, damage_found-IsValid,
  change_found-IsValid, insert-IsValid,
}

-- Every pid that the loop of `cleanup_dead` goes through is above init's.
abbrev pub AllAbove : List ℕ → Type 0
AllAbove [] = Unit
AllAbove (pid ∷ pids) = (1 < pid) × AllAbove pids

pub dead_pids-AllAbove : (d : Dict ℕ Process) → AllAbove (dead_pids d)
unfolding dead_pids
dead_pids-AllAbove [] = tt
dead_pids-AllAbove ((pid, p) ∷ d) = ground (arith, dead_pids-AllAbove d)

reap-IsValid :
    (pid : ℕ) (m : ProcessManager)
    → 1 < pid
    → IsValid m
    → IsValid (record m { processes = reap pid m.processes })
unfolding reap
reap-IsValid pid m big v = elim (Option-cases (lookup pid m.processes)) [
  | inl e ↦ rw (e, reap) v
  | inr (p, e) ↦
      rw (e, reap)
        (elim (Bool-cases (gone (lookup p.ppid m.processes))) [
          | inl orphan ↦ rw orphan (record {
            keyed = λ i q h. ground (arith, lookup-erase i pid m.processes, v.keyed i q);
            init_alive = (
              v.init_alive.0,
              ground (arith, lookup-erase 1 pid m.processes, v.init_alive.1),
              v.init_alive.2,
            );
            exited = λ i q h d. ground (arith, lookup-erase i pid m.processes, v.exited i q);
          })
          | inr kept ↦ rw kept (elim (Bool-cases (is_zombie p.state)) [
            | inl z ↦ rw z v
            | inr n ↦ rw n (
                insert-IsValid m pid p (record p { state = zombie }) v e refl (λ one. refl)
                  (λ d. cc))
          ])
        ])
]

pub reap_all-IsValid :
    (pids : List ℕ) (m : ProcessManager)
    → AllAbove pids
    → IsValid m
    → IsValid (record m { processes = reap_all pids m.processes })
unfolding reap_all
reap_all-IsValid [] m above v = v
reap_all-IsValid (pid ∷ pids) m above v =
    reap_all-IsValid pids (record m { processes = reap pid m.processes }) above.1
      (reap-IsValid pid m above.0 v)

-- The calls that change the table, with their arguments.
pub data Call : Type 0 where
  spawns :
      ℕ
      → ℕ
      → ℕ
      → ℕ
      → ℕ
      → String
      → List String
      → ℕ
      → Dict String String
      → Option (List String)
      → ℕ
      → Call
  kills : ℕ → ℕ → Call
  damages : ℕ → ℤ → Call
  moves : ℕ → ℕ → Call
  sets_env : ℕ → String → String → Call
  cleans : Call

unfoldable pub run_call : Call → ProcessManager → ProcessManager
run_call (spawns parent uid gid euid egid command args cwd env tags now) m =
    (spawn parent uid gid euid egid command args cwd env tags now m).0
run_call (kills pid signal) m = (kill_process pid signal m).0
run_call (damages pid damage) m = (damage_process pid damage m).0
run_call (moves pid cwd) m = (update_cwd pid cwd m).0
run_call (sets_env pid key value) m = (set_env pid key value m).0
run_call cleans m = cleanup_dead m

unfoldable pub run_calls : List Call → ProcessManager → ProcessManager
run_calls [] m = m
run_calls (c ∷ cs) m = run_calls cs (run_call c m)

pub run_call-IsValid : (c : Call) (m : ProcessManager) → IsValid m → IsValid (run_call c m)
unfolding run_call damage_process update_cwd set_env cleanup_dead
run_call-IsValid (spawns parent uid gid euid egid command args cwd env tags now) m v =
    spawn-IsValid parent uid gid euid egid command args cwd env tags now m v
run_call-IsValid (kills pid signal) m v = kill_process-IsValid pid signal m v
run_call-IsValid (damages pid damage) m v =
    damage_found-IsValid pid damage (lookup pid m.processes) m refl v
run_call-IsValid (moves pid cwd) m v =
    change_found-IsValid pid _ (lookup pid m.processes) m (λ p. (refl, refl, refl)) refl v
run_call-IsValid (sets_env pid key value) m v =
    change_found-IsValid pid _ (lookup pid m.processes) m (λ p. (refl, refl, refl)) refl v
run_call-IsValid cleans m v = reap_all-IsValid _ m (dead_pids-AllAbove m.processes) v

run_calls-IsValid_from :
    (cs : List Call) (m : ProcessManager) → IsValid m → IsValid (run_calls cs m)
unfolding run_calls
run_calls-IsValid_from [] m v = v
run_calls-IsValid_from (c ∷ cs) m v =
    run_calls-IsValid_from cs (run_call c m) (run_call-IsValid c m v)

-- After any calls on a new table every process stands under its own pid, below the next pid to
-- give, init is there and alive, and every dead process has an exit code.
pub run_calls-IsValid : (cs : List Call) (now : ℕ) → IsValid (run_calls cs (initial_manager now))
run_calls-IsValid cs now = run_calls-IsValid_from cs _ (initial_manager-IsValid now)

-- In a valid table: if the parent is not there, `spawn` returns None and changes nothing. If the
-- parent is there, it returns a pid that nothing had, puts a running process with that parent and
-- with the given environment and effective user there, and leaves every other pid alone.
pub spawn_lem :
    (parent uid gid euid egid : ℕ) (command : String) (args : List String) (cwd : ℕ)
    (env : Dict String String) (tags : Option (List String)) (now : ℕ) (m : ProcessManager)
    → IsValid m
    → let r : ProcessManager × Option ℕ =
        spawn parent uid gid euid egid command args cwd env tags now m in
      ((lookup parent m.processes ≡ none) × (r ≡ (m, none)))
      ⊎ ((q : Process) × (lookup parent m.processes ≡ some q)
          × (pid : ℕ) × (r.1 ≡ some pid)
          × (lookup pid m.processes ≡ none)
          × (p : Process) × (lookup pid r.0.processes ≡ some p)
          × (p.ppid ≡ parent)
          × (p.state ≡ running)
          × (p.env ≡ env)
          × (p.euid ≡ euid)
          × ((i : ℕ) → i ≢ pid → lookup i r.0.processes ≡ lookup i m.processes))
unfolding spawn
spawn_lem parent uid gid euid egid command args cwd env tags now m v =
    elim (Option-cases (lookup parent m.processes)) [
      | inl e ↦ inl (e, rw (e, spawn) refl)
      | inr (q, e) ↦ inr (
        q,
        e,
        m.next_pid,
        rw (e, spawn) refl,
        fresh (lookup m.next_pid m.processes) refl,
        new,
        rw (e, spawn) (ground (arith, lookup-insert m.next_pid m.next_pid new m.processes)),
        refl,
        refl,
        refl,
        refl,
        λ i ne. rw (e, spawn) (ground (arith, lookup-insert i m.next_pid new m.processes)),
      )
    ]
  where
    new : Process
    new = new_process m.next_pid parent uid gid euid egid command args cwd env (tags_or tags) now

    fresh :
        (o : Option Process)
        → lookup m.next_pid m.processes ≡ o
        → lookup m.next_pid m.processes ≡ none
    fresh none e = e
    fresh (some p) e = absurd (ground (arith, v.keyed m.next_pid p))
