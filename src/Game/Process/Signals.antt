-- ===== src/Game/Process/Signals.antt =====
-- `kill_process` and `damage_process` of game/core/process.py.
use poodillion.Prelude.{
  ℕ, ◌<◌, Bool, true, false, ◌≡◌, not, refl, ◌≢◌, ◌⊎◌, Option, none, some, [], ◌∷◌, ◌==◌, nat_eq,
  leb, if◌then◌else◌, arith, Bool-cases, Option-cases, inl, inr, keep, ◌&&◌,
}
use poodillion.Prelude.Int.{ℤ, pos, ◌-ℤ◌, leb_ℤ}
use poodillion.Prelude.Dict.{
  Dict, lookup, insert, values, map_values, lookup-insert, lookup-map_values,
}
use poodillion.Game.Process.{
  Process, ProcessManager, dead, stopped, running, zombie, is_dead, deliver, reparent, signal_found,
  kill_process, damage_process, damage_found, get_children, alive,
}

-- Whether a pid names a process that a signal can reach.
abbrev pub accepts_signal : ℕ → ProcessManager → Bool
accepts_signal pid m = elim (lookup pid m.processes) [
  | none ↦ false
  | some p ↦ not (leb pid 1) && not (is_dead p.state)
]

-- A signal is refused exactly for init (and pid 0), an unknown pid and a dead process, and then
-- nothing has changed.
pub kill_process-accepts_signal :
    (pid signal : ℕ) (m : ProcessManager)
    → ((kill_process pid signal m).1 ≡ accepts_signal pid m)
      × (accepts_signal pid m ≡ false → (kill_process pid signal m).0 ≡ m)
unfolding kill_process
kill_process-accepts_signal pid signal m = elim (Bool-cases (leb pid 1)) [
  | inl small ↦ rw small (ground arith, λ _. refl)
  | inr big ↦ rw big (found pid signal (lookup pid m.processes) m big refl)
]
  where
    found :
        (pid signal : ℕ) (o : Option Process) (m : ProcessManager)
        → leb pid 1 ≡ false
        → lookup pid m.processes ≡ o
        → ((signal_found pid signal o m).1 ≡ accepts_signal pid m)
          × (accepts_signal pid m ≡ false → (signal_found pid signal o m).0 ≡ m)
    found pid signal none m big e = (ground arith, λ _. refl)
    found pid signal (some p) m big e = elim (Bool-cases (is_dead p.state)) [
      | inl gone ↦ rw gone (ground arith, λ _. refl)
      | inr live ↦ rw live (ground arith, λ no_signal. absurd (ground arith))
    ]

kill_process-reparent :
    (pid : ℕ) (m : ProcessManager) (p : Process) (i : ℕ)
    → 1 < pid
    → lookup pid m.processes ≡ some p
    → is_dead p.state ≡ false
    → lookup i (kill_process pid 9 m).0.processes ≡ (
        if i == pid
        then some (reparent pid (record p { state = dead; exit_code = some 137 }))
        else elim (lookup i m.processes) [ none ↦ none | some q ↦ some (reparent pid q) ])
unfolding kill_process
kill_process-reparent pid m p i big here live = ground (
  arith,
  lookup-map_values (reparent pid) i
      (insert pid (record p { state = dead; exit_code = some 137 }) m.processes),
  lookup-insert i pid (record p { state = dead; exit_code = some 137 }) m.processes,
)

-- `reparent` changes one field.
reparent_lem :
    (pid : ℕ) (q : Process)
    → reparent pid q ≡ record q { ppid = if q.ppid == pid then 1 else q.ppid }
unfolding reparent
reparent_lem pid q = elim (Bool-cases (q.ppid == pid)) [ inl e ↦ rw e refl | inr e ↦ rw e refl ]

-- After SIGKILL or SIGTERM to a process above 1 that is not dead, that process is dead, with status
-- 137 or 0. The parent of every process that had the signalled one as parent is 1, init. Nothing
-- else about any process has changed, none is gone and none is new.
pub kill_process-lookup :
    (pid signal : ℕ) (m : ProcessManager) (p : Process) (i : ℕ)
    → 1 < pid
    → lookup pid m.processes ≡ some p
    → is_dead p.state ≡ false
    → (signal ≡ 9) ⊎ (signal ≡ 15)
    → lookup i (kill_process pid signal m).0.processes ≡ (
        if i == pid
        then some (record p {
          state = dead;
          exit_code = some (if signal == 9 then 137 else 0);
          ppid = if p.ppid == pid then 1 else p.ppid;
        })
        else elim (lookup i m.processes) [
          | none ↦ none
          | some q ↦ some (record q { ppid = if q.ppid == pid then 1 else q.ppid })
        ])
unfolding kill_process
kill_process-lookup pid signal m p i big here live fatal = elim (Bool-cases (i == pid)) [
  | inl same ↦ ground (
    arith,
    lookup-map_values (reparent pid) i (insert pid (deliver signal p) m.processes),
    lookup-insert i pid (deliver signal p) m.processes,
    reparent_lem pid (deliver signal p),
  )
  | inr other ↦ elim (Option-cases (lookup i m.processes)) [
    | inl none_there ↦ ground (
      arith,
      lookup-map_values (reparent pid) i (insert pid (deliver signal p) m.processes),
      lookup-insert i pid (deliver signal p) m.processes,
    )
    | inr (q, there) ↦ ground (
      arith,
      lookup-map_values (reparent pid) i (insert pid (deliver signal p) m.processes),
      lookup-insert i pid (deliver signal p) m.processes,
      reparent_lem pid q,
    )
  ]
]

keep_children-nil :
    (pid : ℕ) (d : Dict ℕ Process)
    → pid ≢ 1
    → keep (λ q. q.ppid == pid && alive q) (values (map_values (reparent pid) d)) ≡ []
unfolding values map_values reparent
keep_children-nil pid [] ne = refl
keep_children-nil pid ((k, q) ∷ d) ne = ground (arith, keep_children-nil pid d ne)

-- A process that SIGKILL or SIGTERM has reached has no children left.
pub get_children-kill_process :
    (pid signal : ℕ) (m : ProcessManager)
    → accepts_signal pid m ≡ true
    → (signal ≡ 9) ⊎ (signal ≡ 15)
    → get_children pid (kill_process pid signal m).0 ≡ []
unfolding kill_process get_children
get_children-kill_process pid signal m reach fatal = elim (Option-cases (lookup pid m.processes)) [
  | inl e ↦ absurd (ground arith)
  | inr (p, e) ↦
      rw (e, kill_process)
        (ground (arith, keep_children-nil pid (insert pid (deliver signal p) m.processes)))
]

-- Damage to a process above 1 that is not dead leaves it dead, with status 137 and no health, if it
-- uses up the health (and with init as parent, if it was its own); else the process keeps the rest
-- of its health, and nothing else about it changes.
pub damage_process-lookup :
    (pid : ℕ) (damage : ℤ) (m : ProcessManager) (p : Process)
    → 1 < pid
    → lookup pid m.processes ≡ some p
    → is_dead p.state ≡ false
    → lookup pid (damage_process pid damage m).0.processes ≡ (
        if leb_ℤ (p.health -ℤ damage) (pos 0)
        then some (reparent pid (record p { state = dead; exit_code = some 137; health = pos 0 }))
        else some (record p { health = p.health -ℤ damage }))
unfolding damage_process
damage_process-lookup pid damage m p big here live =
    rw (here, damage_found)
      (rw live (elim (Bool-cases (leb_ℤ (p.health -ℤ damage) (pos 0))) [
        | inl out ↦ rw out (
            ground (
              arith,
              kill_process-reparent pid
                  (record m { processes = insert pid (record p { health = pos 0 }) m.processes })
                  (record p { health = pos 0 }) pid big
                  (ground (arith, lookup-insert pid pid (record p { health = pos 0 }) m.processes))
                  live,
            ))
        | inr left ↦ rw left (
            ground
              (arith, lookup-insert pid pid (record p { health = p.health -ℤ damage }) m.processes))
      ]))

kill_process-stop :
    (pid : ℕ) (m : ProcessManager) (p : Process)
    → 1 < pid
    → lookup pid m.processes ≡ some p
    → is_dead p.state ≡ false
    → lookup pid (kill_process pid 19 m).0.processes ≡ some (record p { state = stopped })
unfolding kill_process
kill_process-stop pid m p big here live =
    ground (arith, lookup-insert pid pid (record p { state = stopped }) m.processes)

kill_process-continue :
    (pid : ℕ) (m : ProcessManager) (p : Process)
    → 1 < pid
    → lookup pid m.processes ≡ some p
    → p.state ≡ stopped
    → lookup pid (kill_process pid 18 m).0.processes ≡ some (record p { state = running })
unfolding kill_process
kill_process-continue pid m p big here paused =
    ground (arith, lookup-insert pid pid (record p { state = running }) m.processes)

-- A zombie above pid 1 that is sent SIGSTOP and then SIGCONT is running again, and nothing else
-- about it has changed: its exit code is still set.
pub kill_process-zombie :
    (pid : ℕ) (m : ProcessManager) (p : Process)
    → 1 < pid
    → lookup pid m.processes ≡ some p
    → p.state ≡ zombie
    → lookup pid (kill_process pid 18 (kill_process pid 19 m).0).0.processes
      ≡ some (record p { state = running })
kill_process-zombie pid m p big here undead =
    kill_process-continue pid (kill_process pid 19 m).0 (record p { state = stopped }) big
      (kill_process-stop pid m p big here (ground arith)) refl
