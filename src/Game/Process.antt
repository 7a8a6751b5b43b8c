-- ===== src/Game/Process.antt =====
-- game/core/process.py: the process table. The proofs are in the children.
mod Table
mod Calls
mod Signals
mod Reaping
mod Orphans
mod Tests
use poodillion.Prelude.{
  ℕ, ◌+◌, String, Bool, true, false, not, ◌&&◌, Option, none, some, List, [], ◌∷◌, ◌++◌, ◌==◌,
  contains, nat_eq, string_eq, leb, keep, if◌then◌else◌,
}
use poodillion.Prelude.Int.{ℤ, pos, ◌-ℤ◌, leb_ℤ}
use poodillion.Prelude.Dict.{Dict, lookup, insert, erase, values, map_values}

pub data ProcessState : Type 0 where
  running sleeping stopped zombie dead : ProcessState

abbrev pub is_dead : ProcessState → Bool
is_dead dead = true
is_dead _ = false

abbrev pub is_stopped : ProcessState → Bool
is_stopped stopped = true
is_stopped _ = false

-- Ids are numbers; `start_time` is a reading of the clock; `tty` stands for an object of tty.py.
pub record Process : Type 0 where
  pub pid : ℕ
  pub ppid : ℕ
  pub uid : ℕ
  pub gid : ℕ
  pub euid : ℕ
  pub egid : ℕ
  pub command : String
  pub args : List String
  pub state : ProcessState
  pub cwd : ℕ
  pub start_time : ℕ
  pub stdin : ℕ
  pub stdout : ℕ
  pub stderr : ℕ
  pub env : Dict String String
  pub tty : Option ℕ
  pub exit_code : Option ℕ
  pub health : ℤ
  pub tags : List String

pub record ProcessManager : Type 0 where
  pub processes : Dict ℕ Process
  pub next_pid : ℕ

-- The constructor call `Process(...)` with the dataclass's defaults.
pub new_process :
    ℕ
    → ℕ
    → ℕ
    → ℕ
    → ℕ
    → ℕ
    → String
    → List String
    → ℕ
    → Dict String String
    → List String
    → ℕ
    → Process
new_process pid ppid uid gid euid egid command args cwd env tags now = record {
  pid = pid;
  ppid = ppid;
  uid = uid;
  gid = gid;
  euid = euid;
  egid = egid;
  command = command;
  args = args;
  state = running;
  cwd = cwd;
  start_time = now;
  stdin = 0;
  stdout = 1;
  stderr = 2;
  env = env;
  tty = none;
  exit_code = none;
  health = pos 100;
  tags = tags;
}

-- `ProcessManager()` at the time `now`.
pub initial_manager : ℕ → ProcessManager
unfolding new_process
initial_manager now = record {
  processes =
      insert 1
        (new_process 1 0 0 0 0 0 "init" ("init" ∷ []) 1
          (("PATH", "/bin:/usr/bin:/sbin:/usr/sbin") ∷ ("HOME", "/root") ∷ ("USER", "root") ∷ []) []
          now)
        [];
  next_pid = 2;
}

pub get_process : ProcessManager → ℕ → Option Process
get_process m pid = lookup pid m.processes

-- `tags or []`: the caller's list, if it gives one.
abbrev pub tags_or : Option (List String) → List String
tags_or none = []
tags_or (some tags) = tags

pub spawn :
    ℕ
    → ℕ
    → ℕ
    → ℕ
    → ℕ
    → String
    → List String
    → ℕ
    → Dict String String
    → Option (List String)
    → ℕ
    → ProcessManager
    → ProcessManager × Option ℕ
unfolding new_process
spawn parent_pid uid gid euid egid command args cwd env tags now m =
    elim (lookup parent_pid m.processes) [
      | none ↦ (m, none)
      | some parent ↦
          let pid = m.next_pid in
          (
            record {
              processes =
                  insert pid
                    (new_process pid parent_pid uid gid euid egid command args cwd env
                      (tags_or tags) now)
                    m.processes;
              next_pid = m.next_pid + 1;
            },
            some pid,
          )
    ]

-- The branch of a signal on the process itself.
pub deliver : ℕ → Process → Process
deliver signal p =
    if signal == 9
    then record p { state = dead; exit_code = some (128 + 9) }
    else if signal == 15
    then record p { state = dead; exit_code = some 0 }
    else if signal == 19
    then record p { state = stopped }
    else if signal == 18
    then (if is_stopped p.state then record p { state = running } else p)
    else p

-- `if child.ppid == pid: child.ppid = 1`
pub reparent : ℕ → Process → Process
reparent pid child = if child.ppid == pid then record child { ppid = 1 } else child

-- What a signal does once its process is found: the process is written back, and the children of
-- a dead one go to init.
pub signal_found : ℕ → ℕ → Option Process → ProcessManager → ProcessManager × Bool
unfolding deliver reparent
signal_found pid signal none m = (m, false)
signal_found pid signal (some process) m =
    if is_dead process.state
    then (m, false)
    else let process' = deliver signal process in
      let table = insert pid process' m.processes in
      (
        record m {
          processes = if is_dead process'.state then map_values (reparent pid) table else table;
        },
        true,
      )

pub kill_process : ℕ → ℕ → ProcessManager → ProcessManager × Bool
unfolding signal_found
kill_process pid signal m =
    if leb pid 1 then (m, false) else signal_found pid signal (lookup pid m.processes) m

pub damage_found : ℕ → ℤ → Option Process → ProcessManager → ProcessManager × Bool
unfolding kill_process
damage_found pid damage none m = (m, false)
damage_found pid damage (some process) m =
    let left = process.health -ℤ damage in
    if is_dead process.state
    then (m, false)
    else if leb_ℤ left (pos 0)
    then kill_process pid 9
        (record m { processes = insert pid (record process { health = pos 0 }) m.processes })
    else (record m { processes = insert pid (record process { health = left }) m.processes }, true)

pub damage_process : ℕ → ℤ → ProcessManager → ProcessManager × Bool
unfolding damage_found
damage_process pid damage m = damage_found pid damage (lookup pid m.processes) m

abbrev pub alive : Process → Bool
alive p = not (is_dead p.state)

pub list_processes : ProcessManager → List Process
list_processes m = keep alive (values m.processes)

pub get_children : ℕ → ProcessManager → List Process
get_children pid m = keep (λ p. p.ppid == pid && alive p) (values m.processes)

pub find_by_name : String → ProcessManager → List Process
find_by_name name m = keep (λ p. p.command == name && alive p) (values m.processes)

pub find_by_tag : String → ProcessManager → List Process
find_by_tag tag m = keep (λ p. contains p.tags tag && alive p) (values m.processes)

-- The pids that `cleanup_dead` collects before its loop.
pub dead_pids : Dict ℕ Process → List ℕ
dead_pids [] = []
dead_pids ((pid, p) ∷ d) =
    let rest = dead_pids d in if is_dead p.state && not (leb pid 1) then pid ∷ rest else rest

-- `not parent or parent.state == ProcessState.DEAD`
pub gone : Option Process → Bool
gone none = true
gone (some parent) = is_dead parent.state

abbrev pub is_zombie : ProcessState → Bool
is_zombie zombie = true
is_zombie _ = false

-- One round of the loop; a pid that is not in the table would be a KeyError, and never is.
pub reap : ℕ → Dict ℕ Process → Dict ℕ Process
unfolding gone
reap pid d = elim (lookup pid d) [
  | none ↦ d
  | some p ↦
      if gone (lookup p.ppid d)
      then erase pid d
      else if is_zombie p.state
      then d
      else insert pid (record p { state = zombie }) d
]

pub reap_all : List ℕ → Dict ℕ Process → Dict ℕ Process
unfolding reap
reap_all [] d = d
reap_all (pid ∷ pids) d = reap_all pids (reap pid d)

pub cleanup_dead : ProcessManager → ProcessManager
unfolding dead_pids reap_all
cleanup_dead m = record m { processes = reap_all (dead_pids m.processes) m.processes }

-- `tree[ppid].append(pid)`, with the list made on the first use.
add_child : ℕ → ℕ → Dict ℕ (List ℕ) → Dict ℕ (List ℕ)
add_child ppid pid tree =
    insert ppid (elim (lookup ppid tree) [ none ↦ pid ∷ [] | some pids ↦ pids ++ (pid ∷ []) ]) tree

grow_tree : Dict ℕ Process → Dict ℕ (List ℕ) → Dict ℕ (List ℕ)
unfolding add_child
grow_tree [] tree = tree
grow_tree ((pid, p) ∷ d) tree =
    grow_tree d (if is_dead p.state then tree else add_child p.ppid pid tree)

pub get_process_tree : ProcessManager → Dict ℕ (List ℕ)
unfolding grow_tree
get_process_tree m = grow_tree m.processes []

-- A field of one process is set in place.
pub change_found : ℕ → (Process → Process) → Option Process → ProcessManager → ProcessManager × Bool
change_found pid f none m = (m, false)
change_found pid f (some p) m = (record m { processes = insert pid (f p) m.processes }, true)

pub update_cwd : ℕ → ℕ → ProcessManager → ProcessManager × Bool
unfolding change_found
update_cwd pid new_cwd m =
    change_found pid (λ p. record p { cwd = new_cwd }) (lookup pid m.processes) m

pub set_env : ℕ → String → String → ProcessManager → ProcessManager × Bool
unfolding change_found
set_env pid key value m =
    change_found pid (λ p. record p { env = insert key value p.env }) (lookup pid m.processes) m

pub get_env : ℕ → String → ProcessManager → Option String
get_env pid key m = elim (lookup pid m.processes) [ none ↦ none | some p ↦ lookup key p.env ]
