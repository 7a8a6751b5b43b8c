-- ===== src/Game/Process/Table.antt =====
-- The process table of game/core/process.py stays well formed under every operation.
use poodillion.Prelude.{
  ℕ, ◌<◌, String, true, false, ◌≡◌, refl, ◌≢◌, Option, none, some, List, [], ◌∷◌, ◌==◌, nat_eq,
  string_eq, leb, arith, Bool-cases, Option-cases, inl, inr,
}
use poodillion.Prelude.Int.{ℤ, pos, ◌-ℤ◌, leb_ℤ}
use poodillion.Prelude.Dict.{
  Dict, lookup, insert, map_values, lookup-insert, lookup-map_values, lookup-map_values-some,
}
use poodillion.Game.Process.{
  Process, ProcessManager, is_dead, new_process, initial_manager, spawn, deliver, reparent,
  signal_found, kill_process, damage_found, change_found, tags_or, gone,
}

-- Every process stands under its own pid, below the next one to give; init is there and has not
-- died; a dead process has an exit code.
pub record IsValid (m : ProcessManager) : Type 0 where
  pub keyed : (i : ℕ) (p : Process) → lookup i m.processes ≡ some p → (p.pid ≡ i) × (i < m.next_pid)
  pub init_alive : (p : Process) × (lookup 1 m.processes ≡ some p) × (is_dead p.state ≡ false)
  pub exited :
      (i : ℕ) (p : Process)
      → lookup i m.processes ≡ some p
      → is_dead p.state ≡ true
      → p.exit_code ≢ none

pub initial_manager-IsValid : (now : ℕ) → IsValid (initial_manager now)
unfolding initial_manager lookup insert nat_eq
initial_manager-IsValid now = record {
  keyed = λ i p h. ground arith;
  init_alive = (
    new_process 1 0 0 0 0 0 "init" ("init" ∷ []) 1
        (("PATH", "/bin:/usr/bin:/sbin:/usr/sbin") ∷ ("HOME", "/root") ∷ ("USER", "root") ∷ []) []
        now,
    refl,
    refl,
  );
  exited = λ i p h d. ground arith;
}

-- Writing one process back keeps the table valid.
pub insert-IsValid :
    (m : ProcessManager) (i : ℕ) (p q : Process)
    → IsValid m
    → lookup i m.processes ≡ some p
    → q.pid ≡ p.pid
    → (i ≡ 1 → is_dead q.state ≡ false)
    → (is_dead q.state ≡ true → q.exit_code ≢ none)
    → IsValid (record m { processes = insert i q m.processes })
insert-IsValid m i p q v here same stays coded = record {
  keyed = λ j r h. ground (arith, lookup-insert j i q m.processes, v.keyed j r, v.keyed i p);
  init_alive = elim (Bool-cases (1 == i)) [
    | inl e ↦ (q, ground (arith, lookup-insert 1 i q m.processes), ground arith)
    | inr n ↦ (v.init_alive.0, ground (arith, lookup-insert 1 i q m.processes), v.init_alive.2)
  ];
  exited = λ j r h d. ground (arith, lookup-insert j i q m.processes, v.exited j r);
}

-- Sending a process's children elsewhere does too.
reparent-IsValid :
    (pid : ℕ) (m : ProcessManager)
    → IsValid m
    → IsValid (record m { processes = map_values (reparent pid) m.processes })
unfolding reparent
reparent-IsValid pid m v = record {
  keyed = λ i p h.
      let (q, e, w) = lookup-map_values-some (reparent pid) i p m.processes h in
      ground (arith, v.keyed i q);
  init_alive = (
    reparent pid v.init_alive.0,
    ground (arith, lookup-map_values (reparent pid) 1 m.processes, v.init_alive.1),
    ground (arith, v.init_alive.2),
  );
  exited = λ i p h d.
      let (q, e, w) = lookup-map_values-some (reparent pid) i p m.processes h in
      ground (arith, v.exited i q);
}

pub spawn-IsValid :
    (parent uid gid euid egid : ℕ) (command : String) (args : List String) (cwd : ℕ)
    (env : Dict String String) (tags : Option (List String)) (now : ℕ) (m : ProcessManager)
    → IsValid m
    → IsValid (spawn parent uid gid euid egid command args cwd env tags now m).0
unfolding spawn
spawn-IsValid parent uid gid euid egid command args cwd env tags now m v =
    elim (Option-cases (lookup parent m.processes)) [
      | inl e ↦ rw (e, spawn) v
      | inr (q, e) ↦
          rw (e, spawn)
            (record {
              keyed =
                  λ i p h. ground (arith, lookup-insert i m.next_pid new m.processes, v.keyed i p);
              init_alive = (
                v.init_alive.0,
                ground
                    (arith, lookup-insert 1 m.next_pid new m.processes, v.keyed 1 v.init_alive.0),
                v.init_alive.2,
              );
              exited = λ i p h d.
                  ground (arith, lookup-insert i m.next_pid new m.processes, v.exited i p);
            })
    ]
  where
    new : Process
    new = new_process m.next_pid parent uid gid euid egid command args cwd env (tags_or tags) now

deliver_facts :
    (signal : ℕ) (p : Process)
    → ((deliver signal p).pid ≡ p.pid)
      × ((deliver signal p).ppid ≡ p.ppid)
      × (is_dead p.state ≡ false
          → is_dead (deliver signal p).state ≡ true
          → (deliver signal p).exit_code ≢ none)
unfolding deliver
deliver_facts signal p = ground arith

deliver_init : (signal : ℕ) (p : Process) (i : ℕ) → leb i 1 ≡ false → i ≢ 1
deliver_init signal p i h = ground arith

signal_found-IsValid :
    (pid signal : ℕ) (o : Option Process) (m : ProcessManager)
    → leb pid 1 ≡ false
    → lookup pid m.processes ≡ o
    → IsValid m
    → IsValid (signal_found pid signal o m).0
unfolding signal_found
signal_found-IsValid pid signal none m big e v = v
signal_found-IsValid pid signal (some p) m big e v = elim (Bool-cases (is_dead p.state)) [
  | inl gone ↦ rw gone v
  | inr live ↦ rw live (
      let facts : ((deliver signal p).pid ≡ p.pid)
          × ((deliver signal p).ppid ≡ p.ppid)
          × (is_dead p.state ≡ false
              → is_dead (deliver signal p).state ≡ true
              → (deliver signal p).exit_code ≢ none) =
        deliver_facts signal p in
      let written : IsValid (record m { processes = insert pid (deliver signal p) m.processes }) =
        insert-IsValid m pid p (deliver signal p) v e facts.0 (λ one. absurd (ground arith))
          (facts.2 live) in
      elim (Bool-cases (is_dead (deliver signal p).state)) [
        | inl died ↦ rw died (reparent-IsValid pid _ written)
        | inr lives ↦ rw lives written
      ])
]

pub kill_process-IsValid :
    (pid signal : ℕ) (m : ProcessManager) → IsValid m → IsValid (kill_process pid signal m).0
unfolding kill_process
kill_process-IsValid pid signal m v = elim (Bool-cases (leb pid 1)) [
  | inl small ↦ rw small v
  | inr big ↦ rw big (signal_found-IsValid pid signal (lookup pid m.processes) m big refl v)
]

pub damage_found-IsValid :
    (pid : ℕ) (damage : ℤ) (o : Option Process) (m : ProcessManager)
    → lookup pid m.processes ≡ o
    → IsValid m
    → IsValid (damage_found pid damage o m).0
unfolding damage_found
damage_found-IsValid pid damage none m e v = v
damage_found-IsValid pid damage (some p) m e v = elim (Bool-cases (is_dead p.state)) [
  | inl gone ↦ rw gone v
  | inr live ↦ rw live (
      let kept : (h : ℤ)
          → IsValid (record m { processes = insert pid (record p { health = h }) m.processes }) =
        λ h.
          insert-IsValid m pid p (record p { health = h }) v e refl (λ one. live)
            (λ d. ground arith) in
      elim (Bool-cases (leb_ℤ (p.health -ℤ damage) (pos 0))) [
        | inl out ↦ rw out (kill_process-IsValid pid 9 _ (kept (pos 0)))
        | inr left ↦ rw left (kept (p.health -ℤ damage))
      ])
]

pub change_found-IsValid :
    (pid : ℕ) (f : Process → Process) (o : Option Process) (m : ProcessManager)
    → ((p : Process)
        → ((f p).pid ≡ p.pid) × ((f p).state ≡ p.state) × ((f p).exit_code ≡ p.exit_code))
    → lookup pid m.processes ≡ o
    → IsValid m
    → IsValid (change_found pid f o m).0
unfolding change_found
change_found-IsValid pid f none m keeps e v = v
change_found-IsValid pid f (some p) m keeps e v =
    insert-IsValid m pid p (f p) v e (keeps p).0
      (λ one. ground (arith, keeps p, v.init_alive.1, v.init_alive.2))
      (λ d. ground (arith, keeps p, v.exited pid p e))
