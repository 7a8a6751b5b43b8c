-- ===== src/Game/Process/Reaping.antt =====
-- `cleanup_dead` of game/core/process.py.
use poodillion.Prelude.{
  ℕ, ◌<◌, false, ◌≡◌, refl, ◌≢◌, sym, ◌∙◌, Option, none, some, List, [], ◌∷◌, ◌==◌, nat_eq, leb,
  arith, subst, Bool-cases, Option-cases, inl, inr,
}
use poodillion.Prelude.Int.{ℤ, pos, ◌-ℤ◌, leb_ℤ}
use poodillion.Prelude.Dict.{
  Dict, lookup, insert, map_values, lookup-insert, lookup-map_values, lookup-map_values-some,
}
use poodillion.Game.Process.{
  Process, ProcessManager, zombie, is_dead, is_zombie, deliver, reparent, signal_found,
  kill_process, damage_found, change_found, reap, reap_all, gone,
}
use poodillion.Game.Process.Calls.{AllAbove}

-- A process that is there and has not died.
abbrev pub Live : ℕ → Dict ℕ Process → Type 0
Live i d = (q : Process) × (lookup i d ≡ some q) × (is_dead q.state ≡ false)

-- Init lives, and so does the parent of every other process, dead or alive.
pub record IsRooted (d : Dict ℕ Process) : Type 0 where
  pub init : Live 1 d
  pub parent : (i : ℕ) (p : Process) → lookup i d ≡ some p → i ≢ 1 → Live p.ppid d

-- Writing back a process that has not died, with the same parent.
insert-IsRooted :
    (i : ℕ) (p q : Process) (d : Dict ℕ Process)
    → lookup i d ≡ some p
    → q.ppid ≡ p.ppid
    → (is_dead p.state ≡ false → is_dead q.state ≡ false)
    → IsRooted d
    → IsRooted (insert i q d)
insert-IsRooted i p q d here same keeps r = record {
  init = live 1 r.init;
  parent = λ j s h ne. live s.ppid (elim (Bool-cases (j == i)) [
    | inl e ↦
        subst (λ k. Live k d) (ground (arith, lookup-insert j i q d))
          (r.parent i p here (ground arith))
    | inr n ↦ r.parent j s (ground (arith, lookup-insert j i q d)) ne
  ]);
}
  where
    live : (j : ℕ) → Live j d → Live j (insert i q d)
    live j (s, e, a) = elim (Bool-cases (j == i)) [
      | inl same_id ↦ (q, ground (arith, lookup-insert j i q d), ground arith)
      | inr other ↦ (s, ground (arith, lookup-insert j i q d), a)
    ]

-- The death of a process other than init, with its children handed to init.
module _ (pid : ℕ) (p' : Process) (d : Dict ℕ Process) where
  Live-across : (j : ℕ) → j ≢ pid → Live j d → Live j (map_values (reparent pid) (insert pid p' d))
  unfolding reparent
  Live-across j ne (s, e, a) = (
    reparent pid s,
    ground (arith, lookup-map_values (reparent pid) j (insert pid p' d), lookup-insert j pid p' d),
    ground arith,
  )

  parent_across :
      (q : Process)
      → 1 ≢ pid
      → Live 1 d
      → Live q.ppid d
      → Live (reparent pid q).ppid (map_values (reparent pid) (insert pid p' d))
  unfolding reparent
  parent_across q ne init up = elim (Bool-cases (q.ppid == pid)) [
    | inl child ↦ rw child (Live-across 1 ne init)
    | inr other ↦ rw other (Live-across q.ppid (ground arith) up)
  ]

  death-IsRooted :
      (p : Process)
      → lookup pid d ≡ some p
      → p'.ppid ≡ p.ppid
      → 1 ≢ pid
      → IsRooted d
      → IsRooted (map_values (reparent pid) (insert pid p' d))
  death-IsRooted p here same ne r = record {
    init = Live-across 1 ne r.init;
    parent = λ j s h nej.
        let (q, e, w) = lookup-map_values-some (reparent pid) j s (insert pid p' d) h in
        rw w (
          parent_across q ne r.init (elim (Bool-cases (j == pid)) [
            | inl same_id ↦
                subst (λ k. Live k d) (ground (arith, lookup-insert j pid p' d))
                  (r.parent pid p here (λ x. ne (sym x)))
            | inr other ↦ r.parent j q (ground (arith, lookup-insert j pid p' d)) nej
          ]));
  }

deliver-ppid : (signal : ℕ) (p : Process) → (deliver signal p).ppid ≡ p.ppid
unfolding deliver
deliver-ppid signal p = ground arith

signal_found-IsRooted :
    (pid signal : ℕ) (o : Option Process) (m : ProcessManager)
    → leb pid 1 ≡ false
    → lookup pid m.processes ≡ o
    → IsRooted m.processes
    → IsRooted (signal_found pid signal o m).0.processes
unfolding signal_found
signal_found-IsRooted pid signal none m big e r = r
signal_found-IsRooted pid signal (some p) m big e r = elim (Bool-cases (is_dead p.state)) [
  | inl gone ↦ rw gone r
  | inr live ↦ rw live (elim (Bool-cases (is_dead (deliver signal p).state)) [
    | inl died ↦ rw died (
        death-IsRooted pid (deliver signal p) m.processes p e (deliver-ppid signal p) (ground arith)
          r)
    | inr lives ↦ rw lives (
        insert-IsRooted pid p (deliver signal p) m.processes e (deliver-ppid signal p) (λ _. lives)
          r)
  ])
]

pub kill_process-IsRooted :
    (pid signal : ℕ) (m : ProcessManager)
    → IsRooted m.processes
    → IsRooted (kill_process pid signal m).0.processes
unfolding kill_process
kill_process-IsRooted pid signal m r = elim (Bool-cases (leb pid 1)) [
  | inl small ↦ rw small r
  | inr big ↦ rw big (signal_found-IsRooted pid signal (lookup pid m.processes) m big refl r)
]

pub damage_found-IsRooted :
    (pid : ℕ) (damage : ℤ) (o : Option Process) (m : ProcessManager)
    → lookup pid m.processes ≡ o
    → IsRooted m.processes
    → IsRooted (damage_found pid damage o m).0.processes
unfolding damage_found
damage_found-IsRooted pid damage none m e r = r
damage_found-IsRooted pid damage (some p) m e r = elim (Bool-cases (is_dead p.state)) [
  | inl gone ↦ rw gone r
  | inr live ↦ rw live (
      let kept : (h : ℤ) → IsRooted (insert pid (record p { health = h }) m.processes) =
        λ h. insert-IsRooted pid p (record p { health = h }) m.processes e refl (λ a. a) r in
      elim (Bool-cases (leb_ℤ (p.health -ℤ damage) (pos 0))) [
        | inl out ↦ rw out (kill_process-IsRooted pid 9 _ (kept (pos 0)))
        | inr left ↦ rw left (kept (p.health -ℤ damage))
      ])
]

pub change_found-IsRooted :
    (pid : ℕ) (f : Process → Process) (o : Option Process) (m : ProcessManager)
    → ((p : Process) → ((f p).ppid ≡ p.ppid) × ((f p).state ≡ p.state))
    → lookup pid m.processes ≡ o
    → IsRooted m.processes
    → IsRooted (change_found pid f o m).0.processes
unfolding change_found
change_found-IsRooted pid f none m keeps e r = r
change_found-IsRooted pid f (some p) m keeps e r =
    insert-IsRooted pid p (f p) m.processes e (keeps p).0 (λ a. ground (arith, keeps p)) r

-- In a rooted table the loop of `cleanup_dead` removes nothing: it only turns processes to zombies.
reap-IsRooted :
    (pid : ℕ) (d : Dict ℕ Process)
    → 1 < pid
    → IsRooted d
    → IsRooted (reap pid d)
      × ((i : ℕ) (p : Process)
          → lookup i d ≡ some p
          → (q : Process) × (lookup i (reap pid d) ≡ some q) × (q.pid ≡ p.pid))
unfolding reap
reap-IsRooted pid d big r = elim (Option-cases (lookup pid d)) [
  | inl e ↦ rw (e, reap) (r, λ i p h. (p, h, refl))
  | inr (p, e) ↦
      rw (e, reap)
        (let (q, eq, a) = r.parent pid p e (ground arith) in
          rw (eq, gone)
            (rw a (elim (Bool-cases (is_zombie p.state)) [
              | inl z ↦ rw z (r, λ i p h. (p, h, refl))
              | inr n ↦ rw n (
                insert-IsRooted pid p (record p { state = zombie }) d e refl (λ _. refl) r,
                λ i s h. elim (Bool-cases (i == pid)) [
                  | inl same ↦ (
                    record p { state = zombie },
                    ground (arith, lookup-insert i pid (record p { state = zombie }) d),
                    ground arith,
                  )
                  | inr other ↦
                      (s, ground (arith, lookup-insert i pid (record p { state = zombie }) d), refl)
                ],
              )
            ])))
]

pub reap_all-IsRooted :
    (pids : List ℕ) (d : Dict ℕ Process)
    → AllAbove pids
    → IsRooted d
    → IsRooted (reap_all pids d)
      × ((i : ℕ) (p : Process)
          → lookup i d ≡ some p
          → (q : Process) × (lookup i (reap_all pids d) ≡ some q) × (q.pid ≡ p.pid))
unfolding reap_all
reap_all-IsRooted [] d above r = (r, λ i p h. (p, h, refl))
reap_all-IsRooted (pid ∷ pids) d above r =
    let (r', keeps) = reap-IsRooted pid d above.0 r in
    let (r'', later) = reap_all-IsRooted pids (reap pid d) above.1 r' in
    (
      r'',
      λ i p h. let (q, e, s) = keeps i p h in let (q', e', s') = later i q e in (q', e', s' ∙ s),
    )
