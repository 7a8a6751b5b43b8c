-- ===== src/Game/Tty/Manager.antt =====
-- TTYManager of game/core/tty.py. A TTY that is handed out and the one in the table are one object
-- in the program; here the caller has a copy.
use poodillion.Prelude.{
  ℕ, ◌+◌, true, false, ◌≡◌, refl, Option, none, some, List, [], ◌∷◌, ◌++◌, Text, text_of, text_eq,
  nat_eq, ◌==◌, ==_iff, arith, ap, inl, inr, Bool-cases,
}
use poodillion.Prelude.Dict.{Dict, lookup, insert, erase, values, lookup-insert}
use poodillion.Prelude.Decimal.{decimal}
use poodillion.Game.Tty.{Tty, new_tty}

pub record TtyManager : Type 0 where
  pub ttys : Dict Text Tty
  pub tty_counter : ℕ
  pub pts_counter : ℕ

abbrev pub new_manager : TtyManager
new_manager = record { ttys = []; tty_counter = 0; pts_counter = 0 }

unfoldable pub create_tty : Option Text → TtyManager → TtyManager × Tty
create_tty none m =
    let counter = m.tty_counter + 1 in
    let name = text_of "tty" ++ decimal counter in
    let tty = new_tty name counter in
    (record m { ttys = insert name tty m.ttys; tty_counter = counter }, tty)
create_tty (some name) m =
    let tty = new_tty name m.tty_counter in (record m { ttys = insert name tty m.ttys }, tty)

abbrev master_of : ℕ → Tty
master_of n = record (new_tty (text_of "ptm" ++ decimal n) n) { is_pty = true; slave_fd = some n }

abbrev slave_of : ℕ → Tty
slave_of n = record (new_tty (text_of "pts/" ++ decimal n) n) { is_pty = true; master_fd = some n }

unfoldable pub create_pty : TtyManager → TtyManager × Tty × Tty
create_pty m =
    let n = m.pts_counter + 1 in
    let master = master_of n in
    let slave = slave_of n in
    (
      record m {
        ttys = insert slave.name slave (insert master.name master m.ttys);
        pts_counter = n;
      },
      master,
      slave,
    )

unfoldable pub get_tty : Text → TtyManager → Option Tty
get_tty name m = lookup name m.ttys

unfoldable pub list_ttys : TtyManager → List Tty
list_ttys m = values m.ttys

-- Without a TTY of that name, nothing is deleted.
unfoldable pub delete_tty : Text → TtyManager → TtyManager
delete_tty name m = record m { ttys = erase name m.ttys }

third : Text → ℕ
third (a ∷ b ∷ c ∷ s) = c
third s = 0

names_differ : (s t : Text) → ((text_of "ptm" ++ s) == (text_of "pts/" ++ t)) ≡ false
unfolding third
names_differ s t = elim (Bool-cases ((text_of "ptm" ++ s) == (text_of "pts/" ++ t))) [
  | inl e ↦
      let same : ◌≡◌ {A = ℕ} 109 115 =
        ap third ((==_iff (text_of "ptm" ++ s) (text_of "pts/" ++ t)).0 e) in
      absurd (omega (arith, same))
  | inr e ↦ e
]

-- The two sides of a new pair are both found by their names.
pub get_tty-create_pty :
    (m : TtyManager)
    → (get_tty (create_pty m).1.name (create_pty m).0 ≡ some (create_pty m).1)
      × (get_tty (create_pty m).2.name (create_pty m).0 ≡ some (create_pty m).2)
unfolding create_pty get_tty
get_tty-create_pty m =
    let n = m.pts_counter + 1 in
    let ptm = text_of "ptm" ++ decimal n in
    let pts = text_of "pts/" ++ decimal n in
    let with_master = insert ptm (master_of n) m.ttys in
    (
      rw
          (
            lookup-insert ptm pts (slave_of n) with_master,
            names_differ (decimal n) (decimal n),
            lookup-insert ptm ptm (master_of n) m.ttys,
            (==_iff ptm ptm).1 refl,
          )
          refl,
      rw (lookup-insert pts pts (slave_of n) with_master, (==_iff pts pts).1 refl) refl,
    )
