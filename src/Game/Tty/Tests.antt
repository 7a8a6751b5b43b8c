-- ===== src/Game/Tty/Tests.antt =====
-- Typing at a terminal of game/core/tty.py, and its theorems at concrete data.
use poodillion.Prelude.{text_eq, none, ◌≡◌, refl, none, some, [], ◌∷◌, ◌++◌, nat_eq, arith, text_of}
use poodillion.Prelude.{text_of}
use poodillion.Prelude.Decimal.{decimal, digits}
use poodillion.Prelude.Dict.{insert}
use poodillion.Game.Tty.Manager.{new_manager, create_tty}
use poodillion.Game.Tty.{Tty, Bytes, default_attrs, new_tty, newline, read, process_input}
use poodillion.Game.Tty.Lines.{IsPlain, AllPlain}
use poodillion.Game.Tty.Reading.{
  IsReady, ComesOff, read-process_input, read-process_input_eof, read-ComesOff,
}

abbrev console : Tty
console = new_tty (text_of "tty1") 1

console-IsReady : IsReady console
console-IsReady = record {
  canonical = refl;
  newline_ends = (refl, omega arith, omega arith);
  eof_key = refl;
  erase_key = omega arith;
  kill_key = omega arith;
  no_input = refl;
  no_line = refl;
}

abbrev typed : Bytes
typed = text_of "ls"

typed-AllPlain : AllPlain default_attrs typed
typed-AllPlain = (l, (s, tt))
  where
    l : IsPlain default_attrs 108
    l = record {
      small = omega arith;
      no_newline = omega arith;
      no_return = omega arith;
      no_erase = omega arith;
      no_kill = omega arith;
      no_eof = omega arith;
      no_intr = omega arith;
      no_susp = omega arith;
      no_quit = omega arith;
    }

    s : IsPlain default_attrs 115
    s = record {
      small = omega arith;
      no_newline = omega arith;
      no_return = omega arith;
      no_erase = omega arith;
      no_kill = omega arith;
      no_eof = omega arith;
      no_intr = omega arith;
      no_susp = omega arith;
      no_quit = omega arith;
    }

read-process_input_example :
    let r : Tty × Bytes = process_input (typed ++ (newline ∷ [])) console in
    (r.1 ≡ [])
    × ((read (some 1) r.0).1 ≡ typed ++ (newline ∷ []))
    × ((read (some 1) r.0).0.input_buffer ≡ [])
read-process_input_example =
    read-process_input console typed (some 1) console-IsReady typed-AllPlain

read-process_input_eof_example :
    let r : Tty × Bytes = process_input (typed ++ (4 ∷ [])) console in
    (r.1 ≡ []) × ((read none r.0).1 ≡ []) × ((read none r.0).0.input_buffer ≡ typed)
read-process_input_eof_example =
    read-process_input_eof console typed none console-IsReady typed-AllPlain

read-ComesOff_example :
    ComesOff ((read none console).1, (read none console).0.input_buffer) console.input_buffer
read-ComesOff_example = read-ComesOff none console

-- The erase key takes the last letter back, and CR ends the line.
erased :
    (process_input (text_of "lx" ++ (127 ∷ 115 ∷ 13 ∷ [])) console).0.input_buffer
    ≡ typed ++ (newline ∷ [])
unfolding process_input nat_eq
erased = refl

-- Terminals are numbered one after the other.
second-name : (create_tty none (create_tty none new_manager).0).1.name ≡ text_of "tty2"
unfolding create_tty decimal digits insert text_eq
second-name = refl
