-- ===== src/Game/Tty.antt =====
-- TerminalAttributes and TTY of game/core/tty.py. The three times of a TTY, which nothing reads, are
-- left out. A byte is a number, and ord of a character its code.
pub mod Lines
pub mod Reading
pub mod Manager
mod Tests
use poodillion.Prelude.{
  ℕ, zero, suc, ◌+◌, ◌%◌, ◌<◌, Text, Bool, true, false, not, ◌&&◌, ◌||◌, Option, none, some, List,
  [], ◌∷◌, ◌++◌, ◌==◌, nat_eq, ltb, contains, take, length, if◌then◌else◌,
}

pub record TerminalAttributes : Type 0 where
  pub icrnl : Bool
  pub igncr : Bool
  pub inlcr : Bool
  pub istrip : Bool
  pub opost : Bool
  pub onlcr : Bool
  pub ocrnl : Bool
  pub csize : ℕ
  pub parenb : Bool
  pub parodd : Bool
  pub echo : Bool
  pub echoe : Bool
  pub echok : Bool
  pub icanon : Bool
  pub isig : Bool
  pub vintr : ℕ
  pub vquit : ℕ
  pub verase : ℕ
  pub vkill : ℕ
  pub veof : ℕ
  pub vsusp : ℕ
  pub rows : ℕ
  pub cols : ℕ

abbrev pub default_attrs : TerminalAttributes
default_attrs = record {
  icrnl = true;
  igncr = false;
  inlcr = false;
  istrip = false;
  opost = true;
  onlcr = true;
  ocrnl = false;
  csize = 8;
  parenb = false;
  parodd = false;
  echo = true;
  echoe = true;
  echok = true;
  icanon = true;
  isig = true;
  vintr = 3;
  vquit = 28;
  verase = 127;
  vkill = 21;
  veof = 4;
  vsusp = 26;
  rows = 24;
  cols = 80;
}

abbrev pub Bytes : Type 0
Bytes = List ℕ

pub record Tty : Type 0 where
  pub name : Text
  pub number : ℕ
  pub attrs : TerminalAttributes
  pub input_buffer : Bytes
  pub output_buffer : Bytes
  pub line_buffer : Bytes
  pub foreground_pgrp : Option ℕ
  pub session_leader : Option ℕ
  pub controlling_process : Option ℕ
  pub is_pty : Bool
  pub master_fd : Option ℕ
  pub slave_fd : Option ℕ

-- TTY(name=name, number=number)
abbrev pub new_tty : Text → ℕ → Tty
new_tty name number = record {
  name = name;
  number = number;
  attrs = default_attrs;
  input_buffer = [];
  output_buffer = [];
  line_buffer = [];
  foreground_pgrp = none;
  session_leader = none;
  controlling_process = none;
  is_pty = false;
  master_fd = none;
  slave_fd = none;
}

abbrev pub newline : ℕ
newline = b'\n'

abbrev pub carriage_return : ℕ
carriage_return = b'\r'

-- The loop of `write` over the bytes.
unfoldable pub post_process : TerminalAttributes → Bytes → Bytes
post_process a [] = []
post_process a (b ∷ bs) =
    let rest = post_process a bs in
    if b == newline && a.onlcr
    then carriage_return ∷ newline ∷ rest
    else if b == carriage_return && a.ocrnl
    then newline ∷ rest
    else b ∷ rest

unfoldable pub write : Bytes → Tty → Tty × ℕ
unfolding post_process
write bs t =
    let bs' = if t.attrs.opost then post_process t.attrs bs else bs in
    (record t { output_buffer = t.output_buffer ++ bs' }, length bs')

-- bytearray.find of one byte.
unfoldable pub find_byte : ℕ → Bytes → Option ℕ
find_byte b [] = none
find_byte b (c ∷ bs) =
    let rest = find_byte b bs in
    if c == b then some 0 else elim rest [ none ↦ none | some k ↦ some (suc k) ]

-- bs[n:]
abbrev pub drop : ℕ → Bytes → Bytes
drop zero bs = bs
drop (suc n) [] = []
drop (suc n) (b ∷ bs) = drop n bs

-- The choice between the two ends that canonical mode has found: what is read, and what is left.
unfoldable pub split_line : Option ℕ → Option ℕ → Bytes → Bytes × Bytes
split_line none none bs = ([], bs)
split_line (some n) none bs = (take (suc n) bs, drop (suc n) bs)
split_line none (some e) bs = (take e bs, drop (suc e) bs)
split_line (some n) (some e) bs =
    if ltb n e then (take (suc n) bs, drop (suc n) bs) else (take e bs, drop (suc e) bs)

-- `max_bytes` is none for -1.
abbrev pub chop : Option ℕ → Bytes → Bytes × Bytes
chop none bs = (bs, [])
chop (some n) bs = (take n bs, drop n bs)

unfoldable pub read : Option ℕ → Tty → Tty × Bytes
unfolding find_byte split_line
read max_bytes t =
    let p =
      if t.attrs.icanon
      then split_line (find_byte newline t.input_buffer) (find_byte 4 t.input_buffer) t.input_buffer
      else chop max_bytes t.input_buffer in
    (record t { input_buffer = p.1 }, p.0)

unfoldable pub read_output : Option ℕ → Tty → Tty × Bytes
read_output max_bytes t =
    let p = chop max_bytes t.output_buffer in (record t { output_buffer = p.1 }, p.0)

-- bytearray.pop
unfoldable pub drop_last : Bytes → Bytes
drop_last [] = []
drop_last (b ∷ []) = []
drop_last (b ∷ c ∷ bs) = b ∷ drop_last (c ∷ bs)

-- A byte after `istrip` and the mappings of CR and NL; none if it is ignored.
unfoldable pub map_byte : TerminalAttributes → ℕ → Option ℕ
map_byte a b =
    let c = if a.istrip then b % 128 else b in
    if c == carriage_return
    then (if a.igncr then none else if a.icrnl then some newline else some c)
    else if c == newline
    then (if a.inlcr then some carriage_return else some c)
    else some c

-- `if self.attrs.echo: self.write(bs)`, with the further flag of its caller.
unfoldable pub echo_bytes : Bool → Bytes → Tty → Tty
unfolding write
echo_bytes more bs t = if t.attrs.echo && more then (write bs t).0 else t

-- Backspace, kill, and the end of a line, in canonical mode; none for any other byte.
unfoldable pub edit_line : ℕ → Tty → Option Tty
unfolding echo_bytes drop_last
edit_line b t =
    if b == t.attrs.verase
    then some (elim t.line_buffer [
      | [] ↦ t
      | c ∷ line ↦
          echo_bytes t.attrs.echoe (8 ∷ 32 ∷ 8 ∷ [])
            (record t { line_buffer = drop_last t.line_buffer })
    ])
    else if b == t.attrs.vkill
    then some (record (echo_bytes t.attrs.echok (newline ∷ []) t) { line_buffer = [] })
    else if b == newline || b == t.attrs.veof
    then some (
        let line = if b == newline then t.line_buffer ++ (b ∷ []) else t.line_buffer in
        echo_bytes true (b ∷ [])
          (record t { input_buffer = t.input_buffer ++ line; line_buffer = [] }))
    else none

-- The signal characters, and the byte that goes to a buffer.
unfoldable pub take_byte : ℕ → Tty → Tty × Bytes
unfolding echo_bytes
take_byte b t =
    if t.attrs.isig && b == t.attrs.vintr
    then (t, b ∷ [])
    else if t.attrs.isig && (b == t.attrs.vsusp || b == t.attrs.vquit)
    then (t, [])
    else if t.attrs.icanon
    then (echo_bytes true (b ∷ []) (record t { line_buffer = t.line_buffer ++ (b ∷ []) }), [])
    else (echo_bytes true (b ∷ []) (record t { input_buffer = t.input_buffer ++ (b ∷ []) }), [])

-- One round of the loop of `process_input`, after the mappings.
unfoldable pub process_mapped : Option ℕ → Tty → Tty × Bytes
unfolding edit_line take_byte
process_mapped none t = (t, [])
process_mapped (some b) t = elim (if t.attrs.icanon then edit_line b t else none) [
  | some t' ↦ (t', [])
  | none ↦ take_byte b t
]

unfoldable pub process_input : Bytes → Tty → Tty × Bytes
unfolding map_byte process_mapped
process_input [] t = (t, [])
process_input (b ∷ bs) t =
    let r = process_mapped (map_byte t.attrs b) t in
    let s = process_input bs r.0 in (s.0, r.1 ++ s.1)

unfoldable pub set_size : ℕ → ℕ → Tty → Tty
set_size rows cols t = record t { attrs = record (t.attrs) { rows = rows; cols = cols } }

unfoldable pub get_size : Tty → ℕ × ℕ
get_size t = (t.attrs.rows, t.attrs.cols)
