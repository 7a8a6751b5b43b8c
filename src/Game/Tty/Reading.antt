-- ===== src/Game/Tty/Reading.antt =====
-- What `read` of game/core/tty.py gives of what was typed.
use poodillion.Prelude.{
  ℕ, zero, suc, true, false, ◌≡◌, ◌≢◌, ◌⊎◌, inl, inr, refl, sym, ap, ◌∙◌, subst, Option, none, some,
  [], ◌∷◌, ◌++◌, ◌==◌, nat_eq, ltb, take, arith, Bool-cases, Option-cases,
}
use poodillion.Game.Tty.{
  TerminalAttributes, Tty, Bytes, newline, find_byte, drop, chop, split_line, read, map_byte,
  echo_bytes, edit_line, process_mapped, process_input,
}
use poodillion.Game.Tty.Lines.{
  AllPlain, SameInput, echo_bytes-SameInput, process_input_plain, append_nil,
}

-- The newline that ends a line of plain bytes is where `read` cuts.
line_found :
    (a : TerminalAttributes) (s : Bytes)
    → AllPlain a s
    → (n : ℕ) × (find_byte newline (s ++ (newline ∷ [])) ≡ some n)
      × (take (suc n) (s ++ (newline ∷ [])) ≡ s ++ (newline ∷ []))
      × (drop (suc n) (s ++ (newline ∷ [])) ≡ [])
unfolding find_byte nat_eq
line_found a [] p = (0, refl, refl, refl)
line_found a (b ∷ s) (p, ps) =
    let (n, x, y, z) = line_found a s ps in
    (suc n, ground (arith, p.no_newline), ap (λ l. b ∷ l) y, z)

no_byte :
    (a : TerminalAttributes) (s : Bytes)
    → a.veof ≡ 4
    → AllPlain a s
    → (find_byte 4 s ≡ none)
      × (find_byte newline s ≡ none)
      × (find_byte 4 (s ++ (newline ∷ [])) ≡ none)
unfolding find_byte nat_eq
no_byte a [] four p = (refl, refl, refl)
no_byte a (b ∷ s) four (p, ps) =
    let (x, y, z) = no_byte a s four ps in
    (ground (arith, p.no_eof), ground (arith, p.no_newline), ground (arith, p.no_eof))

-- A newline that is mapped to no other byte, and that no other key is bound to.
abbrev pub NewlineEnds : TerminalAttributes → Type 0
NewlineEnds a = (a.inlcr ≡ false) × (a.verase ≢ newline) × (a.vkill ≢ newline)

map_byte-newline : (a : TerminalAttributes) → NewlineEnds a → map_byte a newline ≡ some newline
unfolding map_byte
map_byte-newline a (m, e, k) = ground arith

map_byte_eof : (a : TerminalAttributes) → map_byte a 4 ≡ some 4
unfolding map_byte
map_byte_eof a = ground arith

-- What the end of a line does in canonical mode, `line` being what it hands over.
abbrev ended : ℕ → Bytes → Tty → Tty
ended b line t =
    echo_bytes true (b ∷ []) (record t { input_buffer = t.input_buffer ++ line; line_buffer = [] })

process_mapped-newline :
    (t : Tty)
    → t.attrs.icanon ≡ true
    → NewlineEnds t.attrs
    → process_mapped (some newline) t ≡ (ended newline (t.line_buffer ++ (newline ∷ [])) t, [])
unfolding process_mapped edit_line
process_mapped-newline t canon (m, e, k) = ground arith

process_mapped_eof :
    (t : Tty)
    → t.attrs.icanon ≡ true
    → t.attrs.veof ≡ 4
    → t.attrs.verase ≢ 4
    → t.attrs.vkill ≢ 4
    → process_mapped (some 4) t ≡ (ended 4 t.line_buffer t, [])
unfolding process_mapped edit_line
process_mapped_eof t canon four e k = ground arith

process_input-newline :
    (t : Tty)
    → t.attrs.icanon ≡ true
    → NewlineEnds t.attrs
    → process_input (newline ∷ []) t ≡ (ended newline (t.line_buffer ++ (newline ∷ [])) t, [])
unfolding process_input
process_input-newline t canon ends =
    rw (map_byte-newline t.attrs ends, process_mapped-newline t canon ends) refl

process_input_eof :
    (t : Tty)
    → t.attrs.icanon ≡ true
    → t.attrs.veof ≡ 4
    → t.attrs.verase ≢ 4
    → t.attrs.vkill ≢ 4
    → process_input (4 ∷ []) t ≡ (ended 4 t.line_buffer t, [])
unfolding process_input
process_input_eof t canon four e k =
    rw (map_byte_eof t.attrs, process_mapped_eof t canon four e k) refl

-- A terminal in canonical mode with nothing typed yet, and ^D as its end of file.
pub record IsReady (t : Tty) : Type 0 where
  pub canonical : t.attrs.icanon ≡ true
  pub newline_ends : NewlineEnds t.attrs
  pub eof_key : t.attrs.veof ≡ 4
  pub erase_key : t.attrs.verase ≢ 4
  pub kill_key : t.attrs.vkill ≢ 4
  pub no_input : t.input_buffer ≡ []
  pub no_line : t.line_buffer ≡ []

read_line :
    (t : Tty) (s : Bytes)
    → t.attrs.icanon ≡ true
    → (a : TerminalAttributes) → a.veof ≡ 4
    → AllPlain a s
    → t.input_buffer ≡ s ++ (newline ∷ [])
    → (max_bytes : Option ℕ)
    → ((read max_bytes t).1 ≡ s ++ (newline ∷ [])) × ((read max_bytes t).0.input_buffer ≡ [])
unfolding read split_line
read_line t s canon a four p i max_bytes =
    let (n, x, y, z) = line_found a s p in rw (canon, i, x, (no_byte a s four p).2) (y, z)

read_nothing :
    (t : Tty) (s : Bytes)
    → t.attrs.icanon ≡ true
    → (a : TerminalAttributes) → a.veof ≡ 4
    → AllPlain a s
    → t.input_buffer ≡ s
    → (max_bytes : Option ℕ) → ((read max_bytes t).1 ≡ []) × ((read max_bytes t).0.input_buffer ≡ s)
unfolding read split_line
read_nothing t s canon a four p i max_bytes =
    rw (canon, i, (no_byte a s four p).0, (no_byte a s four p).1) (refl, refl)

holds : (i l l' s : Bytes) → i ≡ [] → l ≡ l' ++ s → l' ≡ [] → i ++ l ≡ s
holds i l l' s e f g = rw (e, f, g) refl

-- A line of plain bytes that is typed at a ready terminal comes back from `read` whole, its newline
-- included, and once; the number of bytes that the reader asks for makes no difference.
pub read-process_input :
    (t : Tty) (s : Bytes) (max_bytes : Option ℕ)
    → IsReady t
    → AllPlain t.attrs s
    → let r : Tty × Bytes = process_input (s ++ (newline ∷ [])) t in
      (r.1 ≡ [])
      × ((read max_bytes r.0).1 ≡ s ++ (newline ∷ []))
      × ((read max_bytes r.0).0.input_buffer ≡ [])
read-process_input t s max_bytes h p =
    let (u, (x, y, z), w) = process_input_plain s (newline ∷ []) t h.canonical p in
    let canon : u.attrs.icanon ≡ true = ap (λ (a : TerminalAttributes). a.icanon) x ∙ h.canonical in
    let last : process_input (newline ∷ []) u
        ≡ (ended newline (u.line_buffer ++ (newline ∷ [])) u, []) =
      process_input-newline u canon (subst NewlineEnds (sym x) h.newline_ends) in
    let line : Bytes = u.line_buffer ++ (newline ∷ []) in
    let v : Tty = ended newline line u in
    let same : SameInput (record u { input_buffer = u.input_buffer ++ line; line_buffer = [] }) v =
      echo_bytes-SameInput true (newline ∷ [])
        (record u { input_buffer = u.input_buffer ++ line; line_buffer = [] }) in
    let whole : u.line_buffer ≡ s = holds [] u.line_buffer t.line_buffer s refl z h.no_line in
    let read_back : ((read max_bytes v).1 ≡ s ++ (newline ∷ []))
        × ((read max_bytes v).0.input_buffer ≡ []) =
      read_line v s (ap (λ (a : TerminalAttributes). a.icanon) same.0 ∙ canon) t.attrs h.eof_key p
        (same.1
          ∙ (ap (λ (l : Bytes). l ++ line) (y ∙ h.no_input)
              ∙ ap (λ (l : Bytes). l ++ (newline ∷ [])) whole))
        max_bytes in
    rw (w, last) (refl, read_back.0, read_back.1)

-- After plain bytes and ^D, typed at a ready terminal (in canonical mode with ^D as its end of file,
-- and with nothing typed before), no signal is sent, `read` returns no bytes however many are asked
-- for, and the typed bytes stay in the input buffer.
pub read-process_input_eof :
    (t : Tty) (s : Bytes) (max_bytes : Option ℕ)
    → IsReady t
    → AllPlain t.attrs s
    → let r : Tty × Bytes = process_input (s ++ (4 ∷ [])) t in
      (r.1 ≡ []) × ((read max_bytes r.0).1 ≡ []) × ((read max_bytes r.0).0.input_buffer ≡ s)
read-process_input_eof t s max_bytes h p =
    let (u, (x, y, z), w) = process_input_plain s (4 ∷ []) t h.canonical p in
    let canon : u.attrs.icanon ≡ true = ap (λ (a : TerminalAttributes). a.icanon) x ∙ h.canonical in
    let last : process_input (4 ∷ []) u ≡ (ended 4 u.line_buffer u, []) =
      process_input_eof u canon (ap (λ (a : TerminalAttributes). a.veof) x ∙ h.eof_key)
        (λ q. h.erase_key (sym (ap (λ (a : TerminalAttributes). a.verase) x) ∙ q))
        (λ q. h.kill_key (sym (ap (λ (a : TerminalAttributes). a.vkill) x) ∙ q)) in
    let v : Tty = ended 4 u.line_buffer u in
    let same : SameInput
        (record u { input_buffer = u.input_buffer ++ u.line_buffer; line_buffer = [] }) v =
      echo_bytes-SameInput true (4 ∷ [])
        (record u { input_buffer = u.input_buffer ++ u.line_buffer; line_buffer = [] }) in
    let read_back : ((read max_bytes v).1 ≡ []) × ((read max_bytes v).0.input_buffer ≡ s) =
      read_nothing v s (ap (λ (a : TerminalAttributes). a.icanon) same.0 ∙ canon) t.attrs h.eof_key
        p (same.1 ∙ holds u.input_buffer u.line_buffer t.line_buffer s (y ∙ h.no_input) z h.no_line)
        max_bytes in
    rw (w, last) (refl, read_back.0, read_back.1)

take-drop : (n : ℕ) (bs : Bytes) → bs ≡ take n bs ++ drop n bs
take-drop zero bs = refl
take-drop (suc n) [] = refl
take-drop (suc n) (b ∷ bs) = ap (λ l. b ∷ l) (take-drop n bs)

find_byte_splits :
    (b : ℕ) (bs : Bytes) (n : ℕ) → find_byte b bs ≡ some n → bs ≡ take n bs ++ (b ∷ drop (suc n) bs)
unfolding find_byte
find_byte_splits b [] n h = cc
find_byte_splits b (c ∷ bs) zero h = elim (Bool-cases (c == b)) [
  | inl e ↦ ap (λ x. x ∷ bs) (ground arith)
  | inr e ↦ elim (Option-cases (find_byte b bs)) [
    | inl f ↦ absurd (ground arith)
    | inr (k, f) ↦ absurd (ground arith)
  ]
]
find_byte_splits b (c ∷ bs) (suc n) h = elim (Bool-cases (c == b)) [
  | inl e ↦ absurd (ground arith)
  | inr e ↦ elim (Option-cases (find_byte b bs)) [
    | inl f ↦ absurd (ground arith)
    | inr (k, f) ↦ ap (λ x. c ∷ x) (find_byte_splits b bs n (ground arith))
  ]
]

-- What is read comes off the front of the input: nothing else goes, but one ^D that ends it.
abbrev pub ComesOff : Bytes × Bytes → Bytes → Type 0
ComesOff p bs = (bs ≡ p.0 ++ p.1) ⊎ (bs ≡ p.0 ++ (4 ∷ p.1))

split_line-ComesOff :
    (bs : Bytes) (n e : Option ℕ) → find_byte 4 bs ≡ e → ComesOff (split_line n e bs) bs
unfolding split_line
split_line-ComesOff bs none none h = inl refl
split_line-ComesOff bs (some n) none h = inl (take-drop (suc n) bs)
split_line-ComesOff bs none (some e) h = inr (find_byte_splits 4 bs e h)
split_line-ComesOff bs (some n) (some e) h = elim (Bool-cases (ltb n e)) [
  | inl l ↦ rw l (inl (take-drop (suc n) bs))
  | inr l ↦ rw l (inr (find_byte_splits 4 bs e h))
]

chop-ComesOff : (m : Option ℕ) (bs : Bytes) → ComesOff (chop m bs) bs
chop-ComesOff none bs = inl (sym (append_nil bs))
chop-ComesOff (some n) bs = inl (take-drop n bs)

-- `read` loses no byte and changes no order: the input buffer was what it returned, and then what
-- it left, with at most one ^D between them, in canonical mode and in raw mode.
pub read-ComesOff :
    (max_bytes : Option ℕ) (t : Tty)
    → ComesOff ((read max_bytes t).1, (read max_bytes t).0.input_buffer) t.input_buffer
unfolding read
read-ComesOff max_bytes t = elim (Bool-cases t.attrs.icanon) [
  | inl c ↦ rw c (
      split_line-ComesOff t.input_buffer (find_byte newline t.input_buffer)
        (find_byte 4 t.input_buffer) refl)
  | inr c ↦ rw c (chop-ComesOff max_bytes t.input_buffer)
]
