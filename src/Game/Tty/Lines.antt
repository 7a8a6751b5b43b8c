-- ===== src/Game/Tty/Lines.antt =====
-- Lines typed at a terminal of game/core/tty.py.
use poodillion.Prelude.{
  ℕ, ◌<◌, Bool, true, ◌&&◌, ◌≡◌, ◌≢◌, inl, inr, refl, sym, ap, ◌∙◌, subst, some, [], ◌∷◌, ◌++◌,
  nat_eq, arith, Bool-cases,
}
use poodillion.Game.Tty.{
  TerminalAttributes, Tty, Bytes, newline, carriage_return, write, map_byte, echo_bytes, edit_line,
  take_byte, process_mapped, process_input,
}

-- A byte that the line discipline has no special meaning for.
pub record IsPlain (a : TerminalAttributes) (b : ℕ) : Type 0 where
  pub small : b < 128
  pub no_newline : b ≢ newline
  pub no_return : b ≢ carriage_return
  pub no_erase : b ≢ a.verase
  pub no_kill : b ≢ a.vkill
  pub no_eof : b ≢ a.veof
  pub no_intr : b ≢ a.vintr
  pub no_susp : b ≢ a.vsusp
  pub no_quit : b ≢ a.vquit

abbrev pub AllPlain : TerminalAttributes → Bytes → Type 0
AllPlain a [] = Unit
AllPlain a (b ∷ bs) = IsPlain a b × AllPlain a bs

map_byte_plain : (a : TerminalAttributes) (b : ℕ) → IsPlain a b → map_byte a b ≡ some b
unfolding map_byte
map_byte_plain a b p = ground (arith, p.small, p.no_newline, p.no_return)

-- What a plain byte does in canonical mode.
abbrev typed : ℕ → Tty → Tty
typed b t = echo_bytes true (b ∷ []) (record t { line_buffer = t.line_buffer ++ (b ∷ []) })

-- Echo writes to the output alone.
abbrev pub SameInput : Tty → Tty → Type 0
SameInput t t' =
    (t'.attrs ≡ t.attrs) × (t'.input_buffer ≡ t.input_buffer) × (t'.line_buffer ≡ t.line_buffer)

pub echo_bytes-SameInput : (more : Bool) (bs : Bytes) (t : Tty) → SameInput t (echo_bytes more bs t)
unfolding echo_bytes write
echo_bytes-SameInput more bs t = elim (Bool-cases (t.attrs.echo && more)) [
  | inl e ↦ rw e (refl, refl, refl)
  | inr e ↦ rw e (refl, refl, refl)
]

process_mapped_plain :
    (b : ℕ) (t : Tty)
    → t.attrs.icanon ≡ true
    → IsPlain t.attrs b
    → process_mapped (map_byte t.attrs b) t ≡ (typed b t, [])
unfolding process_mapped edit_line take_byte
process_mapped_plain b t canon p =
    rw (map_byte_plain t.attrs b p) (
      ground
        (arith, p.no_newline, p.no_erase, p.no_kill, p.no_eof, p.no_intr, p.no_susp, p.no_quit))

append_assoc : (xs ys zs : Bytes) → (xs ++ ys) ++ zs ≡ xs ++ (ys ++ zs)
append_assoc [] ys zs = refl
append_assoc (x ∷ xs) ys zs = ap (λ ws. x ∷ ws) (append_assoc xs ys zs)

pub append_nil : (xs : Bytes) → xs ++ [] ≡ xs
append_nil [] = refl
append_nil (x ∷ xs) = ap (λ ws. x ∷ ws) (append_nil xs)

-- Plain bytes go to the end of the line, and nothing else of the input changes.
abbrev pub Typed : Bytes → Tty → Tty → Type 0
Typed s t t' =
    (t'.attrs ≡ t.attrs)
    × (t'.input_buffer ≡ t.input_buffer)
    × (t'.line_buffer ≡ t.line_buffer ++ s)

pub process_input_plain :
    (s rest : Bytes) (t : Tty)
    → t.attrs.icanon ≡ true
    → AllPlain t.attrs s
    → (t' : Tty) × Typed s t t' × (process_input (s ++ rest) t ≡ process_input rest t')
unfolding process_input
process_input_plain [] rest t canon p = (t, (refl, refl, sym (append_nil t.line_buffer)), refl)
process_input_plain (b ∷ s) rest t canon (p, ps) =
    let u : Tty = typed b t in
    let same : SameInput (record t { line_buffer = t.line_buffer ++ (b ∷ []) }) u =
      echo_bytes-SameInput true (b ∷ []) (record t { line_buffer = t.line_buffer ++ (b ∷ []) }) in
    let (t', (x, y, z), w) =
      process_input_plain s rest u (ap (λ (a : TerminalAttributes). a.icanon) same.0 ∙ canon)
        (subst (λ a. AllPlain a s) (sym same.0) ps) in
    (
      t',
      (
        x ∙ same.0,
        y ∙ same.1,
        z ∙ (ap (λ (l : Bytes). l ++ s) same.2 ∙ append_assoc t.line_buffer (b ∷ []) s),
      ),
      rw (process_mapped_plain b t canon p) w,
    )
