-- ===== src/Game/Vfs/ModeString.antt =====
-- `permission_string` of game/core/vfs.py shows the permission bits, and no less.
use poodillion.Prelude.{
  ℕ, ◌+◌, ◌*◌, ◌/◌, ◌%◌, ◌^◌, Bool, true, false, ◌≡◌, ◌<◌, Option, some, none, [], ◌∷◌, ◌==◌,
  nat_eq, if◌then◌else◌, arith, Bool-cases, inl, inr, ap, refl, ◌||◌,
}
use poodillion.Game.Vfs.Inode.{Text, Inode, permission_string, bit_set}

-- Reading `ls`: the value of the three characters of a class, its special bit worth 8.
abbrev pub letter : Bool → ℕ → ℕ
letter b n = if b then n else 0

abbrev pub read_triple : ℕ → ℕ → ℕ → ℕ → ℕ → ℕ
read_triple on off r w x =
    letter (r == b'r') 4
    + letter (w == b'w') 2
    + letter (x == b'x' || x == on) 1
    + letter (x == on || x == off) 8

-- The mode that nine characters show.
unfoldable pub read_permissions : Text → Option ℕ
read_permissions (a ∷ b ∷ c ∷ d ∷ e ∷ f ∷ g ∷ h ∷ i ∷ []) =
    let u = read_triple b's' b'S' a b c in
    let p = read_triple b's' b'S' d e f in
    let o = read_triple b't' b'T' g h i in
    some (u % 8 * 64 + p % 8 * 8 + o % 8 + u / 8 * 2048 + p / 8 * 1024 + o / 8 * 512)
read_permissions _ = none

-- The three characters of a class give its tests back.
read_bits-suid :
    (r w x s : Bool)
    → read_triple b's' b'S'
        (if r then b'r' else b'-')
        (if w then b'w' else b'-')
        (if s then (if x then b's' else b'S') else (if x then b'x' else b'-'))
      ≡ letter r 4 + letter w 2 + letter x 1 + letter s 8
unfolding nat_eq
read_bits-suid true true true true = refl
read_bits-suid true true true false = refl
read_bits-suid true true false true = refl
read_bits-suid true true false false = refl
read_bits-suid true false true true = refl
read_bits-suid true false true false = refl
read_bits-suid true false false true = refl
read_bits-suid true false false false = refl
read_bits-suid false true true true = refl
read_bits-suid false true true false = refl
read_bits-suid false true false true = refl
read_bits-suid false true false false = refl
read_bits-suid false false true true = refl
read_bits-suid false false true false = refl
read_bits-suid false false false true = refl
read_bits-suid false false false false = refl

read_bits-sticky :
    (r w x s : Bool)
    → read_triple b't' b'T'
        (if r then b'r' else b'-')
        (if w then b'w' else b'-')
        (if s then (if x then b't' else b'T') else (if x then b'x' else b'-'))
      ≡ letter r 4 + letter w 2 + letter x 1 + letter s 8
unfolding nat_eq
read_bits-sticky true true true true = refl
read_bits-sticky true true true false = refl
read_bits-sticky true true false true = refl
read_bits-sticky true true false false = refl
read_bits-sticky true false true true = refl
read_bits-sticky true false true false = refl
read_bits-sticky true false false true = refl
read_bits-sticky true false false false = refl
read_bits-sticky false true true true = refl
read_bits-sticky false true true false = refl
read_bits-sticky false true false true = refl
read_bits-sticky false true false false = refl
read_bits-sticky false false true true = refl
read_bits-sticky false false true false = refl
read_bits-sticky false false false true = refl
read_bits-sticky false false false false = refl

-- A bit of a number, as its value.
letter_bit : (n k w : ℕ) → letter (bit_set n k) w ≡ n / 2 ^ k % 2 * w
letter_bit n k w = elim (Bool-cases (bit_set n k)) [
  | inl on ↦ rw on (ground (arith, lt_two (n / 2 ^ k)))
  | inr off ↦ rw off (ground (arith, lt_two (n / 2 ^ k)))
]
  where
    lt_two : (m : ℕ) → m % 2 < 2
    lt_two m = omega arith

class_value :
    (q t : ℕ)
    → letter (bit_set (q % 8) 2) 4 + letter (bit_set (q % 8) 1) 2 + letter (bit_set (q % 8) 0) 1 + t
      ≡ q % 8 + t
class_value q t = rw (letter_bit, letter_bit, letter_bit) (omega arith)

-- What `ls` shows of a mode is its permission bits and its three special bits, all twelve: the
-- string can be read back to the mode without its file type.
pub read_permissions-permission_string :
    (x : Inode) → read_permissions (permission_string x) ≡ some (x.mode % 4096)
unfolding read_permissions permission_string
read_permissions-permission_string x =
    rw
      (
        read_bits-suid, read_bits-suid, read_bits-sticky, class_value, class_value, class_value,
        letter_bit, letter_bit, letter_bit,
      )
      (ap some (omega arith))
