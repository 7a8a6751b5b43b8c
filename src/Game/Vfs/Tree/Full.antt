-- ===== src/Game/Vfs/Tree/Full.antt =====
-- A directory of game/core/vfs.py that names anything but itself and its parent is full.
use poodillion.Prelude.{
  ℕ, ◌<◌, true, ◌≡◌, ◌≢◌, inl, inr, some, [], ◌∷◌, nat_eq, text_eq, arith, Option-cases, sym,
  length,
}
use poodillion.Prelude.Dict.{Dict, lookup}
use poodillion.Game.Vfs.Inode.{Text, Inode}
use poodillion.Game.Vfs.PathName.{dot, dot_dot}
use poodillion.Game.Vfs.State.{entry}
use poodillion.Game.Vfs.Remove.{is_full}
use poodillion.Game.Vfs.Tree.{Proper, IsTree, entry-some}

positive : (n : Text) (j : ℕ) (es : Dict Text ℕ) → lookup n es ≡ some j → 0 < length es
unfolding lookup
positive n j [] h = cc
positive n j (_ ∷ es) h = omega arith

-- Two names make two entries, and three make three.
two_names :
    (n m : Text) (i j : ℕ) (es : Dict Text ℕ)
    → n ≢ m
    → lookup n es ≡ some i
    → lookup m es ≡ some j
    → 1 < length es
unfolding lookup
two_names n m i j [] ne h k = cc
two_names n m i j (_ ∷ es) ne h k = ground (arith, positive n i es, positive m j es)

three_names :
    (n m o : Text) (i j k : ℕ) (es : Dict Text ℕ)
    → n ≢ m
    → o ≢ n
    → o ≢ m
    → lookup n es ≡ some i
    → lookup m es ≡ some j
    → lookup o es ≡ some k
    → 2 < length es
unfolding lookup
three_names n m o i j k [] ne ne' ne'' h h' h'' = cc
three_names n m o i j k (_ ∷ es) ne ne' ne'' h h' h'' = ground (
  arith,
  two_names n m i j es ne,
  two_names o m k j es ne'',
  two_names n o i k es (λ e. ne' (sym e)),
)

dot_ne_dot_dot : dot ≢ dot_dot
dot_ne_dot_dot e = cc

-- A directory with a proper entry is not empty.
pub full_of_entry :
    (d : Dict ℕ Inode) (next i : ℕ) (n : Text) (j : ℕ) (x : Inode)
    → IsTree d next
    → Proper n
    → lookup i d ≡ some x
    → entry d i n ≡ some j
    → is_full x ≡ true
unfolding is_full
full_of_entry d next i n j x t proper here h =
    let (y, es, a, b, c) = entry-some d i n j h in
    elim (Option-cases (lookup dot_dot es)) [
      | inl e ↦ absurd ((t.dots i y es a b).1 e)
      | inr (p, e) ↦ ground (
        arith,
        t.dots i y es a b,
        three_names dot dot_dot n i p j es dot_ne_dot_dot proper.0 proper.1,
      )
    ]
