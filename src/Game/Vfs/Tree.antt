-- ===== src/Game/Vfs/Tree.antt =====
-- The inodes of game/core/vfs.py form a tree of directories.
pub mod Attach
pub mod Full
pub mod Detach
pub mod Rewrite
pub mod Modes
pub mod Children
pub mod Filling
pub mod Creating
pub mod Runs
pub mod Calls
use poodillion.Prelude.{
  ℕ, ◌<◌, Bool, true, false, ◌≡◌, refl, ◌≢◌, ◌⊎◌, inl, inr, Option, none, some, List, [], ◌∷◌, ◌==◌,
  nat_eq, text_eq, if◌then◌else◌, arith, Option-cases,
}
use poodillion.Prelude.Int.{pos}
use poodillion.Prelude.Dict.{Dict, lookup}
use poodillion.Game.Vfs.Inode.{Text, Inode, is_dir, entries_of}
use poodillion.Game.Vfs.PathName.{dot, dot_dot}
use poodillion.Game.Vfs.State.{entry}
use poodillion.Game.Vfs.Place.{Place}

-- A name that stands for a child.
abbrev pub Proper : Text → Type 0
Proper n = (n ≢ dot) × (n ≢ dot_dot)

-- Every inode stands under its number, below the next one to give, with one link; directories
-- have `.` and `..`; what an entry names exists; no inode but a directory through `.` and `..` is
-- named twice, and the root by no proper name; `..` leads to the directory that names this one.
pub record IsTree (d : Dict ℕ Inode) (next : ℕ) : Type 0 where
  pub keyed :
      (i : ℕ) (x : Inode) → lookup i d ≡ some x → (x.ino ≡ i) × (i < next) × (x.nlink ≡ pos 1)
  pub root : entry d 1 dot ≡ some 1
  pub dicts : (i : ℕ) (x : Inode) → lookup i d ≡ some x → is_dir x ≡ true → entries_of x ≢ none
  pub dots :
      (i : ℕ) (x : Inode) (es : Dict Text ℕ)
      → lookup i d ≡ some x
      → entries_of x ≡ some es
      → (lookup dot es ≡ some i) × (lookup dot_dot es ≢ none)
  pub linked : (i : ℕ) (n : Text) (j : ℕ) → entry d i n ≡ some j → lookup j d ≢ none
  pub unique :
      (i : ℕ) (n : Text) (i' : ℕ) (n' : Text) (j : ℕ)
      → Proper n
      → Proper n'
      → entry d i n ≡ some j
      → entry d i' n' ≡ some j
      → (i ≡ i') × (n ≡ n')
  pub not_root : (i : ℕ) (n : Text) → Proper n → entry d i n ≢ some 1
  pub up :
      (i p : ℕ)
      → i ≢ 1
      → entry d i dot_dot ≡ some p
      → (n : Text) × Proper n × (entry d p n ≡ some i)
  pub root_up : (p : ℕ) → entry d 1 dot_dot ≡ some p → p ≡ 1

-- An entry is a name in the entries of an inode.
pub entry-some :
    (d : Dict ℕ Inode) (i : ℕ) (n : Text) (j : ℕ)
    → entry d i n ≡ some j
    → (x : Inode) × (es : Dict Text ℕ) × (lookup i d ≡ some x)
      × (entries_of x ≡ some es)
      × (lookup n es ≡ some j)
unfolding entry
entry-some d i n j h = elim (Option-cases (lookup i d)) [
  | inl e ↦ absurd (ground arith)
  | inr (x, e) ↦ elim (Option-cases (entries_of x)) [
    | inl f ↦ absurd (ground arith)
    | inr (es, f) ↦ (x, es, e, f, ground arith)
  ]
]

pub entry-dot :
    (d : Dict ℕ Inode) (next i : ℕ) (n : Text) (j : ℕ)
    → IsTree d next
    → entry d i n ≡ some j
    → (entry d i dot ≡ some i) × (entry d i dot_dot ≢ none) × (i < next) × (j < next)
unfolding entry
entry-dot d next i n j t h =
    let (x, es, a, b, c) = entry-some d i n j h in
    ground (arith, t.dots i x es a b, t.keyed i x a, t.linked i n j h, below (lookup j d) refl)
  where
    below : (o : Option Inode) → lookup j d ≡ o → lookup j d ≢ none → j < next
    below none e ne = absurd (ne e)
    below (some y) e ne = (t.keyed j y e).1

-- What an inode's entries name.
abbrev pub inside : Inode → Text → Option ℕ
inside x n = elim (entries_of x) [ none ↦ none | some es ↦ lookup n es ]

-- A new inode: no directory, or one with `.` and `..` alone.
pub record IsChild (c : Inode) (new parent : ℕ) : Type 0 where
  pub ino : c.ino ≡ new
  pub nlink : c.nlink ≡ pos 1
  pub dict : is_dir c ≡ true → entries_of c ≢ none
  pub dots :
      (es : Dict Text ℕ)
      → entries_of c ≡ some es
      → (lookup dot es ≡ some new) × (lookup dot_dot es ≡ some parent)
  pub only :
      (n : Text) (j : ℕ)
      → inside c n ≡ some j
      → ((n ≡ dot) × (j ≡ new)) ⊎ ((n ≡ dot_dot) × (j ≡ parent))

-- The place of a directory in the table.
pub record IsAt (d : Dict ℕ Inode) (place : Place) : Type 0 where
  pub found : lookup place.ino d ≡ some place.dir
  pub names : entries_of place.dir ≡ some place.names

-- The parent's inode with other times.
pub record SameNode (x y : Inode) : Type 0 where
  pub ino : y.ino ≡ x.ino
  pub mode : y.mode ≡ x.mode
  pub nlink : y.nlink ≡ x.nlink
