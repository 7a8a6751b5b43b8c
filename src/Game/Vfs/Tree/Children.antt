-- ===== src/Game/Vfs/Tree/Children.antt =====
-- What game/core/vfs.py looks up and builds when it makes an entry.
use poodillion.Prelude.{
  ℕ, ◌<◌, true, false, ◌≡◌, refl, ◌⊎◌, inl, inr, Option, none, some, [], ◌∷◌, nat_eq, text_eq,
  arith, Option-cases, sym, subst, ◌∙◌,
}
use poodillion.Prelude.Int.{pos}
use poodillion.Prelude.Dict.{Dict, lookup}
use poodillion.Game.Vfs.Result.{Result, ok, err}
use poodillion.Game.Vfs.Inode.{Text, Bytes, Inode, is_dir, entries_of}
use poodillion.Game.Vfs.PathName.{dot, dot_dot, parent_path}
use poodillion.Game.Vfs.State.{Vfs, new_directory}
use poodillion.Game.Vfs.Resolve.{resolve}
use poodillion.Game.Vfs.Place.{Place, place_at, locate_parent}
use poodillion.Game.Vfs.Create.{new_file}
use poodillion.Game.Vfs.Tree.{IsTree, IsAt, IsChild, inside}
use mathlib.Core.Option.{some-injective}
use poodillion.Game.Vfs.Tree.Modes.{file_type-directory, file_type-regular}

-- The state of a file system whose inodes form a tree.
pub record IsSound {D : Type 0} (v : Vfs D) : Type 0 where
  pub tree : IsTree v.inodes v.next_ino

place_at-IsAt :
    (d : Dict ℕ Inode) (i : ℕ) (place : Place) → place_at d i ≡ some place → IsAt d place
unfolding place_at
place_at-IsAt d i place h = elim (Option-cases (lookup i d)) [
  | inl e ↦ absurd (ground arith)
  | inr (x, e) ↦ elim (Option-cases (entries_of x)) [
    | inl f ↦ absurd (ground arith)
    | inr (es, f) ↦ record { found = ground arith; names = ground arith }
  ]
]

pub locate_parent-IsAt :
    (fuel : ℕ) (d : Dict ℕ Inode) (path : Text) (cwd : ℕ) (place : Place)
    → locate_parent fuel d path cwd ≡ ok (some place)
    → IsAt d place
unfolding locate_parent
locate_parent-IsAt fuel d path cwd place h = found (resolve fuel d (parent_path path) cwd true) refl
  where
    found : (r : Result (Option ℕ)) → resolve fuel d (parent_path path) cwd true ≡ r → IsAt d place
    found (err f) e = absurd (ground arith)
    found (ok none) e = absurd (ground arith)
    found (ok (some i)) e = place_at-IsAt d i place (ground arith)

pub not_dir-IsChild :
    (c : Inode) (new parent : ℕ)
    → c.ino ≡ new
    → c.nlink ≡ pos 1
    → is_dir c ≡ false
    → IsChild c new parent
unfolding entries_of
not_dir-IsChild c new parent e l nd = record {
  ino = e;
  nlink = l;
  dict = λ h. ground arith;
  dots = λ es h. ground arith;
  only = λ n j h. ground arith;
}

pub entries_of-new_directory :
    (new parent mode uid gid now : ℕ)
    → mode < 4096
    → entries_of (new_directory new parent mode uid gid now)
      ≡ some ((dot, new) ∷ (dot_dot, parent) ∷ [])
unfolding entries_of is_dir
entries_of-new_directory new parent mode uid gid now small =
    rw (file_type-directory mode small) (unfold nat_eq in refl)

pub two_names_only :
    (new parent : ℕ) (n : Text) (j : ℕ)
    → lookup n ((dot, new) ∷ (dot_dot, parent) ∷ []) ≡ some j
    → ((n ≡ dot) × (j ≡ new)) ⊎ ((n ≡ dot_dot) × (j ≡ parent))
unfolding lookup
two_names_only new parent n j h = ground arith

pub new_directory-IsChild :
    (new parent mode uid gid now : ℕ)
    → mode < 4096
    → IsChild (new_directory new parent mode uid gid now) new parent
new_directory-IsChild new parent mode uid gid now small = record {
  ino = refl;
  nlink = refl;
  dict = λ h. rw e (λ p. cc);
  dots = λ es h.
      subst (λ o. (lookup dot o ≡ some new) × (lookup dot_dot o ≡ some parent))
        (some-injective _ _ (sym e ∙ h)) (unfold lookup text_eq in (refl, refl));
  only = λ n j h. two_names_only new parent n j (rw (e, inside) at h);
}
  where
    e :
        entries_of (new_directory new parent mode uid gid now)
        ≡ some ((dot, new) ∷ (dot_dot, parent) ∷ [])
    e = entries_of-new_directory new parent mode uid gid now small

pub new_file_not_dir :
    (new mode uid gid : ℕ) (content : Bytes) (now : ℕ)
    → mode < 4096
    → is_dir (new_file new mode uid gid content now) ≡ false
unfolding is_dir new_file
new_file_not_dir new mode uid gid content now small =
    rw (file_type-regular mode small) (unfold nat_eq in refl)
