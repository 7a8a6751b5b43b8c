-- ===== src/Game/Vfs/Tree/Filling.antt =====
-- Writing an inode of game/core/vfs.py back keeps the file system sound.
use poodillion.Prelude.{
  ℕ, true, ◌≡◌, refl, inl, inr, Option, none, some, nat_eq, text_eq, arith, Bool-cases, sym, ◌∙◌,
}
use poodillion.Prelude.Dict.{lookup, insert}
use poodillion.Game.Vfs.Inode.{Bytes, Inode, is_dir, is_file, entries_of}
use poodillion.Game.Vfs.State.{Vfs}
use poodillion.Game.Vfs.Place.{refill}
use poodillion.Game.Vfs.Create.{truncate}
use poodillion.Game.Vfs.Tree.{SameNode}
use poodillion.Game.Vfs.Tree.Rewrite.{rewrite-IsTree}
use poodillion.Game.Vfs.Tree.Children.{IsSound}

refill_same : (x : Inode) (content : Bytes) (now : ℕ) → SameNode x (refill x content now)
refill_same x content now = record { ino = refl; mode = refl; nlink = refl }

-- A regular file has no entries, whatever its content.
entries_of-file : (x : Inode) → is_file x ≡ true → entries_of x ≡ none
unfolding entries_of is_file is_dir
entries_of-file x h = ground arith

module _ {D : Type 0} where
  pub rewritten-IsSound :
      (i : ℕ) (x y : Inode) (v : Vfs D)
      → lookup i v.inodes ≡ some x
      → SameNode x y
      → entries_of y ≡ entries_of x
      → IsSound v
      → IsSound (record v { inodes = insert i y v.inodes })
  rewritten-IsSound i x y v e same names s = record {
    tree = rewrite-IsTree v.inodes i x y e same names v.next_ino s.tree;
  }

  pub refill-IsSound :
      (i : ℕ) (x : Inode) (content : Bytes) (now : ℕ) (v : Vfs D)
      → lookup i v.inodes ≡ some x
      → is_file x ≡ true
      → IsSound v
      → IsSound (record v { inodes = insert i (refill x content now) v.inodes })
  unfolding is_file
  refill-IsSound i x content now v e file =
      rewritten-IsSound i x (refill x content now) v e (refill_same x content now)
        (entries_of-file (refill x content now) file ∙ sym (entries_of-file x file))

  pub truncate-IsSound :
      (i : ℕ) (content : Bytes) (now : ℕ) (o : Option Inode) (v : Vfs D)
      → lookup i v.inodes ≡ o
      → IsSound v
      → IsSound (truncate i content now o v).0
  unfolding truncate
  truncate-IsSound i content now none v e s = s
  truncate-IsSound i content now (some x) v e s = elim (Bool-cases (is_file x)) [
    | inl file ↦ rw file (refill-IsSound i x content now v e file s)
    | inr other ↦ rw other s
  ]
