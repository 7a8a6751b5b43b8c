-- ===== src/Game/Vfs/Place.antt =====
-- What the operations of game/core/vfs.py share: the search for the parent directory, and the writes
-- of a new entry and of new content.
use poodillion.Prelude.{ℕ, true, Option, none, some, nat_eq, text_eq, length}
use poodillion.Prelude.Dict.{Dict, lookup, insert}
use poodillion.Game.Vfs.Result.{Result, ok, err}
use poodillion.Game.Vfs.Inode.{Text, Bytes, Inode, bytes, entries, entries_of}
use poodillion.Game.Vfs.PathName.{parent_path}
use poodillion.Game.Vfs.Resolve.{resolve}

-- A directory that was found: its number, the inode, and its entries.
pub record Place : Type 0 where
  pub ino : ℕ
  pub dir : Inode
  pub names : Dict Text ℕ

-- `self.inodes.get(ino)` with the tests that it is a directory with a dict.
unfoldable pub place_at : Dict ℕ Inode → ℕ → Option Place
place_at d i = elim (lookup i d) [
  | none ↦ none
  | some x ↦ elim (entries_of x) [
    | none ↦ none
    | some es ↦ some (record { ino = i; dir = x; names = es })
  ]
]

-- The lines with which the creating operations and `unlink` begin.
unfoldable pub locate_parent : ℕ → Dict ℕ Inode → Text → ℕ → Result (Option Place)
unfolding place_at
locate_parent fuel d path cwd = elim (resolve fuel d (parent_path path) cwd true) [
  | err e ↦ err e
  | ok none ↦ ok none
  | ok (some i) ↦ ok (place_at d i)
]

-- `_allocate_inode`, the new inode's place in the table, and its entry in the parent.
unfoldable pub attach : Dict ℕ Inode → Place → Inode → Text → ℕ → Inode → Dict ℕ Inode
attach d place dir' name new child =
    insert place.ino (record dir' { content = entries (insert name new place.names) })
      (insert new child d)

-- New content for a regular file, by `create_file` and `write_file`.
abbrev pub refill : Inode → Bytes → ℕ → Inode
refill x content now = record x {
  content = bytes content;
  size = length content;
  mtime = now;
  ctime = now;
}
