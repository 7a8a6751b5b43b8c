-- ===== src/Game/Vfs/Remove.antt =====
-- `unlink` of game/core/vfs.py.
use poodillion.Prelude.{
  ℕ, zero, suc, Bool, true, false, ◌||◌, Option, none, some, ◌==◌, nat_eq, text_eq, ltb, length,
  if◌then◌else◌,
}
use poodillion.Prelude.Int.{ℤ, pos, negsuc, ◌-ℤ◌}
use poodillion.Prelude.Dict.{Dict, lookup, insert, erase}
use poodillion.Game.Vfs.Result.{Result, ok, err}
use poodillion.Game.Vfs.Inode.{Text, Inode, entries, entries_of}
use poodillion.Game.Vfs.PathName.{dot, dot_dot, base_name}
use poodillion.Game.Vfs.State.{Vfs}
use poodillion.Game.Vfs.Place.{Place, locate_parent}

-- `target.is_dir()`, a dict, and more than `.` and `..` in it.
unfoldable pub is_full : Inode → Bool
is_full x = elim (entries_of x) [ none ↦ false | some es ↦ ltb 2 (length es) ]

abbrev pub is_zero : ℤ → Bool
is_zero (pos zero) = true
is_zero (pos (suc n)) = false
is_zero (negsuc n) = false

-- `del entries[name]`, `target.nlink -= 1`, and the deletion of an inode with no link left.
unfoldable pub detach : Dict ℕ Inode → Place → Text → ℕ → ℕ → Dict ℕ Inode
detach d place name i now =
    let dir' = record (place.dir) { content = entries (erase name place.names); mtime = now } in
    let d' = insert place.ino dir' d in
    elim (lookup i d') [
      | none ↦ d'
      | some x ↦
          let left = x.nlink -ℤ pos 1 in
          if is_zero left then erase i d' else insert i (record x { nlink = left }) d'
    ]

module _ {D : Type 0} where
  unfoldable pub unlink_at : Text → ℕ → Result (Option Place) → Vfs D → Vfs D × Result Bool
  unfolding detach is_full
  unlink_at name now (err e) v = (v, err e)
  unlink_at name now (ok none) v = (v, ok false)
  unlink_at name now (ok (some place)) v = elim (lookup name place.names) [
    | none ↦ (v, ok false)
    | some i ↦ elim (lookup i v.inodes) [
      | none ↦ (v, ok false)
      | some x ↦
          if is_full x
          then (v, ok false)
          else (record v { inodes = detach v.inodes place name i now }, ok true)
    ]
  ]

  unfoldable pub unlink : ℕ → Text → ℕ → ℕ → Vfs D → Vfs D × Result Bool
  unfolding unlink_at
  unlink fuel path cwd now v =
      let name = base_name path in
      if name == dot || name == dot_dot
      then (v, ok false)
      else unlink_at name now (locate_parent fuel v.inodes path cwd) v
