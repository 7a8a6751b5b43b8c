-- ===== src/Game/Vfs/Create.antt =====
-- `mkdir`, `create_file`, `symlink` and `create_device` of game/core/vfs.py. Each takes the fuel of
-- `resolve` and the reading `now` of the clock, and returns the new state beside its result.
use poodillion.Prelude.{
  ℕ, ◌+◌, Bool, true, false, Option, none, some, nat_eq, text_eq, length, if◌then◌else◌,
}
use poodillion.Prelude.Int.{pos}
use poodillion.Prelude.Dict.{lookup, has, insert}
use poodillion.Game.Vfs.Result.{Result, ok, err}
use poodillion.Game.Vfs.Inode.{
  Text, Bytes, Inode, bytes, text, is_file, with_type, regular_type, symlink_type, chardev_type,
  blockdev_type,
}
use poodillion.Game.Vfs.PathName.{is_empty, base_name}
use poodillion.Game.Vfs.State.{Vfs, new_directory}
use poodillion.Game.Vfs.Place.{Place, locate_parent, attach, refill}

unfoldable pub new_file : ℕ → ℕ → ℕ → ℕ → Bytes → ℕ → Inode
new_file ino mode uid gid content now = record {
  ino = ino;
  mode = with_type regular_type mode;
  uid = uid;
  gid = gid;
  size = length content;
  atime = now;
  mtime = now;
  ctime = now;
  nlink = pos 1;
  content = bytes content;
}

-- A symbolic link, as `symlink` builds it.
unfoldable pub new_link : Text → ℕ → ℕ → ℕ → ℕ → Inode
new_link target uid gid now ino = record {
  ino = ino;
  mode = with_type symlink_type 0o777;
  uid = uid;
  gid = gid;
  size = length target;
  atime = now;
  mtime = now;
  ctime = now;
  nlink = pos 1;
  content = text target;
}

-- A device, as `create_device` builds it.
unfoldable pub new_device : Text → Bool → ℕ → ℕ → ℕ → ℕ → Inode
new_device device_name is_char uid gid now ino = record {
  ino = ino;
  mode = with_type (if is_char then chardev_type else blockdev_type) 0o666;
  uid = uid;
  gid = gid;
  size = 0;
  atime = now;
  mtime = now;
  ctime = now;
  nlink = pos 1;
  content = text device_name;
}

-- parent.mtime = now, and with parent.ctime = now.
abbrev pub touch : ℕ → Inode → Inode
touch now x = record x { mtime = now }

abbrev pub touch_both : ℕ → Inode → Inode
touch_both now x = record x { mtime = now; ctime = now }

module _ {D : Type 0} where
  -- What a creating operation does with its parent directory.
  unfoldable pub create_in :
      (Inode → Inode) → (ℕ → ℕ → Inode) → Text → Result (Option Place) → Vfs D → Vfs D × Result Bool
  unfolding attach
  create_in touched child name (err e) v = (v, err e)
  create_in touched child name (ok none) v = (v, ok false)
  create_in touched child name (ok (some place)) v =
      if has name place.names then (v, ok false) else (
        record v {
          inodes =
              attach v.inodes place (touched place.dir) name v.next_ino
                (child v.next_ino place.ino);
          next_ino = v.next_ino + 1;
        },
        ok true,
      )

  unfoldable pub mkdir : ℕ → Text → ℕ → ℕ → ℕ → ℕ → ℕ → Vfs D → Vfs D × Result Bool
  unfolding create_in
  mkdir fuel path mode uid gid cwd now v =
      create_in (touch_both now) (λ ino parent. new_directory ino parent mode uid gid now)
        (base_name path) (locate_parent fuel v.inodes path cwd) v

  unfoldable pub symlink : ℕ → Text → Text → ℕ → ℕ → ℕ → ℕ → Vfs D → Vfs D × Result Bool
  unfolding create_in new_link
  symlink fuel target linkpath uid gid cwd now v =
      create_in (touch now) (λ ino parent. new_link target uid gid now ino) (base_name linkpath)
        (locate_parent fuel v.inodes linkpath cwd) v

  unfoldable pub create_device :
      ℕ → Text → Bool → ℕ → ℕ → ℕ → Text → ℕ → Vfs D → Vfs D × Result Bool
  unfolding create_in new_device
  create_device fuel path is_char uid gid cwd device_name now v =
      let name = base_name path in
      create_in (touch now)
        (λ ino parent.
          new_device (if is_empty device_name then name else device_name) is_char uid gid now ino)
        name (locate_parent fuel v.inodes path cwd) v

  -- `existing and existing.is_file()`
  unfoldable pub truncate : ℕ → Bytes → ℕ → Option Inode → Vfs D → Vfs D × Result (Option ℕ)
  truncate i content now none v = (v, ok none)
  truncate i content now (some x) v =
      if is_file x
      then (record v { inodes = insert i (refill x content now) v.inodes }, ok (some i))
      else (v, ok none)

  unfoldable pub create_file_at :
      Text → ℕ → ℕ → ℕ → Bytes → ℕ → Result (Option Place) → Vfs D → Vfs D × Result (Option ℕ)
  unfolding truncate new_file attach
  create_file_at name mode uid gid content now (err e) v = (v, err e)
  create_file_at name mode uid gid content now (ok none) v = (v, ok none)
  create_file_at name mode uid gid content now (ok (some place)) v =
      elim (lookup name place.names) [
        | some i ↦ truncate i content now (lookup i v.inodes) v
        | none ↦ (
          record v {
            inodes =
                attach v.inodes place (touch now place.dir) name v.next_ino
                  (new_file v.next_ino mode uid gid content now);
            next_ino = v.next_ino + 1;
          },
          ok (some v.next_ino),
        )
      ]

  unfoldable pub create_file :
      ℕ → Text → ℕ → ℕ → ℕ → Bytes → ℕ → ℕ → Vfs D → Vfs D × Result (Option ℕ)
  unfolding create_file_at
  create_file fuel path mode uid gid content cwd now v =
      create_file_at (base_name path) mode uid gid content now
        (locate_parent fuel v.inodes path cwd) v
