-- ===== src/Game/Vfs/Access.antt =====
-- Reading, writing, listing and `stat` of game/core/vfs.py, with fuel and clock as in Create.
use poodillion.Prelude.{
  ℕ, Bool, true, false, not, ◌&&◌, Option, none, some, [], nat_eq, text_eq, ltb, take,
  if◌then◌else◌,
}
use poodillion.Prelude.Dict.{Dict, lookup, insert}
use poodillion.Game.Vfs.Result.{Result, ok, err}
use poodillion.Game.Vfs.Inode.{
  Text, Bytes, Inode, Content, bytes, entries, text, is_file, is_device, entries_of,
}
use poodillion.Game.Vfs.PathName.{is_empty}
use poodillion.Game.Vfs.State.{Vfs, Handler}
use poodillion.Game.Vfs.Resolve.{resolve}
use poodillion.Game.Vfs.Place.{refill}

-- The inode that `_resolve_path` leads to, for the operations on what is there.
unfoldable pub locate : ℕ → Dict ℕ Inode → Text → ℕ → Bool → Result (Option (ℕ × Inode))
locate fuel d path cwd follow = elim (resolve fuel d path cwd follow) [
  | err e ↦ err e
  | ok none ↦ ok none
  | ok (some i) ↦ elim (lookup i d) [ none ↦ ok none | some x ↦ ok (some (i, x)) ]
]

-- inode.content if isinstance(inode.content, str) else ''
unfoldable pub device_name_of : Content → Text
device_name_of (text t) = t
device_name_of (bytes b) = []
device_name_of (entries es) = []

-- `content[:size]` if a size is asked for. A dict or a text is no bytes, and gives None.
unfoldable pub read_content : Content → ℕ → Option Bytes
read_content (bytes b) size = if not (is_empty b) && ltb 0 size then some (take size b) else some b
read_content (entries es) size = none
read_content (text t) size = none

unfoldable pub inode_of : Result (Option (ℕ × Inode)) → Result (Option Inode)
inode_of (err e) = err e
inode_of (ok none) = ok none
inode_of (ok (some (i, x))) = ok (some x)

module _ {D : Type 0} where
  unfoldable pub read_device : Option (Handler D) → ℕ → Vfs D → Vfs D × Result (Option Bytes)
  read_device none size v = (v, ok (some []))
  read_device (some h) size v =
      let (r, s) = h.read (if ltb 0 size then size else 4096) v.devices in
      (record v { devices = s }, elim r [ ok b ↦ ok (some b) | err e ↦ err e ])

  unfoldable pub read_found :
      ℕ → ℕ → Result (Option (ℕ × Inode)) → Vfs D → Vfs D × Result (Option Bytes)
  unfolding read_device device_name_of read_content
  read_found size now (err e) v = (v, err e)
  read_found size now (ok none) v = (v, ok none)
  read_found size now (ok (some (i, x))) v =
      let v' = record v { inodes = insert i (record x { atime = now }) v.inodes } in
      if is_device x
      then read_device (lookup (device_name_of x.content) v.device_handlers) size v'
      else if not (is_file x)
      then (v', ok none)
      else (v', ok (read_content x.content size))

  -- `size` counts only if it is positive: 0 stands for the default -1 too.
  unfoldable pub read_file : ℕ → Text → ℕ → ℕ → ℕ → Vfs D → Vfs D × Result (Option Bytes)
  unfolding read_found locate
  read_file fuel path cwd size now v = read_found size now (locate fuel v.inodes path cwd true) v

  unfoldable pub write_device : Option (Handler D) → Bytes → Vfs D → Vfs D × Result Bool
  write_device none content v = (v, ok false)
  write_device (some h) content v =
      let (r, s) = h.write content v.devices in
      (record v { devices = s }, elim r [ ok _ ↦ ok true | err e ↦ err e ])

  unfoldable pub write_found : Bytes → ℕ → Result (Option (ℕ × Inode)) → Vfs D → Vfs D × Result Bool
  unfolding write_device device_name_of
  write_found content now (err e) v = (v, err e)
  write_found content now (ok none) v = (v, ok false)
  write_found content now (ok (some (i, x))) v =
      if is_device x
      then write_device (lookup (device_name_of x.content) v.device_handlers) content v
      else if not (is_file x)
      then (v, ok false)
      else (record v { inodes = insert i (refill x content now) v.inodes }, ok true)

  unfoldable pub write_file : ℕ → Text → Bytes → ℕ → ℕ → Vfs D → Vfs D × Result Bool
  unfolding write_found locate
  write_file fuel path content cwd now v =
      write_found content now (locate fuel v.inodes path cwd true) v

  unfoldable pub list_found :
      ℕ → Result (Option (ℕ × Inode)) → Vfs D → Vfs D × Result (Option (Dict Text ℕ))
  list_found now (err e) v = (v, err e)
  list_found now (ok none) v = (v, ok none)
  list_found now (ok (some (i, x))) v = elim (entries_of x) [
    | none ↦ (v, ok none)
    | some es ↦ (record v { inodes = insert i (record x { atime = now }) v.inodes }, ok (some es))
  ]

  unfoldable pub list_dir : ℕ → Text → ℕ → ℕ → Vfs D → Vfs D × Result (Option (Dict Text ℕ))
  unfolding list_found locate
  list_dir fuel path cwd now v = list_found now (locate fuel v.inodes path cwd true) v

  unfoldable pub stat : ℕ → Text → ℕ → Vfs D → Result (Option Inode)
  unfolding inode_of locate
  stat fuel path cwd v = inode_of (locate fuel v.inodes path cwd true)

  unfoldable pub lstat : ℕ → Text → ℕ → Vfs D → Result (Option Inode)
  unfolding inode_of locate
  lstat fuel path cwd v = inode_of (locate fuel v.inodes path cwd false)

  unfoldable pub path_exists : ℕ → Text → ℕ → Vfs D → Result Bool
  path_exists fuel path cwd v = elim (resolve fuel v.inodes path cwd true) [
    | err e ↦ err e
    | ok none ↦ ok false
    | ok (some i) ↦ ok true
  ]
