-- ===== src/Game/Vfs/State.antt =====
-- The state of the VFS class of game/core/vfs.py. The handlers of devices are first-class values
-- that `device_handlers` maps names to; they act on a device state `D`.
use poodillion.Prelude.{ℕ, Option, none, some, [], ◌∷◌, nat_eq, text_eq}
use poodillion.Prelude.Int.{pos}
use poodillion.Prelude.Dict.{Dict, lookup, insert}
use poodillion.Game.Vfs.Result.{Result}
use poodillion.Game.Vfs.Inode.{Text, Bytes, Inode, entries, entries_of, with_type, directory_type}
use poodillion.Game.Vfs.PathName.{dot, dot_dot}

-- (read_handler, write_handler)
pub record Handler (D : Type 0) : Type 0 where
  pub read : ℕ → D → Result Bytes × D
  pub write : Bytes → D → Result (Unit {0}) × D

pub record Vfs (D : Type 0) : Type 0 where
  pub inodes : Dict ℕ Inode
  pub next_ino : ℕ
  pub device_handlers : Dict Text (Handler D)
  pub devices : D

-- A directory, as `__init__` and `mkdir` build it.
abbrev pub new_directory : ℕ → ℕ → ℕ → ℕ → ℕ → ℕ → Inode
new_directory ino parent mode uid gid now = record {
  ino = ino;
  mode = with_type directory_type mode;
  uid = uid;
  gid = gid;
  size = 4096;
  atime = now;
  mtime = now;
  ctime = now;
  nlink = pos 1;
  content = entries ((dot, ino) ∷ (dot_dot, parent) ∷ []);
}

module _ {D : Type 0} where
  -- VFS(), with the handlers that it registers.
  unfoldable pub initial_vfs : Dict Text (Handler D) → D → ℕ → Vfs D
  initial_vfs handlers devices now = record {
    inodes = insert 1 (new_directory 1 1 0o755 0 0 now) [];
    next_ino = 2;
    device_handlers = handlers;
    devices = devices;
  }

-- What name `n` stands for in the directory `i`, if `i` is one.
unfoldable pub entry : Dict ℕ Inode → ℕ → Text → Option ℕ
entry d i n = elim (lookup i d) [
  | none ↦ none
  | some x ↦ elim (entries_of x) [ none ↦ none | some es ↦ lookup n es ]
]
