-- ===== src/Game/Vfs/Tree/Creating.antt =====
-- The creating operations of game/core/vfs.py keep the tree.
use poodillion.Prelude.{
  ℕ, ◌<◌, Bool, true, false, ◌≡◌, refl, inl, inr, Option, none, some, nat_eq, text_eq, arith,
  Option-cases, Bool-cases,
}
use poodillion.Prelude.Dict.{lookup, has}
use poodillion.Game.Vfs.Result.{Result, ok, err}
use poodillion.Game.Vfs.Inode.{Text, Bytes, Inode, is_dir}
use poodillion.Game.Vfs.PathName.{base_name}
use poodillion.Game.Vfs.State.{Vfs}
use poodillion.Game.Vfs.Place.{Place, locate_parent}
use poodillion.Game.Vfs.Create.{
  touch, touch_both, new_link, new_device, create_in, mkdir, symlink, create_device, create_file,
  create_file_at, new_file,
}
use poodillion.Game.Vfs.Tree.{IsChild, SameNode}
use poodillion.Game.Vfs.Tree.Attach.{attach-IsTree}
use poodillion.Game.Vfs.Tree.Children.{
  IsSound, locate_parent-IsAt, not_dir-IsChild, new_directory-IsChild, new_file_not_dir,
}
use poodillion.Game.Vfs.Tree.Filling.{truncate-IsSound}

device_not_dir :
    (name : Text) (b : Bool) (uid gid now ino : ℕ)
    → is_dir (new_device name b uid gid now ino) ≡ false
unfolding nat_eq is_dir new_device
device_not_dir name true uid gid now ino = refl
device_not_dir name false uid gid now ino = refl

link_not_dir :
    (target : Text) (uid gid now ino : ℕ) → is_dir (new_link target uid gid now ino) ≡ false
unfolding nat_eq is_dir new_link
link_not_dir target uid gid now ino = refl

module _ {D : Type 0} where
  create_in-IsSound :
      (touched : Inode → Inode) (child : ℕ → ℕ → Inode) (name : Text) (fuel : ℕ) (path : Text)
      (cwd : ℕ) (v : Vfs D)
      → ((x : Inode) → SameNode x (touched x))
      → ((new parent : ℕ) → IsChild (child new parent) new parent)
      → IsSound v
      → IsSound (create_in touched child name (locate_parent fuel v.inodes path cwd) v).0
  unfolding create_in
  create_in-IsSound touched child name fuel path cwd v same ischild s =
      go (locate_parent fuel v.inodes path cwd) refl
    where
      go :
          (r : Result (Option Place))
          → locate_parent fuel v.inodes path cwd ≡ r
          → IsSound (create_in touched child name r v).0
      go (err f) e = s
      go (ok none) e = s
      go (ok (some place)) e = elim (Bool-cases (has name place.names)) [
        | inl taken ↦ rw taken s
        | inr free ↦ rw free (record {
          tree =
              attach-IsTree v.inodes v.next_ino place (touched place.dir) name
                (child v.next_ino place.ino) s.tree
                (locate_parent-IsAt fuel v.inodes path cwd place e) (same place.dir) (ground arith)
                (ischild v.next_ino place.ino);
        })
      ]

  -- `mkdir` keeps the tree, whatever it returns, for a mode of permission bits.
  pub mkdir-IsSound :
      (fuel : ℕ) (path : Text) (mode uid gid cwd now : ℕ) (v : Vfs D)
      → mode < 4096
      → IsSound v
      → IsSound (mkdir fuel path mode uid gid cwd now v).0
  unfolding mkdir
  mkdir-IsSound fuel path mode uid gid cwd now v small s =
      create_in-IsSound (touch_both now) _ (base_name path) fuel path cwd v
        (λ x. record { ino = refl; mode = refl; nlink = refl })
        (λ new parent. new_directory-IsChild new parent mode uid gid now small) s

  pub symlink-IsSound :
      (fuel : ℕ) (target linkpath : Text) (uid gid cwd now : ℕ) (v : Vfs D)
      → IsSound v
      → IsSound (symlink fuel target linkpath uid gid cwd now v).0
  unfolding symlink
  symlink-IsSound fuel target linkpath uid gid cwd now v s =
      create_in-IsSound (touch now) _ (base_name linkpath) fuel linkpath cwd v
        (λ x. record { ino = refl; mode = refl; nlink = refl })
        (λ new parent.
          not_dir-IsChild (new_link target uid gid now new) new parent refl refl
            (link_not_dir target uid gid now new))
        s

  pub create_device-IsSound :
      (fuel : ℕ) (path : Text) (is_char : Bool) (uid gid cwd : ℕ) (device_name : Text) (now : ℕ)
      (v : Vfs D)
      → IsSound v
      → IsSound (create_device fuel path is_char uid gid cwd device_name now v).0
  unfolding create_device
  create_device-IsSound fuel path is_char uid gid cwd device_name now v s =
      create_in-IsSound (touch now) _ (base_name path) fuel path cwd v
        (λ x. record { ino = refl; mode = refl; nlink = refl })
        (λ new parent.
          not_dir-IsChild (new_device _ is_char uid gid now new) new parent refl refl
            (device_not_dir _ is_char uid gid now new))
        s

  -- `create_file` keeps the tree, whether it makes, truncates or refuses.
  pub create_file-IsSound :
      (fuel : ℕ) (path : Text) (mode uid gid : ℕ) (content : Bytes) (cwd now : ℕ) (v : Vfs D)
      → mode < 4096
      → IsSound v
      → IsSound (create_file fuel path mode uid gid content cwd now v).0
  unfolding create_file
  create_file-IsSound fuel path mode uid gid content cwd now v small s =
      go (locate_parent fuel v.inodes path cwd) refl
    where
      go :
          (r : Result (Option Place))
          → locate_parent fuel v.inodes path cwd ≡ r
          → IsSound (create_file_at (base_name path) mode uid gid content now r v).0
      go (err f) e = s
      go (ok none) e = s
      go (ok (some place)) e = elim (Option-cases (lookup (base_name path) place.names)) [
        | inl free ↦
            rw (free, create_file_at)
              (record {
                tree =
                    attach-IsTree v.inodes v.next_ino place (touch now place.dir) (base_name path)
                      (new_file v.next_ino mode uid gid content now) s.tree
                      (locate_parent-IsAt fuel v.inodes path cwd place e)
                      (record { ino = refl; mode = refl; nlink = refl }) free
                      (not_dir-IsChild _ v.next_ino place.ino refl refl
                        (new_file_not_dir v.next_ino mode uid gid content now small));
              })
        | inr (i, taken) ↦
            rw (taken, create_file_at) (truncate-IsSound i content now (lookup i v.inodes) v refl s)
      ]
