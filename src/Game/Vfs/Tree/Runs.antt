-- ===== src/Game/Vfs/Tree/Runs.antt =====
-- Every operation of game/core/vfs.py keeps the tree, and so does any sequence of them.
use poodillion.Prelude.{
  ℕ, Bool, true, ◌≡◌, refl, inl, inr, Option, none, some, ◌==◌, nat_eq, text_eq, arith,
  Option-cases, Bool-cases, ◌||◌,
}
use poodillion.Prelude.Dict.{Dict, lookup, insert}
use poodillion.Game.Vfs.Result.{Result, ok, err}
use poodillion.Game.Vfs.Inode.{Text, Bytes, Inode, is_dir, is_file, is_device, entries_of}
use poodillion.Game.Vfs.PathName.{dot, dot_dot, base_name}
use poodillion.Game.Vfs.State.{Vfs, Handler}
use poodillion.Game.Vfs.Resolve.{resolve}
use poodillion.Game.Vfs.Place.{Place, locate_parent}
use poodillion.Game.Vfs.Access.{
  locate, read_file, read_found, read_device, write_file, write_found, write_device, list_dir,
  list_found,
}
use poodillion.Game.Vfs.Remove.{unlink, unlink_at, is_full}
use poodillion.Game.Vfs.Tree.{Proper, IsAt}
use poodillion.Game.Vfs.Tree.Detach.{detach-IsTree}
use poodillion.Game.Vfs.Tree.Children.{IsSound, locate_parent-IsAt}
use poodillion.Game.Vfs.Tree.Filling.{rewritten-IsSound, refill-IsSound}

locate-some :
    (fuel : ℕ) (d : Dict ℕ Inode) (path : Text) (cwd : ℕ) (follow : Bool) (i : ℕ) (x : Inode)
    → locate fuel d path cwd follow ≡ ok (some (i, x))
    → lookup i d ≡ some x
unfolding locate
locate-some fuel d path cwd follow i x h = found (resolve fuel d path cwd follow) refl
  where
    found : (r : Result (Option ℕ)) → resolve fuel d path cwd follow ≡ r → lookup i d ≡ some x
    found (err f) e = absurd (ground arith)
    found (ok none) e = absurd (ground arith)
    found (ok (some k)) e = elim (Option-cases (lookup k d)) [
      | inl f ↦ absurd (ground arith)
      | inr (y, f) ↦ ground arith
    ]

module _ {D : Type 0} where
  -- Handlers change the device state and nothing else.
  read_device-IsSound :
      (o : Option (Handler D)) (size : ℕ) (v : Vfs D) → IsSound v → IsSound (read_device o size v).0
  unfolding read_device
  read_device-IsSound none size v s = s
  read_device-IsSound (some h) size v s = record { tree = s.tree }

  write_device-IsSound :
      (o : Option (Handler D)) (content : Bytes) (v : Vfs D)
      → IsSound v
      → IsSound (write_device o content v).0
  unfolding write_device
  write_device-IsSound none content v s = s
  write_device-IsSound (some h) content v s = record { tree = s.tree }

  access-IsSound :
      (i : ℕ) (x : Inode) (now : ℕ) (v : Vfs D)
      → lookup i v.inodes ≡ some x
      → IsSound v
      → IsSound (record v { inodes = insert i (record x { atime = now }) v.inodes })
  unfolding entries_of is_dir
  access-IsSound i x now v e s =
      rewritten-IsSound i x (record x { atime = now }) v e
        (record { ino = refl; mode = refl; nlink = refl }) refl s

  pub read_file-IsSound :
      (fuel : ℕ) (path : Text) (cwd size now : ℕ) (v : Vfs D)
      → IsSound v
      → IsSound (read_file fuel path cwd size now v).0
  unfolding read_file
  read_file-IsSound fuel path cwd size now v s = go (locate fuel v.inodes path cwd true) refl
    where
      go :
          (r : Result (Option (ℕ × Inode)))
          → locate fuel v.inodes path cwd true ≡ r
          → IsSound (read_found size now r v).0
      go (err f) e = s
      go (ok none) e = s
      go (ok (some (i, x))) e =
          let s' : IsSound (record v { inodes = insert i (record x { atime = now }) v.inodes }) =
            access-IsSound i x now v (locate-some fuel v.inodes path cwd true i x e) s in
          elim (Bool-cases (is_device x)) [
            | inl device ↦ rw device (read_device-IsSound _ size _ s')
            | inr plain ↦
                rw plain (elim (Bool-cases (is_file x)) [
                  | inl file ↦ rw file s'
                  | inr other ↦ rw other s'
                ])
          ]

  pub write_file-IsSound :
      (fuel : ℕ) (path : Text) (content : Bytes) (cwd now : ℕ) (v : Vfs D)
      → IsSound v
      → IsSound (write_file fuel path content cwd now v).0
  unfolding write_file
  write_file-IsSound fuel path content cwd now v s = go (locate fuel v.inodes path cwd true) refl
    where
      go :
          (r : Result (Option (ℕ × Inode)))
          → locate fuel v.inodes path cwd true ≡ r
          → IsSound (write_found content now r v).0
      go (err f) e = s
      go (ok none) e = s
      go (ok (some (i, x))) e = elim (Bool-cases (is_device x)) [
        | inl device ↦ rw device (write_device-IsSound _ content v s)
        | inr plain ↦ rw plain (elim (Bool-cases (is_file x)) [
          | inl file ↦ rw file (
              refill-IsSound i x content now v (locate-some fuel v.inodes path cwd true i x e) file
                s)
          | inr other ↦ rw other s
        ])
      ]

  pub list_dir-IsSound :
      (fuel : ℕ) (path : Text) (cwd now : ℕ) (v : Vfs D)
      → IsSound v
      → IsSound (list_dir fuel path cwd now v).0
  unfolding list_dir
  list_dir-IsSound fuel path cwd now v s = go (locate fuel v.inodes path cwd true) refl
    where
      go :
          (r : Result (Option (ℕ × Inode)))
          → locate fuel v.inodes path cwd true ≡ r
          → IsSound (list_found now r v).0
      go (err f) e = s
      go (ok none) e = s
      go (ok (some (i, x))) e = elim (Option-cases (entries_of x)) [
        | inl f ↦ rw (f, list_found) s
        | inr (es, f) ↦
            rw (f, list_found)
              (access-IsSound i x now v (locate-some fuel v.inodes path cwd true i x e) s)
      ]

  pub unlink_at-IsSound :
      (name : Text) (now : ℕ) (r : Result (Option Place)) (v : Vfs D)
      → Proper name
      → ((place : Place) → r ≡ ok (some place) → IsAt v.inodes place)
      → IsSound v
      → IsSound (unlink_at name now r v).0
  unfolding unlink_at
  unlink_at-IsSound name now (err f) v proper at s = s
  unlink_at-IsSound name now (ok none) v proper at s = s
  unlink_at-IsSound name now (ok (some place)) v proper at s =
      elim (Option-cases (lookup name place.names)) [
        | inl e ↦ rw (e, unlink_at) s
        | inr (i, e) ↦
            rw (e, unlink_at)
              (elim (Option-cases (lookup i v.inodes)) [
                | inl f ↦ rw (f, unlink_at) s
                | inr (x, f) ↦
                    rw (f, unlink_at)
                      (elim (Bool-cases (is_full x)) [
                        | inl full ↦ rw full s
                        | inr empty ↦ rw empty (record {
                          tree =
                              detach-IsTree v.inodes v.next_ino place name i x now s.tree
                                (at place refl) proper e f empty;
                        })
                      ])
              ])
      ]

  -- `unlink` keeps the tree: no directory is left with a name of a removed inode.
  pub unlink-IsSound :
      (fuel : ℕ) (path : Text) (cwd now : ℕ) (v : Vfs D)
      → IsSound v
      → IsSound (unlink fuel path cwd now v).0
  unfolding unlink
  unlink-IsSound fuel path cwd now v s =
      elim (Bool-cases (base_name path == dot || base_name path == dot_dot)) [
        | inl reserved ↦ rw reserved s
        | inr plain ↦ rw plain (
            unlink_at-IsSound (base_name path) now (locate_parent fuel v.inodes path cwd) v
              (ground arith, ground arith)
              (λ place e. locate_parent-IsAt fuel v.inodes path cwd place e) s)
      ]
