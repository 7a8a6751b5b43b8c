-- ===== src/Game/Vfs/Effects.antt =====
-- What the operations of game/core/vfs.py change, and what they leave alone.
use poodillion.Prelude.{
  ℕ, ◌+◌, ◌<◌, Bool, true, ◌&&◌, ◌||◌, ◌≡◌, refl, subst, Option, none, some, ◌==◌, nat_eq, text_eq,
  if◌then◌else◌, arith, inl, inr, Bool-cases, Option-cases, length,
}
use poodillion.Prelude.Dict.{lookup, has, insert, lookup-insert}
use poodillion.Game.Vfs.Result.{Result, ok, err}
use poodillion.Game.Vfs.Inode.{Text, Bytes, Inode, bytes, entries, is_file, file_type, regular_type}
use poodillion.Game.Vfs.PathName.{dot, dot_dot, base_name}
use poodillion.Game.Vfs.State.{Vfs, entry, new_directory}
use poodillion.Game.Vfs.Place.{Place, locate_parent, attach, refill}
use poodillion.Game.Vfs.Create.{
  create_in, mkdir, create_file, create_file_at, truncate, new_file, touch, touch_both,
}
use poodillion.Game.Vfs.Remove.{unlink, unlink_at, is_full}
use poodillion.Game.Vfs.Tree.{Proper, IsAt, inside}
use poodillion.Game.Vfs.Tree.Attach.{entry-attach}
use poodillion.Game.Vfs.Tree.Detach.{entry-detach}
use poodillion.Game.Vfs.Tree.Modes.{file_type-regular}
use poodillion.Game.Vfs.Tree.Children.{IsSound, locate_parent-IsAt, new_directory-IsChild}

ok_some : {a b : ℕ} → ok (some a) ≡ ok (some b) → a ≡ b
ok_some h = ground arith

module _ {D : Type 0} where
  -- The names after an `unlink` that returns True: the removed one is gone, the removed inode has
  -- none, and every other name stands for what it stood for.
  abbrev pub Unlinked : Vfs D → Vfs D → Place → Text → ℕ → Type 0
  Unlinked v v' place name i =
      (k : ℕ) (m : Text)
      → entry v'.inodes k m ≡ (
          if k == i then none else if k == place.ino && m == name then none else entry v.inodes k m)

  unlink_at-Unlinked :
      (name : Text) (now : ℕ) (r : Result (Option Place)) (v : Vfs D)
      → Proper name
      → ((place : Place) → r ≡ ok (some place) → IsAt v.inodes place)
      → IsSound v
      → (unlink_at name now r v).1 ≡ ok true
      → (place : Place) × (i : ℕ) × (r ≡ ok (some place))
        × (lookup name place.names ≡ some i)
        × Unlinked v (unlink_at name now r v).0 place name i
  unfolding unlink_at
  unlink_at-Unlinked name now (err f) v proper at s h = cc
  unlink_at-Unlinked name now (ok none) v proper at s h = cc
  unlink_at-Unlinked name now (ok (some place)) v proper at s h =
      elim (Option-cases (lookup name place.names)) [
        | inl e ↦ absurd (ground arith)
        | inr (i, e) ↦ elim (Option-cases (lookup i v.inodes)) [
          | inl f ↦ absurd (ground arith)
          | inr (x, f) ↦ elim (Bool-cases (is_full x)) [
            | inl full ↦ absurd (ground arith)
            | inr empty ↦ (
              place,
              i,
              refl,
              e,
              λ k m.
                  rw (e, unlink_at)
                    (rw (f, unlink_at)
                      (rw empty (
                        entry-detach v.inodes v.next_ino place name i x now s.tree (at place refl)
                          proper e f empty k m))),
            )
          ]
        ]
      ]

  -- In a well-formed file system: if `unlink` returns True, the path's last name stood for an inode
  -- in the directory that the rest of the path leads to; that name is gone, the inode has no names
  -- in it, and all other names stand for what they stood for.
  pub unlink-Unlinked :
      (fuel : ℕ) (path : Text) (cwd now : ℕ) (v : Vfs D)
      → IsSound v
      → (unlink fuel path cwd now v).1 ≡ ok true
      → (place : Place) × (i : ℕ) × (locate_parent fuel v.inodes path cwd ≡ ok (some place))
        × (lookup (base_name path) place.names ≡ some i)
        × Unlinked v (unlink fuel path cwd now v).0 place (base_name path) i
  unfolding unlink
  unlink-Unlinked fuel path cwd now v s h =
      elim (Bool-cases (base_name path == dot || base_name path == dot_dot)) [
        | inl reserved ↦ absurd (ground arith)
        | inr plain ↦ rw plain (
            unlink_at-Unlinked (base_name path) now (locate_parent fuel v.inodes path cwd) v
              (ground arith, ground arith)
              (λ place e. locate_parent-IsAt fuel v.inodes path cwd place e) s (rw plain at h))
      ]

  -- The names after a `mkdir` that returns True.
  abbrev pub Made : Vfs D → Vfs D → Place → Text → Inode → Type 0
  Made v v' place name child =
      (k : ℕ) (m : Text)
      → entry v'.inodes k m ≡ (
          if k == place.ino && m == name
          then some v.next_ino
          else if k == v.next_ino
          then inside child m
          else entry v.inodes k m)

  create_in-mkdir :
      (name : Text) (mode uid gid now : ℕ) (r : Result (Option Place)) (v : Vfs D)
      → mode < 4096
      → ((place : Place) → r ≡ ok (some place) → IsAt v.inodes place)
      → IsSound v
      → let w : Vfs D × Result Bool =
          create_in
            (touch_both now)
            (λ ino parent. new_directory ino parent mode uid gid now)
            name
            r
            v in
        w.1 ≡ ok true
        → (place : Place) × (r ≡ ok (some place))
          × (lookup name place.names ≡ none)
          × Made v w.0 place name (new_directory v.next_ino place.ino mode uid gid now)
  unfolding create_in
  create_in-mkdir name mode uid gid now (err f) v small at s h = cc
  create_in-mkdir name mode uid gid now (ok none) v small at s h = cc
  create_in-mkdir name mode uid gid now (ok (some place)) v small at s h =
      elim (Bool-cases (has name place.names)) [
        | inl taken ↦ absurd (ground arith)
        | inr free ↦ (
          place,
          refl,
          ground arith,
          λ k m. rw free (
              entry-attach v.inodes v.next_ino place (touch_both now place.dir) name
                (new_directory v.next_ino place.ino mode uid gid now) s.tree (at place refl)
                (record { ino = refl; mode = refl; nlink = refl }) (ground arith)
                (new_directory-IsChild v.next_ino place.ino mode uid gid now small) k m),
        )
      ]

  -- In a well-formed file system and for a mode below 0o10000: if `mkdir` returns True, the path's
  -- last name was free in the directory that the rest of the path leads to, and now stands for a new
  -- directory with `.` and `..`; every other name stands for what it stood for.
  pub mkdir-Made :
      (fuel : ℕ) (path : Text) (mode uid gid cwd now : ℕ) (v : Vfs D)
      → mode < 4096
      → IsSound v
      → (mkdir fuel path mode uid gid cwd now v).1 ≡ ok true
      → (place : Place) × (locate_parent fuel v.inodes path cwd ≡ ok (some place))
        × (lookup (base_name path) place.names ≡ none)
        × Made v
            (mkdir fuel path mode uid gid cwd now v).0
            place
            (base_name path)
            (new_directory v.next_ino place.ino mode uid gid now)
  unfolding mkdir
  mkdir-Made fuel path mode uid gid cwd now v small s h =
      create_in-mkdir (base_name path) mode uid gid now (locate_parent fuel v.inodes path cwd) v
        small (λ place e. locate_parent-IsAt fuel v.inodes path cwd place e) s h

  -- What a file holds: the inode is a regular file with this content and its length as the size.
  abbrev pub Holds : Vfs D → ℕ → Bytes → Type 0
  Holds v i content =
      (x : Inode) × (lookup i v.inodes ≡ some x)
      × (is_file x ≡ true)
      × (x.content ≡ bytes content)
      × (x.size ≡ length content)

  truncate-Holds :
      (i : ℕ) (content : Bytes) (now : ℕ) (o : Option Inode) (v : Vfs D) (j : ℕ)
      → (truncate i content now o v).1 ≡ ok (some j)
      → Holds (truncate i content now o v).0 j content
  unfolding truncate is_file
  truncate-Holds i content now none v j h = cc
  truncate-Holds i content now (some x) v j h =
      elim (Bool-cases (file_type x.mode == regular_type)) [
        | inl file ↦ rw file (
          refill x content now,
          ground (arith, lookup-insert i i (refill x content now) v.inodes),
          file,
          refl,
          refl,
        )
        | inr other ↦ absurd (ground arith)
      ]

  -- In a well-formed file system and for a mode below 0o10000: if `create_file` returns a number,
  -- that number is a regular file with the content given, whether it is new or was truncated.
  pub create_file-Holds :
      (fuel : ℕ) (path : Text) (mode uid gid : ℕ) (content : Bytes) (cwd now : ℕ) (v : Vfs D)
      (i : ℕ)
      → mode < 4096
      → IsSound v
      → (create_file fuel path mode uid gid content cwd now v).1 ≡ ok (some i)
      → Holds (create_file fuel path mode uid gid content cwd now v).0 i content
  unfolding create_file
  create_file-Holds fuel path mode uid gid content cwd now v i small s h =
      go (locate_parent fuel v.inodes path cwd) refl h
    where
      made :
          (place : Place)
          → locate_parent fuel v.inodes path cwd ≡ ok (some place)
          → lookup (base_name path) place.names ≡ none
          → Holds
              (record v {
                inodes =
                    attach v.inodes place
                      (touch now place.dir)
                      (base_name path)
                      v.next_ino
                      (new_file v.next_ino mode uid gid content now);
                next_ino = v.next_ino + 1;
              })
              v.next_ino
              content
      made place e free =
          let at : IsAt v.inodes place = locate_parent-IsAt fuel v.inodes path cwd place e in
          (
            new_file v.next_ino mode uid gid content now,
            ground (
              arith,
              s.tree.keyed place.ino place.dir at.found,
              lookup-insert v.next_ino place.ino
                  (record (place.dir) {
                    mtime = now;
                    content = entries (insert (base_name path) v.next_ino place.names);
                  })
                  (insert v.next_ino (new_file v.next_ino mode uid gid content now) v.inodes),
              lookup-insert v.next_ino v.next_ino (new_file v.next_ino mode uid gid content now)
                  v.inodes,
            ),
            unfold is_file new_file in (rw (file_type-regular mode small) (unfold nat_eq in refl)),
            refl,
            refl,
          )

      go :
          (r : Result (Option Place))
          → locate_parent fuel v.inodes path cwd ≡ r
          → (create_file_at (base_name path) mode uid gid content now r v).1 ≡ ok (some i)
          → Holds (create_file_at (base_name path) mode uid gid content now r v).0 i content
      go (err f) e h = cc
      go (ok none) e h = cc
      go (ok (some place)) e h = elim (Option-cases (lookup (base_name path) place.names)) [
        | inl free ↦
            let same_number : v.next_ino ≡ i = ok_some (rw (free, create_file_at) at h) in
            subst
              (λ j.
                Holds
                  (create_file_at (base_name path) mode uid gid content now (ok (some place)) v).0 j
                  content)
              same_number (rw (free, create_file_at) (made place e free))
        | inr (k, taken) ↦
            rw (taken, create_file_at)
              (truncate-Holds k content now (lookup k v.inodes) v i
                (rw (taken, create_file_at) at h))
      ]
