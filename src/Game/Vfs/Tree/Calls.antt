-- ===== src/Game/Vfs/Tree/Calls.antt =====
-- Any sequence of calls on a new file system of game/core/vfs.py.
use poodillion.Prelude.{
  ℕ, ◌<◌, Bool, ◌≡◌, refl, ◌≢◌, ◌⊎◌, inl, inr, none, some, List, [], ◌∷◌, ◌==◌, nat_eq, text_eq,
  if◌then◌else◌, arith,
}
use poodillion.Prelude.Dict.{Dict, lookup, insert, lookup-insert, lookup-nil}
use poodillion.Game.Vfs.Inode.{Text, Bytes, Inode}
use poodillion.Game.Vfs.PathName.{dot, dot_dot}
use poodillion.Game.Vfs.State.{Vfs, Handler, entry, new_directory, initial_vfs}
use poodillion.Game.Vfs.Create.{mkdir, symlink, create_device, create_file}
use poodillion.Game.Vfs.Access.{read_file, write_file, list_dir}
use poodillion.Game.Vfs.Remove.{unlink}
use poodillion.Game.Vfs.Tree.{Proper, IsTree}
use poodillion.Game.Vfs.Tree.Children.{IsSound, entries_of-new_directory, two_names_only}
use poodillion.Game.Vfs.Tree.Creating.{
  mkdir-IsSound, symlink-IsSound, create_device-IsSound, create_file-IsSound,
}
use poodillion.Game.Vfs.Tree.Runs.{
  read_file-IsSound, write_file-IsSound, list_dir-IsSound, unlink-IsSound,
}

abbrev root_names : Dict Text ℕ
root_names = (dot, 1) ∷ (dot_dot, 1) ∷ []

module _ (now : ℕ) where
  root_only : Dict ℕ Inode
  root_only = insert 1 (new_directory 1 1 0o755 0 0 now) []

  lookup-root_only :
      (i : ℕ)
      → lookup i root_only ≡ (if i == 1 then some (new_directory 1 1 0o755 0 0 now) else none)
  unfolding root_only
  lookup-root_only i =
      ground
        (arith, lookup-insert i 1 (new_directory 1 1 0o755 0 0 now) [], lookup-nil {V = Inode} i)

  entry-root_only :
      (i : ℕ) (n : Text) → entry root_only i n ≡ (if i == 1 then lookup n root_names else none)
  unfolding entry
  entry-root_only i n =
      ground (arith, lookup-root_only i, entries_of-new_directory 1 1 0o755 0 0 now (omega arith))

  root_only-names :
      (i : ℕ) (n : Text) (j : ℕ)
      → entry root_only i n ≡ some j
      → (i ≡ 1) × (j ≡ 1) × ((n ≡ dot) ⊎ (n ≡ dot_dot))
  root_only-names i n j h = ground (arith, entry-root_only i n, two_names_only 1 1 n j)

  root_only-improper : (i : ℕ) (n : Text) (j : ℕ) → Proper n → entry root_only i n ≢ some j
  root_only-improper i n j proper h = elim ((root_only-names i n j h).2) [
    | inl e ↦ proper.0 e
    | inr e ↦ proper.1 e
  ]

  root_only-IsTree : IsTree root_only 2
  root_only-IsTree = record {
    keyed = λ i x h. ground (arith, lookup-root_only i);
    root = ground (arith, entry-root_only 1 dot, dots.0);
    dicts = λ i x h isdir.
        ground
          (arith, lookup-root_only i, entries_of-new_directory 1 1 0o755 0 0 now (omega arith));
    dots = λ i x es h f.
        ground (
          arith,
          lookup-root_only i,
          entries_of-new_directory 1 1 0o755 0 0 now (omega arith),
          dots,
        );
    linked = λ i n j h. ground (arith, lookup-root_only j, root_only-names i n j h);
    unique = λ i n i' n' j p p' h h'. absurd (root_only-improper i n j p h);
    not_root = λ i n p h. root_only-improper i n 1 p h;
    up = λ i p ne h. absurd (ne (root_only-names i dot_dot p h).0);
    root_up = λ p h. (root_only-names 1 dot_dot p h).1;
  }
    where
      dots : (lookup dot root_names ≡ some 1) × (lookup dot_dot root_names ≡ some 1)
      dots = unfold lookup text_eq in (refl, refl)

-- The calls that change the state, with their arguments; the last number is the clock.
pub data Call : Type 0 where
  makes_dir : Text → ℕ → ℕ → ℕ → ℕ → ℕ → Call
  makes_file : Text → ℕ → ℕ → ℕ → Bytes → ℕ → ℕ → Call
  makes_link : Text → Text → ℕ → ℕ → ℕ → ℕ → Call
  makes_device : Text → Bool → ℕ → ℕ → ℕ → Text → ℕ → Call
  reads : Text → ℕ → ℕ → ℕ → Call
  writes : Text → Bytes → ℕ → ℕ → Call
  lists : Text → ℕ → ℕ → Call
  unlinks : Text → ℕ → ℕ → Call

-- Modes are permission bits: the callers leave the file type to the operations.
abbrev pub PlainMode : Call → Type 0
PlainMode (makes_dir _ mode _ _ _ _) = mode < 4096
PlainMode (makes_file _ mode _ _ _ _ _) = mode < 4096
PlainMode _ = Unit

abbrev pub PlainModes : List Call → Type 0
PlainModes [] = Unit
PlainModes (c ∷ cs) = PlainMode c × PlainModes cs

module _ {D : Type 0} (fuel : ℕ) where
  unfoldable pub run_call : Call → Vfs D → Vfs D
  run_call (makes_dir path mode uid gid cwd now) v = (mkdir fuel path mode uid gid cwd now v).0
  run_call (makes_file path mode uid gid content cwd now) v =
      (create_file fuel path mode uid gid content cwd now v).0
  run_call (makes_link target path uid gid cwd now) v =
      (symlink fuel target path uid gid cwd now v).0
  run_call (makes_device path is_char uid gid cwd name now) v =
      (create_device fuel path is_char uid gid cwd name now v).0
  run_call (reads path cwd size now) v = (read_file fuel path cwd size now v).0
  run_call (writes path content cwd now) v = (write_file fuel path content cwd now v).0
  run_call (lists path cwd now) v = (list_dir fuel path cwd now v).0
  run_call (unlinks path cwd now) v = (unlink fuel path cwd now v).0

  unfoldable pub run_calls : List Call → Vfs D → Vfs D
  unfolding run_call
  run_calls [] v = v
  run_calls (c ∷ cs) v = run_calls cs (run_call c v)

  run_call-IsSound : (c : Call) (v : Vfs D) → PlainMode c → IsSound v → IsSound (run_call c v)
  unfolding run_call
  run_call-IsSound (makes_dir path mode uid gid cwd now) v small s =
      mkdir-IsSound fuel path mode uid gid cwd now v small s
  run_call-IsSound (makes_file path mode uid gid content cwd now) v small s =
      create_file-IsSound fuel path mode uid gid content cwd now v small s
  run_call-IsSound (makes_link target path uid gid cwd now) v _ s =
      symlink-IsSound fuel target path uid gid cwd now v s
  run_call-IsSound (makes_device path is_char uid gid cwd name now) v _ s =
      create_device-IsSound fuel path is_char uid gid cwd name now v s
  run_call-IsSound (reads path cwd size now) v _ s = read_file-IsSound fuel path cwd size now v s
  run_call-IsSound (writes path content cwd now) v _ s =
      write_file-IsSound fuel path content cwd now v s
  run_call-IsSound (lists path cwd now) v _ s = list_dir-IsSound fuel path cwd now v s
  run_call-IsSound (unlinks path cwd now) v _ s = unlink-IsSound fuel path cwd now v s

  run_calls-IsSound_from :
      (cs : List Call) (v : Vfs D) → PlainModes cs → IsSound v → IsSound (run_calls cs v)
  unfolding run_calls
  run_calls-IsSound_from [] v plain s = s
  run_calls-IsSound_from (c ∷ cs) v plain s =
      run_calls-IsSound_from cs (run_call c v) plain.1 (run_call-IsSound c v plain.0 s)

  -- After any calls on a new file system whose modes are below 0o10000, whatever the calls return,
  -- the inodes form a tree: every name leads to an inode that exists, no inode has two names, and
  -- `.` and `..` are right.
  pub run_calls-IsTree :
      (cs : List Call) (handlers : Dict Text (Handler D)) (devices : D) (now : ℕ)
      → PlainModes cs
      → let v : Vfs D = run_calls cs (initial_vfs handlers devices now) in
        IsTree v.inodes v.next_ino
  run_calls-IsTree cs handlers devices now plain =
      (run_calls-IsSound_from cs (initial_vfs handlers devices now) plain
        (unfold initial_vfs root_only in record { tree = root_only-IsTree now })).tree
