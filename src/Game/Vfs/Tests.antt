-- ===== src/Game/Vfs/Tests.antt =====
-- Runs of the file system of game/core/vfs.py, and its theorems at concrete data.
use poodillion.Prelude.{
  ℕ, ◌%◌, true, ◌≡◌, ◌≢◌, ◌↔◌, ◌⊎◌, inl, inr, refl, ap, ◌∙◌, subst, none, some, List, [], ◌∷◌, ◌==◌,
  arith, nat_eq, text_eq, Bool-cases,
}
use poodillion.Prelude.Dict.{Dict, lookup, insert, erase}
use poodillion.Prelude.Int.{pos, ◌-ℤ◌}
use poodillion.Game.Vfs.Result.{ok, err, recursion_limit}
use poodillion.Game.Vfs.Inode.{
  Text, Inode, text_of, text, entries, is_file, is_dir, is_symlink, entries_of, permission_string,
}
use poodillion.Game.Vfs.PathName.{slash, dot, dot_dot, base_name, parent_path, parts}
use poodillion.Game.Vfs.State.{Vfs, entry, initial_vfs, new_directory}
use poodillion.Game.Vfs.Resolve.{resolve, link_target}
use poodillion.Game.Vfs.Place.{Place, locate_parent}
use poodillion.Game.Vfs.Create.{mkdir, create_file, symlink}
use poodillion.Game.Vfs.Remove.{unlink}
use poodillion.Game.Vfs.Tree.{IsTree}
use poodillion.Game.Vfs.Tree.Children.{IsSound}
use poodillion.Game.Vfs.Tree.Calls.{
  Call, makes_dir, makes_file, makes_link, unlinks, run_calls, run_calls-IsTree,
}
use poodillion.Game.Vfs.Returns.{LinksReturn, Returns, resolve-Returns}
use poodillion.Game.Vfs.Leads.{LeadsTo, AtMostDots}
use poodillion.Game.Vfs.Success.{mkdir_iff, unlink_iff}
use poodillion.Game.Vfs.Landing.{resolve_exists, resolve_loop}
use poodillion.Game.Vfs.Names.{mkdir_ignores_cwd}
use poodillion.Game.Vfs.ModeString.{read_permissions, read_permissions-permission_string}
use poodillion.Game.Vfs.Effects.{
  Unlinked, Made, Holds, unlink-Unlinked, mkdir-Made, create_file-Holds,
}

abbrev new : Vfs ℕ
new = initial_vfs [] 0 0

abbrev calls : List Call
calls =
    makes_dir (text_of "/etc") 0o755 0 0 1 1
    ∷ makes_file (text_of "/etc/motd") 0o644 0 0 (text_of "hi") 1 2
    ∷ makes_link (text_of "/loop") (text_of "/loop") 0 0 1 3
    ∷ makes_link (text_of "/etc") (text_of "/e") 0 0 1 4
    ∷ makes_file (text_of "/tmp") 0o644 0 0 [] 1 5
    ∷ unlinks (text_of "/tmp") 1 6
    ∷ unlinks (text_of "/etc") 1 7
    ∷ []

disk : Vfs ℕ
unfolding run_calls initial_vfs mkdir create_file symlink unlink locate_parent resolve base_name
    parent_path parts lookup insert erase nat_eq text_eq ◌-ℤ◌ entries_of is_symlink is_dir
disk = run_calls 8 calls new

run_calls-IsTree_example : IsTree (run_calls 8 calls new).inodes (run_calls 8 calls new).next_ino
run_calls-IsTree_example =
    run_calls-IsTree 8 calls [] 0 0
      (omega arith, (omega arith, (tt, (tt, (omega arith, (tt, (tt, tt)))))))

disk-IsSound : IsSound disk
unfolding disk
disk-IsSound = record { tree = run_calls-IsTree_example }

-- The file in the directory that could not be removed, through the link to the directory.
resolve_motd : resolve 3 disk.inodes (text_of "/e/motd") 1 true ≡ ok (some 3)
unfolding disk
resolve_motd = refl

root_there : lookup 1 disk.inodes ≢ none
unfolding disk
root_there e = cc

resolve_exists_example : lookup 3 disk.inodes ≢ none
resolve_exists_example =
    resolve_exists 3 disk.inodes disk.next_ino (text_of "/e/motd") 1 true 3 disk-IsSound.tree
      root_there resolve_motd

abbrev loop : Text
loop = text_of "loop"

link : Inode
link = record {
  ino = 4;
  mode = 0o120777;
  uid = 0;
  gid = 0;
  size = 5;
  atime = 3;
  mtime = 3;
  ctime = 3;
  nlink = pos 1;
  content = text (text_of "/loop");
}

loop_facts :
    (parts loop ≡ loop ∷ [])
    × (entry disk.inodes 1 loop ≡ some 4)
    × (lookup 4 disk.inodes ≡ some link)
    × (is_symlink link ≡ true)
    × (link.content ≡ text (slash ∷ loop))
unfolding disk link entry
loop_facts = (refl, refl, refl, refl, refl)

resolve_loop_example : resolve 1000 disk.inodes (slash ∷ loop) 1 true ≡ err recursion_limit
resolve_loop_example =
    resolve_loop 1000 disk.inodes loop 4 1 link loop_facts.0 loop_facts.1 loop_facts.2 loop_facts.3
      loop_facts.4

mkdir_ignores_cwd_example :
    mkdir 3 (text_of "new") 0o755 0 0 2 9 disk ≡ mkdir 3 (text_of "new") 0o755 0 0 1 9 disk
mkdir_ignores_cwd_example =
    mkdir_ignores_cwd 2 (text_of "new") 0o755 0 0 2 1 9 disk
      (omega arith, (omega arith, (omega arith, tt)))

read_permissions-permission_string_example :
    read_permissions (permission_string link) ≡ some (link.mode % 4096)
read_permissions-permission_string_example = read_permissions-permission_string link

unlinks_motd : (unlink 8 (text_of "/etc/motd") 1 9 disk).1 ≡ ok true
unfolding unlink locate_parent resolve base_name parent_path parts lookup insert erase nat_eq
    text_eq ◌-ℤ◌ entries_of is_symlink is_dir disk
unlinks_motd = refl

unlink-Unlinked_example :
    (place : Place) × (i : ℕ) × (locate_parent 8 disk.inodes (text_of "/etc/motd") 1
      ≡ ok (some place))
    × (lookup (base_name (text_of "/etc/motd")) place.names ≡ some i)
    × Unlinked disk
        (unlink 8 (text_of "/etc/motd") 1 9 disk).0
        place
        (base_name (text_of "/etc/motd"))
        i
unlink-Unlinked_example = unlink-Unlinked 8 (text_of "/etc/motd") 1 9 disk disk-IsSound unlinks_motd

makes_dir_d : (mkdir 8 (text_of "/e/d") 0o700 5 5 1 9 disk).1 ≡ ok true
unfolding mkdir unlink locate_parent resolve base_name parent_path parts lookup insert erase nat_eq
    text_eq ◌-ℤ◌ entries_of is_symlink is_dir disk
makes_dir_d = refl

mkdir-Made_example :
    (place : Place) × (locate_parent 8 disk.inodes (text_of "/e/d") 1 ≡ ok (some place))
    × (lookup (base_name (text_of "/e/d")) place.names ≡ none)
    × Made disk
        (mkdir 8 (text_of "/e/d") 0o700 5 5 1 9 disk).0
        place
        (base_name (text_of "/e/d"))
        (new_directory disk.next_ino place.ino 0o700 5 5 9)
mkdir-Made_example =
    mkdir-Made 8 (text_of "/e/d") 0o700 5 5 1 9 disk (omega arith) disk-IsSound makes_dir_d

truncates_motd : (create_file 8 (text_of "/e/motd") 0o600 5 5 [] 1 9 disk).1 ≡ ok (some 3)
unfolding create_file is_file unlink locate_parent resolve base_name parent_path parts lookup insert
    erase nat_eq text_eq ◌-ℤ◌ entries_of is_symlink is_dir disk
truncates_motd = refl

create_file-Holds_example : Holds (create_file 8 (text_of "/e/motd") 0o600 5 5 [] 1 9 disk).0 3 []
create_file-Holds_example =
    create_file-Holds 8 (text_of "/e/motd") 0o600 5 5 [] 1 9 disk 3 (omega arith) disk-IsSound
      truncates_motd

mkdir_iff_example :
    (((mkdir 8 (text_of "/e/d") 0o700 5 5 1 9 disk).1 ≡ ok true) ↔ (
      (names : Dict Text ℕ) × LeadsTo 8 disk.inodes (parent_path (text_of "/e/d")) 1 names
      × (lookup (base_name (text_of "/e/d")) names ≡ none)))
    × ((mkdir 8 (text_of "/e/d") 0o700 5 5 1 9 disk).1 ≢ ok true
        → (mkdir 8 (text_of "/e/d") 0o700 5 5 1 9 disk).0 ≡ disk)
mkdir_iff_example = mkdir_iff 8 (text_of "/e/d") 0o700 5 5 1 9 disk

unlink_iff_example :
    (((unlink 8 (text_of "/etc") 1 9 disk).1 ≡ ok true) ↔ (
      (base_name (text_of "/etc") ≢ dot)
      × (base_name (text_of "/etc") ≢ dot_dot)
      × (names : Dict Text ℕ) × (i : ℕ) × (x : Inode) × LeadsTo 8 disk.inodes
          (parent_path (text_of "/etc"))
          1
          names
      × (lookup (base_name (text_of "/etc")) names ≡ some i)
      × (lookup i disk.inodes ≡ some x)
      × AtMostDots x))
    × ((unlink 8 (text_of "/etc") 1 9 disk).1 ≢ ok true
        → (unlink 8 (text_of "/etc") 1 9 disk).0 ≡ disk)
unlink_iff_example = unlink_iff 8 (text_of "/etc") 1 9 disk

-- The root and a link to it.
abbrev root : Inode
root = record (new_directory 1 1 0o755 0 0 1) {
  content = entries ((dot, 1) ∷ (dot_dot, 1) ∷ (text_of "r", 2) ∷ []);
}

abbrev root_link : Inode
root_link = record link { ino = 2; size = 1; content = text (slash ∷ []) }

abbrev linked : Dict ℕ Inode
linked = (1, root) ∷ (2, root_link) ∷ []

lookup_cons :
    (i k : ℕ) (a x : Inode) (d : Dict ℕ Inode)
    → lookup i ((k, a) ∷ d) ≡ some x
    → (a ≡ x) ⊎ (lookup i d ≡ some x)
unfolding lookup
lookup_cons i k a x d h = elim (Bool-cases (i == k)) [
  | inl e ↦ inl (ground arith)
  | inr e ↦ inr (rw e at h)
]

no_target : (t : Text) → none ≢ some t
no_target t q = cc

some_text : (s t : Text) → some s ≡ some t → s ≡ t
some_text s t q = cc

root_resolves : resolve 1 linked (slash ∷ []) 1 true ≡ ok (some 1)
unfolding resolve nat_eq
root_resolves = refl

linked_returns : LinksReturn (λ t. resolve 1 linked t 1 true) linked
unfolding link_target link is_symlink nat_eq
linked_returns i x t h k = elim (lookup_cons i 1 root x ((2, root_link) ∷ []) h) [
  | inl e ↦ absurd (no_target t (ap (link_target true) e ∙ k))
  | inr h2 ↦ elim (lookup_cons i 2 root_link x [] h2) [
    | inl e ↦ (
      some 1,
      subst (λ (u : Text). resolve 1 linked u 1 true ≡ ok (some 1))
          (some_text (slash ∷ []) t (ap (link_target true) e ∙ k)) root_resolves,
    )
    | inr h3 ↦ absurd (nothing i x h3)
  ]
]
  where
    nothing : (i : ℕ) (x : Inode) → lookup {V = Inode} i [] ≢ some x
    nothing i x e = unfold lookup in cc

resolve-Returns_example : Returns (resolve 2 linked (text_of "/r/r/..") 1 true)
resolve-Returns_example = resolve-Returns 1 linked (text_of "/r/r/..") 1 true linked_returns
