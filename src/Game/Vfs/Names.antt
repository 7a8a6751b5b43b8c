-- ===== src/Game/Vfs/Names.antt =====
-- How game/core/vfs.py takes the last name off a path.
use poodillion.Prelude.{ℕ, suc, ◌≡◌, ◌≢◌, refl, [], ◌∷◌, nat_eq, text_eq, arith}
use poodillion.Prelude.Dict.{Dict}
use poodillion.Game.Vfs.Result.{ok}
use poodillion.Game.Vfs.Inode.{Text, Inode}
use poodillion.Game.Vfs.PathName.{slash, split, rstrip, parent_path, base_name}
use poodillion.Game.Vfs.State.{Vfs}
use poodillion.Game.Vfs.Resolve.{resolve, start}
use poodillion.Game.Vfs.Place.{locate_parent, place_at}
use poodillion.Game.Vfs.Create.{mkdir}

-- A name with no slash in it.
abbrev pub NoSlash : Text → Type 0
NoSlash [] = Unit
NoSlash (c ∷ s) = (c ≢ slash) × NoSlash s

split-NoSlash : (s : Text) → NoSlash s → split s ≡ s ∷ []
unfolding split
split-NoSlash [] h = refl
split-NoSlash (c ∷ s) h = ground (arith, split-NoSlash s h.1)

rstrip-NoSlash : (s : Text) → NoSlash s → rstrip s ≡ s
unfolding rstrip
rstrip-NoSlash [] h = refl
rstrip-NoSlash (c ∷ s) h = ground (arith, rstrip-NoSlash s h.1)

pub base_name-NoSlash : (s : Text) → NoSlash s → (base_name s ≡ s) × (parent_path s ≡ slash ∷ [])
unfolding base_name parent_path
base_name-NoSlash s h = rw (rstrip-NoSlash s h, split-NoSlash s h) (refl, refl)

-- A plain name is looked for in the current directory, but its parent is taken to be the root:
-- whatever the current directory, a creating operation works in the root.
pub locate_parent_ignores_cwd :
    (fuel : ℕ) (d : Dict ℕ Inode) (name : Text) (cwd : ℕ)
    → NoSlash name
    → locate_parent (suc fuel) d name cwd ≡ ok (place_at d 1)
unfolding locate_parent resolve start nat_eq
locate_parent_ignores_cwd fuel d name cwd h = rw ((base_name-NoSlash name h).1, locate_parent) refl

module _ {D : Type 0} where
  -- `mkdir` of a plain name does the same from every directory.
  pub mkdir_ignores_cwd :
      (fuel : ℕ) (name : Text) (mode uid gid cwd cwd' now : ℕ) (v : Vfs D)
      → NoSlash name
      → mkdir (suc fuel) name mode uid gid cwd now v ≡ mkdir (suc fuel) name mode uid gid cwd' now v
  unfolding mkdir
  mkdir_ignores_cwd fuel name mode uid gid cwd cwd' now v h =
      rw
        (
          locate_parent_ignores_cwd fuel v.inodes name cwd h,
          locate_parent_ignores_cwd fuel v.inodes name cwd' h,
        )
        refl
