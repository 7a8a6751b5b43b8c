-- ===== src/Game/Vfs/Leads.antt =====
-- What the search for a parent directory and the test for a full one in game/core/vfs.py find, in
-- terms of the table of inodes.
use poodillion.Prelude.{
  ℕ, ◌≤◌, true, false, ◌≡◌, refl, ap, ◌∙◌, ◌↔◌, inl, inr, Option, none, some, nat_eq, text_eq,
  length, arith, Option-cases,
}
use poodillion.Prelude.Dict.{Dict, lookup}
use poodillion.Game.Vfs.Result.{Result, ok, err}
use poodillion.Game.Vfs.Inode.{
  Text, Content, bytes, entries, text, Inode, file_type, directory_type, is_dir, entries_of,
}
use poodillion.Game.Vfs.PathName.{parent_path}
use poodillion.Game.Vfs.Resolve.{resolve}
use poodillion.Game.Vfs.Place.{Place, place_at, locate_parent}
use poodillion.Game.Vfs.Remove.{is_full}

-- A path leads to a directory with these entries: it resolves to an inode that is there, whose type
-- is that of a directory and whose content is the dict of the entries.
abbrev pub LeadsTo : ℕ → Dict ℕ Inode → Text → ℕ → Dict Text ℕ → Type 0
LeadsTo fuel d path cwd names =
    (i : ℕ) × (x : Inode) × (resolve fuel d path cwd true ≡ ok (some i))
    × (lookup i d ≡ some x)
    × (file_type x.mode ≡ directory_type)
    × (x.content ≡ entries names)

-- An inode is no directory with more names than `.` and `..`.
abbrev pub AtMostDots : Inode → Type 0
AtMostDots x =
    (names : Dict Text ℕ)
    → file_type x.mode ≡ directory_type
    → x.content ≡ entries names
    → length names ≤ 2

entries_of_iff :
    (x : Inode) (names : Dict Text ℕ)
    → (entries_of x ≡ some names)
      ↔ ((file_type x.mode ≡ directory_type) × (x.content ≡ entries names))
unfolding entries_of is_dir
entries_of_iff x names = from x.content refl
  where
    from :
        (c : Content)
        → x.content ≡ c
        → (entries_of x ≡ some names)
          ↔ ((file_type x.mode ≡ directory_type) × (x.content ≡ entries names))
    from (bytes bs) e = (λ h. absurd (ground arith), λ (f, g). absurd (ground arith))
    from (entries es) e = (λ h. (ground arith, ground arith), λ (f, g). ground arith)
    from (text t) e = (λ h. absurd (ground arith), λ (f, g). absurd (ground arith))

pub is_full-AtMostDots : (x : Inode) → (is_full x ≡ false) ↔ AtMostDots x
unfolding is_full
is_full-AtMostDots x = elim (Option-cases (entries_of x)) [
  | inl e ↦ (
    λ h names f g. absurd (ground (arith, (entries_of_iff x names).1 (f, g))),
    λ h. rw (e, is_full) refl,
  )
  | inr (es, e) ↦ (
    λ h names f g. ground (arith, (entries_of_iff x names).1 (f, g)),
    λ h.
        let (f, g) = (entries_of_iff x es).0 e in
        let few : length es ≤ 2 = h es f g in ground arith,
  )
]

module _ (fuel : ℕ) (d : Dict ℕ Inode) (path : Text) (cwd : ℕ) where
  pub located :
      (place : Place)
      → locate_parent fuel d path cwd ≡ ok (some place)
      → LeadsTo fuel d (parent_path path) cwd place.names
  unfolding locate_parent place_at
  located place h = found (resolve fuel d (parent_path path) cwd true) refl
    where
      found :
          (r : Result (Option ℕ))
          → resolve fuel d (parent_path path) cwd true ≡ r
          → LeadsTo fuel d (parent_path path) cwd place.names
      found (err x) e = absurd (ground arith)
      found (ok none) e = absurd (ground arith)
      found (ok (some i)) e = elim (Option-cases (lookup i d)) [
        | inl f ↦ absurd (ground arith)
        | inr (x, f) ↦ elim (Option-cases (entries_of x)) [
          | inl g ↦ absurd (ground arith)
          | inr (es, g) ↦
              let (a, b) = (entries_of_iff x es).0 g in
              let same : es ≡ place.names = ground arith in (i, x, e, f, a, b ∙ ap entries same)
        ]
      ]

  pub locates :
      (names : Dict Text ℕ)
      → LeadsTo fuel d (parent_path path) cwd names
      → (place : Place) × (locate_parent fuel d path cwd ≡ ok (some place)) × (place.names ≡ names)
  unfolding locate_parent place_at
  locates names (i, x, e, f, g, h) =
      let k : entries_of x ≡ some names = (entries_of_iff x names).1 (g, h) in
      (
        record { ino = i; dir = x; names = names },
        rw (e, locate_parent) (rw (f, place_at) (rw (k, place_at) refl)),
        refl,
      )
