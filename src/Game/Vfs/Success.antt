-- ===== src/Game/Vfs/Success.antt =====
-- When `mkdir` and `unlink` of game/core/vfs.py succeed.
use poodillion.Prelude.{
  ℕ, true, false, ◌||◌, ◌≡◌, refl, ap, ◌∙◌, ◌≢◌, ◌↔◌, inl, inr, Option, none, some, ◌==◌, nat_eq,
  text_eq, arith, Option-cases, Bool-cases,
}
use poodillion.Prelude.Dict.{Dict, lookup, has}
use poodillion.Game.Vfs.Result.{Result, ok, err}
use poodillion.Game.Vfs.Inode.{Text, Inode}
use poodillion.Game.Vfs.PathName.{dot, dot_dot, parent_path, base_name}
use poodillion.Game.Vfs.State.{Vfs, new_directory}
use poodillion.Game.Vfs.Place.{Place, locate_parent}
use poodillion.Game.Vfs.Create.{create_in, mkdir, touch_both}
use poodillion.Game.Vfs.Remove.{unlink, unlink_at, is_full}
use poodillion.Game.Vfs.Leads.{LeadsTo, AtMostDots, is_full-AtMostDots, located, locates}

same_place : (p q : Place) → ok (some p) ≡ ok (some q) → p ≡ q
same_place p q h = cc

module _ {D : Type 0} where
  create_in_iff :
      (touched : Inode → Inode) (child : ℕ → ℕ → Inode) (name : Text) (r : Result (Option Place))
      (v : Vfs D)
      → (((create_in touched child name r v).1 ≡ ok true)
          ↔ ((place : Place) × (r ≡ ok (some place)) × (lookup name place.names ≡ none)))
        × ((create_in touched child name r v).1 ≢ ok true
            → (create_in touched child name r v).0 ≡ v)
  unfolding create_in
  create_in_iff touched child name (err e) v = ((λ h. cc, λ (place, h, k). cc), λ h. refl)
  create_in_iff touched child name (ok none) v = ((λ h. cc, λ (place, h, k). cc), λ h. refl)
  create_in_iff touched child name (ok (some place)) v = elim (Bool-cases (has name place.names)) [
    | inl e ↦ (
      (λ h. absurd (ground arith), λ (p, h, k). absurd (ground (arith, same_place place p h))),
      λ h. rw e refl,
    )
    | inr e ↦ ((λ h. (place, refl, ground arith), λ h. rw e refl), λ h. absurd (ground arith))
  ]

  -- `mkdir` returns True exactly if the path without its last name leads, from `cwd`, to a directory
  -- in which the last name is free. When it does not return True it changes nothing.
  pub mkdir_iff :
      (fuel : ℕ) (path : Text) (mode uid gid cwd now : ℕ) (v : Vfs D)
      → (((mkdir fuel path mode uid gid cwd now v).1 ≡ ok true) ↔ (
          (names : Dict Text ℕ) × LeadsTo fuel v.inodes (parent_path path) cwd names
          × (lookup (base_name path) names ≡ none)))
        × ((mkdir fuel path mode uid gid cwd now v).1 ≢ ok true
            → (mkdir fuel path mode uid gid cwd now v).0 ≡ v)
  unfolding mkdir
  mkdir_iff fuel path mode uid gid cwd now v =
      let ((to, back), same) =
        create_in_iff (touch_both now) (λ ino parent. new_directory ino parent mode uid gid now)
          (base_name path) (locate_parent fuel v.inodes path cwd) v in
      (
        (
          λ h. let (place, e, f) = to h in (place.names, located fuel v.inodes path cwd place e, f),
          λ (names, l, f).
              let (place, e, g) = locates fuel v.inodes path cwd names l in
              back (place, e, ap (lookup (base_name path)) g ∙ f),
        ),
        same,
      )

  unlink_at_iff :
      (name : Text) (now : ℕ) (r : Result (Option Place)) (v : Vfs D)
      → (((unlink_at name now r v).1 ≡ ok true) ↔ (
          (place : Place) × (i : ℕ) × (x : Inode) × (r ≡ ok (some place))
          × (lookup name place.names ≡ some i)
          × (lookup i v.inodes ≡ some x)
          × (is_full x ≡ false)))
        × ((unlink_at name now r v).1 ≢ ok true → (unlink_at name now r v).0 ≡ v)
  unfolding unlink_at
  unlink_at_iff name now (err e) v = ((λ h. cc, λ (place, i, x, h, k, l, m). cc), λ h. refl)
  unlink_at_iff name now (ok none) v = ((λ h. cc, λ (place, i, x, h, k, l, m). cc), λ h. refl)
  unlink_at_iff name now (ok (some place)) v = elim (Option-cases (lookup name place.names)) [
    | inl e ↦ (
      (
        λ h. absurd (ground arith),
        λ (p, i, x, h, k, l, m). absurd (ground (arith, same_place place p h)),
      ),
      λ h. rw (e, unlink_at) refl,
    )
    | inr (j, e) ↦ elim (Option-cases (lookup j v.inodes)) [
      | inl f ↦ (
        (
          λ h. absurd (ground arith),
          λ (p, i, x, h, k, l, m). absurd (ground (arith, same_place place p h)),
        ),
        λ h. rw (e, unlink_at) (rw (f, unlink_at) refl),
      )
      | inr (y, f) ↦ elim (Bool-cases (is_full y)) [
        | inl full ↦ (
          (
            λ h. absurd (ground arith),
            λ (p, i, x, h, k, l, m). absurd (ground (arith, same_place place p h)),
          ),
          λ h. rw (e, unlink_at) (rw (f, unlink_at) (rw full refl)),
        )
        | inr empty ↦ (
          (
            λ h. (place, j, y, refl, e, f, empty),
            λ h. rw (e, unlink_at) (rw (f, unlink_at) (rw empty refl)),
          ),
          λ h. absurd (ground arith),
        )
      ]
    ]
  ]

  -- `unlink` returns True exactly if the last name of the path is not `.` or `..`, the path without
  -- it leads, from `cwd`, to a directory that has the name, and the name stands for an inode that
  -- exists and that is no directory with more than two names. When it does not return True it changes
  -- nothing.
  pub unlink_iff :
      (fuel : ℕ) (path : Text) (cwd now : ℕ) (v : Vfs D)
      → (((unlink fuel path cwd now v).1 ≡ ok true) ↔ (
          (base_name path ≢ dot)
          × (base_name path ≢ dot_dot)
          × (names : Dict Text ℕ) × (i : ℕ) × (x : Inode) × LeadsTo fuel v.inodes
              (parent_path path)
              cwd
              names
          × (lookup (base_name path) names ≡ some i)
          × (lookup i v.inodes ≡ some x)
          × AtMostDots x))
        × ((unlink fuel path cwd now v).1 ≢ ok true → (unlink fuel path cwd now v).0 ≡ v)
  unfolding unlink
  unlink_iff fuel path cwd now v =
      elim (Bool-cases (base_name path == dot || base_name path == dot_dot)) [
        | inl reserved ↦ (
          (λ h. absurd (ground arith), λ (a, b, names, i, x, l, f, g, k). absurd (ground arith)),
          λ h. rw reserved refl,
        )
        | inr plain ↦
            let ((to, back), same) =
              unlink_at_iff (base_name path) now (locate_parent fuel v.inodes path cwd) v in
            rw plain (
              (
                λ h.
                    let (p, i, x, e, f, g, k) = to h in
                    (
                      ground arith,
                      ground arith,
                      p.names,
                      i,
                      x,
                      located fuel v.inodes path cwd p e,
                      f,
                      g,
                      (is_full-AtMostDots x).0 k,
                    ),
                λ (a, b, names, i, x, l, f, g, k).
                    let (p, e, same_names) = locates fuel v.inodes path cwd names l in
                    back (
                      p,
                      i,
                      x,
                      e,
                      ap (lookup (base_name path)) same_names ∙ f,
                      g,
                      (is_full-AtMostDots x).1 k,
                    ),
              ),
              same,
            )
      ]
