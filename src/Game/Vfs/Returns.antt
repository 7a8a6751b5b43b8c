-- ===== src/Game/Vfs/Returns.antt =====
-- When `_resolve_path` of game/core/vfs.py returns.
use poodillion.Prelude.{
  ℕ, suc, Bool, true, ◌||◌, ◌≡◌, inl, inr, none, some, List, [], ◌∷◌, ◌==◌, nat_eq, text_eq, arith,
  Option-cases, Bool-cases,
}
use poodillion.Prelude.Dict.{Dict, lookup}
use poodillion.Game.Vfs.Result.{Result, ok}
use poodillion.Game.Vfs.Inode.{Text, Inode, entries_of}
use poodillion.Game.Vfs.PathName.{dot, is_empty, parts}
use poodillion.Game.Vfs.Resolve.{
  Call, link_target, through, finish, step, walk, start, resolve_by, resolve,
}
use poodillion.Game.Vfs.Walk.{resolve-eq-resolve_by}

abbrev pub Returns {ℓ} : {A : Type ℓ} → Result A → Type ℓ
Returns {A} r = (a : A) × (r ≡ ok a)

-- Every link that is to be followed leads somewhere or nowhere, but the call on it returns.
abbrev pub LinksReturn : Call → Dict ℕ Inode → Type 0
LinksReturn call d =
    (i : ℕ) (x : Inode) (t : Text)
    → lookup i d ≡ some x
    → link_target true x ≡ some t
    → Returns (call t)

module _ (call : Call) (d : Dict ℕ Inode) (follow : Bool) (links : LinksReturn call d) where
  followed : (x : Inode) (t : Text) → link_target follow x ≡ some t → link_target true x ≡ some t
  unfolding link_target
  followed x t h = ground arith

  through-Returns : (i : ℕ) (x : Inode) → lookup i d ≡ some x → Returns (through call d follow x)
  unfolding through
  through-Returns i x e = elim (Option-cases (link_target follow x)) [
    | inl n ↦ (some x, ground arith)
    | inr (t, n) ↦
        let (o, r) = links i x t e (followed x t n) in
        elim (Option-cases o) [
          | inl f ↦ (none, ground arith)
          | inr (j, f) ↦ (lookup j d, ground arith)
        ]
  ]

  step-Returns : (i : ℕ) (p : Text) → Returns (step call d follow (lookup i d) p)
  unfolding step
  step-Returns i p = elim (Option-cases (lookup i d)) [
    | inl e ↦ (none, ground arith)
    | inr (x, e) ↦
        let (o, r) = through-Returns i x e in
        elim (Option-cases o) [
          | inl f ↦ (none, ground arith)
          | inr (y, f) ↦ elim (Option-cases (entries_of y)) [
            | inl g ↦ (none, ground arith)
            | inr (es, g) ↦ (lookup p es, ground arith)
          ]
        ]
  ]

  finish-Returns : (i : ℕ) → Returns (finish call d follow i)
  unfolding finish
  finish-Returns i = elim (Option-cases (lookup i d)) [
    | inl e ↦ (some i, ground arith)
    | inr (x, e) ↦ elim (Option-cases (link_target follow x)) [
      | inl n ↦ (some i, ground arith)
      | inr (t, n) ↦ let (o, r) = links i x t e (followed x t n) in (o, ground arith)
    ]
  ]

  walk-Returns : (ps : List Text) (i : ℕ) → Returns (walk call d follow ps i)
  unfolding walk
  walk-Returns [] i = finish-Returns i
  walk-Returns (p ∷ ps) i =
      let (o, r) = step-Returns i p in
      elim (Option-cases o) [
        | inl f ↦ (none, ground arith)
        | inr (j, f) ↦ let (a, w) = walk-Returns ps j in (a, ground arith)
      ]

  resolve_by-Returns : (path : Text) (cwd : ℕ) → Returns (resolve_by call d path cwd follow)
  unfolding resolve_by
  resolve_by-Returns path cwd =
      elim (Bool-cases (is_empty (start path cwd).1 || (start path cwd).1 == dot)) [
        | inl done ↦ (some (start path cwd).0, ground arith)
        | inr more ↦
            let (a, w) = walk-Returns (parts (start path cwd).1) (start path cwd).0 in
            (a, ground arith)
      ]

-- If the texts of all links resolve, to an inode or to none, within a number of nested calls, every
-- path resolves within one call more.
pub resolve-Returns :
    (n : ℕ) (d : Dict ℕ Inode) (path : Text) (cwd : ℕ) (follow : Bool)
    → LinksReturn (λ t. resolve n d t cwd true) d
    → Returns (resolve (suc n) d path cwd follow)
resolve-Returns n d path cwd follow links =
    rw resolve-eq-resolve_by
      (resolve_by-Returns (λ t. resolve n d t cwd true) d follow links path cwd)
