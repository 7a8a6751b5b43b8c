-- ===== src/Game/Vfs/Walk.antt =====
-- What `_resolve_path` of game/core/vfs.py finds, and how deep it goes.
use poodillion.Prelude.{
  ℕ, zero, suc, ◌+◌, Bool, true, ◌||◌, ◌≡◌, refl, ◌⊎◌, inl, inr, Option, none, some, List, [], ◌∷◌,
  ◌==◌, nat_eq, text_eq, arith, Option-cases, Bool-cases, sym, ◌∙◌,
}
use native.Mathlib.Nat.{zero-add, suc-add}
use poodillion.Prelude.Dict.{Dict, lookup}
use poodillion.Game.Vfs.Result.{Fault, Result, ok, err, recursion_limit}
use poodillion.Game.Vfs.Inode.{Text, Inode}
use poodillion.Game.Vfs.PathName.{dot, is_empty, parts}
use poodillion.Game.Vfs.Resolve.{
  Call, link_target, through, finish, step, walk, start, resolve_by, resolve,
}

-- A deeper call agrees with a shallower one wherever that one returns.
abbrev Refines : Call → Call → Type 0
Refines a b = (t : Text) (r : Option ℕ) → a t ≡ ok r → b t ≡ ok r

pub Result-cases {ℓ} :
    {A : Type ℓ} (r : Result A) → ((e : Fault) × (r ≡ err e)) ⊎ ((a : A) × (r ≡ ok a))
Result-cases (err e) = inl (e, refl)
Result-cases (ok a) = inr (a, refl)

module _ (a b : Call) (d : Dict ℕ Inode) (follow : Bool) (deeper : Refines a b) where
  through_mono :
      (x : Inode) (r : Option Inode) → through a d follow x ≡ ok r → through b d follow x ≡ ok r
  unfolding through
  through_mono x r h = elim (Option-cases (link_target follow x)) [
    | inl e ↦ rw (e, through) (rw (e, through) at h)
    | inr (t, e) ↦ elim (Result-cases (a t)) [
      | inl (f, g) ↦ absurd (ground arith)
      | inr (o, g) ↦ ground (arith, deeper t o g)
    ]
  ]

  finish_mono : (i : ℕ) (r : Option ℕ) → finish a d follow i ≡ ok r → finish b d follow i ≡ ok r
  unfolding finish
  finish_mono i r h = elim (Option-cases (lookup i d)) [
    | inl e ↦ ground arith
    | inr (x, e) ↦ elim (Option-cases (link_target follow x)) [
      | inl f ↦ ground arith
      | inr (t, f) ↦ ground (arith, deeper t r)
    ]
  ]

  step_mono :
      (o : Option Inode) (p : Text) (r : Option ℕ)
      → step a d follow o p ≡ ok r
      → step b d follow o p ≡ ok r
  unfolding step
  step_mono none p r h = h
  step_mono (some x) p r h = elim (Result-cases (through a d follow x)) [
    | inl (f, g) ↦ absurd (ground arith)
    | inr (o, g) ↦ ground (arith, through_mono x o g)
  ]

  walk_mono :
      (ps : List Text) (i : ℕ) (r : Option ℕ)
      → walk a d follow ps i ≡ ok r
      → walk b d follow ps i ≡ ok r
  unfolding walk
  walk_mono [] i r h = finish_mono i r h
  walk_mono (p ∷ ps) i r h = elim (Result-cases (step a d follow (lookup i d) p)) [
    | inl (f, g) ↦ absurd (ground arith)
    | inr (none, g) ↦ ground (arith, step_mono (lookup i d) p none g)
    | inr (some k, g) ↦ ground (arith, step_mono (lookup i d) p (some k) g, walk_mono ps k r)
  ]

  resolve_by_mono :
      (path : Text) (cwd : ℕ) (r : Option ℕ)
      → resolve_by a d path cwd follow ≡ ok r
      → resolve_by b d path cwd follow ≡ ok r
  unfolding resolve_by
  resolve_by_mono path cwd r h =
      elim (Bool-cases (is_empty (start path cwd).1 || (start path cwd).1 == dot)) [
        | inl done ↦ rw done (rw done at h)
        | inr more ↦
            rw more (walk_mono (parts (start path cwd).1) (start path cwd).0 r (rw more at h))
      ]

pub resolve-zero :
    (d : Dict ℕ Inode) (path : Text) (cwd : ℕ) (follow : Bool)
    → resolve 0 d path cwd follow ≡ err recursion_limit
unfolding resolve
resolve-zero d path cwd follow = refl

pub resolve-eq-resolve_by :
    (n : ℕ) (d : Dict ℕ Inode) (path : Text) (cwd : ℕ) (follow : Bool)
    → resolve (suc n) d path cwd follow ≡ resolve_by (λ t. resolve n d t cwd true) d path cwd follow
unfolding resolve
resolve-eq-resolve_by n d path cwd follow = refl

resolve-suc :
    (n : ℕ) (d : Dict ℕ Inode) (path : Text) (cwd : ℕ) (follow : Bool) (r : Option ℕ)
    → resolve n d path cwd follow ≡ ok r
    → resolve (suc n) d path cwd follow ≡ ok r
resolve-suc zero d path cwd follow r h = cc (resolve-zero d path cwd follow)
resolve-suc (suc n) d path cwd follow r h =
    resolve-eq-resolve_by (suc n) d path cwd follow
    ∙ resolve_by_mono (λ t. resolve n d t cwd true) (λ t. resolve (suc n) d t cwd true) d follow
        (λ t o e. resolve-suc n d t cwd true o e) path cwd r
        (sym (resolve-eq-resolve_by n d path cwd follow) ∙ h)

-- More fuel never changes what a resolution returns.
pub resolve-add :
    (k n : ℕ) (d : Dict ℕ Inode) (path : Text) (cwd : ℕ) (follow : Bool) (r : Option ℕ)
    → resolve n d path cwd follow ≡ ok r
    → resolve (k + n) d path cwd follow ≡ ok r
resolve-add zero n d path cwd follow r h = rw zero-add h
resolve-add (suc k) n d path cwd follow r h =
    rw suc-add (resolve-suc (k + n) d path cwd follow r (resolve-add k n d path cwd follow r h))
