-- ===== src/Game/Vfs/Landing.antt =====
-- Where `_resolve_path` of game/core/vfs.py leads: to inodes that exist, or nowhere.
use poodillion.Prelude.{
  ℕ, zero, suc, Bool, true, false, ◌||◌, ◌≡◌, ◌≢◌, inl, inr, none, some, List, [], ◌∷◌, ◌==◌,
  nat_eq, text_eq, arith, Option-cases, Bool-cases, subst, ◌∙◌,
}
use poodillion.Prelude.Dict.{Dict, lookup}
use poodillion.Game.Vfs.Result.{ok, err, recursion_limit}
use poodillion.Game.Vfs.Inode.{Text, Inode, text, is_symlink, is_dir, entries_of}
use poodillion.Game.Vfs.PathName.{slash, dot, is_empty, parts, split}
use poodillion.Game.Vfs.State.{entry}
use poodillion.Game.Vfs.Resolve.{
  Call, link_target, through, finish, step, walk, start, resolve_by, resolve,
}
use poodillion.Game.Vfs.Tree.{IsTree, entry-some}
use poodillion.Game.Vfs.Walk.{Result-cases, resolve-zero, resolve-eq-resolve_by}

-- A call leads to an inode that exists.
abbrev Lands : Dict ℕ Inode → Call → Type 0
Lands d call = (t : Text) (i : ℕ) → call t ≡ ok (some i) → lookup i d ≢ none

module _ (call : Call) (d : Dict ℕ Inode) (next : ℕ) (follow : Bool) (t : IsTree d next)
    (lands : Lands d call) where
  through-entry :
      (x y : Inode) (i j : ℕ) (p : Text)
      → lookup i d ≡ some x
      → through call d follow x ≡ ok (some y)
      → (k : ℕ) × (lookup k d ≡ some y)
  unfolding through
  through-entry x y i j p here h = elim (Option-cases (link_target follow x)) [
    | inl e ↦ (i, ground arith)
    | inr (u, e) ↦ elim (Result-cases (call u)) [
      | inl (f, g) ↦ absurd (ground arith)
      | inr (none, g) ↦ absurd (ground arith)
      | inr (some k, g) ↦ (k, ground arith)
    ]
  ]

  step-lands :
      (i j : ℕ) (p : Text)
      → lookup i d ≢ none
      → step call d follow (lookup i d) p ≡ ok (some j)
      → lookup j d ≢ none
  unfolding step
  step-lands i j p here h = elim (Option-cases (lookup i d)) [
    | inl e ↦ absurd (here e)
    | inr (x, e) ↦ elim (Result-cases (through call d follow x)) [
      | inl (f, g) ↦ absurd (ground arith)
      | inr (none, g) ↦ absurd (ground arith)
      | inr (some y, g) ↦
          let (k, f) = through-entry x y i j p e g in t.linked k p j (unfold entry in ground arith)
    ]
  ]

  finish-lands :
      (i j : ℕ) → lookup i d ≢ none → finish call d follow i ≡ ok (some j) → lookup j d ≢ none
  unfolding finish
  finish-lands i j here h = elim (Option-cases (lookup i d)) [
    | inl e ↦ absurd (here e)
    | inr (x, e) ↦ elim (Option-cases (link_target follow x)) [
      | inl f ↦ ground arith
      | inr (u, f) ↦ lands u j (ground arith)
    ]
  ]

  walk-lands :
      (ps : List Text) (i j : ℕ)
      → lookup i d ≢ none
      → walk call d follow ps i ≡ ok (some j)
      → lookup j d ≢ none
  unfolding walk
  walk-lands [] i j here h = finish-lands i j here h
  walk-lands (p ∷ ps) i j here h = elim (Result-cases (step call d follow (lookup i d) p)) [
    | inl (f, g) ↦ absurd (ground arith)
    | inr (none, g) ↦ absurd (ground arith)
    | inr (some k, g) ↦ walk-lands ps k j (step-lands i k p here g) (ground arith)
  ]

root_exists : (d : Dict ℕ Inode) (next : ℕ) → IsTree d next → lookup 1 d ≢ none
root_exists d next t e = t.linked 1 dot 1 t.root e

start_exists :
    (d : Dict ℕ Inode) (next : ℕ) (path : Text) (cwd : ℕ)
    → IsTree d next
    → lookup cwd d ≢ none
    → lookup (start path cwd).0 d ≢ none
unfolding start
start_exists d next [] cwd t here = here
start_exists d next (c ∷ path) cwd t here = ground (arith, root_exists d next t)

resolve_by-Lands :
    (call : Call) (d : Dict ℕ Inode) (next : ℕ) (path : Text) (cwd : ℕ) (follow : Bool) (i : ℕ)
    → IsTree d next
    → lookup cwd d ≢ none
    → Lands d call
    → resolve_by call d path cwd follow ≡ ok (some i)
    → lookup i d ≢ none
unfolding resolve_by
resolve_by-Lands call d next path cwd follow i t here lands g =
    elim (Bool-cases (is_empty (start path cwd).1 || (start path cwd).1 == dot)) [
      | inl done ↦
          subst (λ k. lookup k d ≢ none) (ground arith) (start_exists d next path cwd t here)
      | inr more ↦
          walk-lands call d next follow t lands (parts (start path cwd).1) (start path cwd).0 i
            (start_exists d next path cwd t here) (rw more at g)
    ]

-- In a tree, from a current directory that exists, a resolution that returns a number returns that
-- of an inode that exists.
pub resolve_exists :
    (n : ℕ) (d : Dict ℕ Inode) (next : ℕ) (path : Text) (cwd : ℕ) (follow : Bool) (i : ℕ)
    → IsTree d next
    → lookup cwd d ≢ none
    → resolve n d path cwd follow ≡ ok (some i)
    → lookup i d ≢ none
resolve_exists zero d next path cwd follow i t here h = cc (resolve-zero d path cwd follow)
resolve_exists (suc n) d next path cwd follow i t here h =
    resolve_by-Lands (λ u. resolve n d u cwd true) d next path cwd follow i t here
      (λ u j e. resolve_exists n d next u cwd true j t here e) (rw resolve-eq-resolve_by at h)

-- A directory is no link.
dir_no_link :
    (x : Inode) (es : Dict Text ℕ) (follow : Bool)
    → entries_of x ≡ some es
    → link_target follow x ≡ none
unfolding entries_of is_dir link_target is_symlink
dir_no_link x es follow h = ground arith

plain_part : (name : Text) → parts name ≡ name ∷ [] → (is_empty name || name == dot) ≡ false
plain_part [] h = unfold parts split in cc
plain_part (c ∷ s) h = elim (Bool-cases ((c ∷ s) == dot)) [
  | inl e ↦ absurd (dot_no_part (subst (λ t. parts t ≡ t ∷ []) (ground arith) h))
  | inr e ↦ ground arith
]
  where
    dot_no_part : parts dot ≢ dot ∷ []
    dot_no_part e = unfold parts split text_eq nat_eq in cc

-- One round of the loop: the root names the link, and the link's text is the path again.
loop_step :
    (call : Call) (d : Dict ℕ Inode) (name : Text) (i : ℕ) (x : Inode)
    → entry d 1 name ≡ some i
    → lookup i d ≡ some x
    → is_symlink x ≡ true
    → x.content ≡ text (slash ∷ name)
    → walk call d true (name ∷ []) 1 ≡ call (slash ∷ name)
unfolding walk
loop_step call d name i x named here link target =
    let (r, es, a, b, c) = entry-some d 1 name i named in
    let plain : link_target true r ≡ none = dir_no_link r es true b in ground (arith, plain)

-- A symbolic link in the root that leads to its own name exhausts the stack, however deep: the
-- resolution of `/name` never returns.
pub resolve_loop :
    (n : ℕ) (d : Dict ℕ Inode) (name : Text) (i cwd : ℕ) (x : Inode)
    → parts name ≡ name ∷ []
    → entry d 1 name ≡ some i
    → lookup i d ≡ some x
    → is_symlink x ≡ true
    → x.content ≡ text (slash ∷ name)
    → resolve n d (slash ∷ name) cwd true ≡ err recursion_limit
resolve_loop zero d name i cwd x single named here link target =
    resolve-zero d (slash ∷ name) cwd true
resolve_loop (suc n) d name i cwd x single named here link target =
    rw resolve-eq-resolve_by (opened ∙ resolve_loop n d name i cwd x single named here link target)
  where
    opened :
        resolve_by (λ t. resolve n d t cwd true) d (slash ∷ name) cwd true
        ≡ resolve n d (slash ∷ name) cwd true
    opened =
        unfold resolve_by start in
        ground (
          arith,
          plain_part name single,
          loop_step (λ t. resolve n d t cwd true) d name i x named here link target,
        )
