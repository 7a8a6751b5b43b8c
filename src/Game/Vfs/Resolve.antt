-- ===== src/Game/Vfs/Resolve.antt =====
-- `_resolve_path` of game/core/vfs.py. Its recursion on symbolic links has no bound of its own:
-- `fuel` is the interpreter's limit on nested calls, past which a RecursionError is raised.
use poodillion.Prelude.{
  ℕ, zero, suc, Bool, true, ◌&&◌, ◌||◌, Option, none, some, List, [], ◌∷◌, ◌==◌, nat_eq, text_eq,
  if◌then◌else◌,
}
use poodillion.Prelude.Dict.{Dict, lookup}
use poodillion.Game.Vfs.Result.{Result, ok, err, recursion_limit}
use poodillion.Game.Vfs.Inode.{Text, Inode, text, is_symlink, entries_of}
use poodillion.Game.Vfs.PathName.{slash, dot, is_empty, parts}

-- The target of a symbolic link that is to be followed.
unfoldable pub link_target : Bool → Inode → Option Text
link_target follow x =
    let target : Option Text = elim x.content [ text t ↦ some t | _ ↦ none ] in
    if is_symlink x && follow then target else none

-- The recursive call, as `walk` makes it on the target of a link.
abbrev pub Call : Type 0
Call = Text → Result (Option ℕ)

module _ (call : Call) (d : Dict ℕ Inode) (follow : Bool) where
  -- The node at which the walk goes on: the inode itself, or what the call on its target finds.
  unfoldable pub through : Inode → Result (Option Inode)
  unfolding link_target
  through x = elim (link_target follow x) [
    | none ↦ ok (some x)
    | some t ↦ elim (call t) [ err e ↦ err e | ok none ↦ ok none | ok (some i) ↦ ok (lookup i d) ]
  ]

  -- The final resolution, once no part is left.
  unfoldable pub finish : ℕ → Result (Option ℕ)
  unfolding link_target
  finish current = elim (lookup current d) [
    | none ↦ ok (some current)
    | some x ↦ elim (link_target follow x) [ none ↦ ok (some current) | some t ↦ call t ]
  ]

  -- `entries[part]` of a directory.
  unfoldable pub step : Option Inode → Text → Result (Option ℕ)
  unfolding through
  step none part = ok none
  step (some x) part = elim (through x) [
    | err e ↦ err e
    | ok none ↦ ok none
    | ok (some y) ↦ elim (entries_of y) [ none ↦ ok none | some es ↦ ok (lookup part es) ]
  ]

  -- The loop over the parts.
  unfoldable pub walk : List Text → ℕ → Result (Option ℕ)
  unfolding step finish
  walk [] current = finish current
  walk (part ∷ ps) current = elim (step (lookup current d) part) [
    | err e ↦ err e
    | ok none ↦ ok none
    | ok (some next) ↦ walk ps next
  ]

-- Where the walk begins, and the path that is left.
unfoldable pub start : Text → ℕ → ℕ × Text
start [] cwd = (cwd, [])
start (c ∷ path) cwd = if c == slash then (1, path) else (cwd, c ∷ path)

-- One call of `_resolve_path`, over the calls that it makes.
unfoldable pub resolve_by : Call → Dict ℕ Inode → Text → ℕ → Bool → Result (Option ℕ)
unfolding walk start
resolve_by call d path cwd follow =
    let (current, rest) = start path cwd in
    if is_empty rest || rest == dot
    then ok (some current)
    else walk call d follow (parts rest) current

unfoldable pub resolve : ℕ → Dict ℕ Inode → Text → ℕ → Bool → Result (Option ℕ)
unfolding resolve_by
resolve zero d path cwd follow = err recursion_limit
resolve (suc n) d path cwd follow = resolve_by (λ t. resolve n d t cwd true) d path cwd follow
