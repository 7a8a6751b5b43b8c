-- ===== src/Game/Vfs/Tree/Attach.antt =====
-- A new entry keeps the tree of game/core/vfs.py.
use poodillion.Prelude.{
  ℕ, ◌+◌, ◌<◌, true, ◌&&◌, ◌≡◌, ◌≢◌, ◌⊎◌, inl, inr, none, some, ◌==◌, nat_eq, text_eq,
  if◌then◌else◌, arith, Option-cases, sym, ap, ◌∙◌,
}
use poodillion.Prelude.Int.{pos}
use poodillion.Prelude.Dict.{Dict, lookup, insert, lookup-insert}
use poodillion.Game.Vfs.Inode.{Text, Inode, entries, is_dir, entries_of}
use poodillion.Game.Vfs.PathName.{dot, dot_dot}
use poodillion.Game.Vfs.State.{entry}
use poodillion.Game.Vfs.Place.{Place, attach}
use poodillion.Game.Vfs.Tree.{Proper, IsTree, inside, IsChild, IsAt, SameNode}

module _ (d : Dict ℕ Inode) (new : ℕ) (place : Place) (dir' : Inode) (name : Text) (c : Inode)
    (t : IsTree d new) (at : IsAt d place) (same : SameNode place.dir dir')
    (free : lookup name place.names ≡ none) (child : IsChild c new place.ino) where
  dir'' : Inode
  dir'' = record dir' { content = entries (insert name new place.names) }

  entries_of-dir'' : entries_of dir'' ≡ some (insert name new place.names)
  unfolding dir'' entries_of is_dir
  entries_of-dir'' = ground (arith, at.names, same.mode)

  lookup-attach :
      (i : ℕ)
      → lookup i (attach d place dir' name new c)
        ≡ (if i == place.ino then some dir'' else if i == new then some c else lookup i d)
  unfolding attach dir''
  lookup-attach i =
      ground (arith, lookup-insert i place.ino dir'' (insert new c d), lookup-insert i new c d)

  fresh : lookup new d ≡ none
  fresh = elim (Option-cases (lookup new d)) [
    | inl e ↦ e
    | inr (x, e) ↦ absurd (ground (arith, t.keyed new x e))
  ]

  old_place : place.ino < new
  old_place = (t.keyed place.ino place.dir at.found).1

  entry-place : (m : Text) → entry d place.ino m ≡ lookup m place.names
  unfolding entry
  entry-place m = ground (arith, at.found, at.names)

  entry-new : (m : Text) → entry d new m ≡ none
  unfolding entry
  entry-new m = ground (arith, fresh)

  pub entry-attach :
      (i : ℕ) (m : Text)
      → entry (attach d place dir' name new c) i m ≡ (
          if i == place.ino && m == name
          then some new
          else if i == new
          then inside c m
          else entry d i m)
  unfolding entry
  entry-attach i m = ground (
    arith,
    lookup-attach i,
    entries_of-dir'',
    lookup-insert m name new place.names,
    entry-place m,
    old_place,
    at.found,
    at.names,
  )

  -- The new tree.
  d' : Dict ℕ Inode
  d' = attach d place dir' name new c

  name-Proper : Proper name
  name-Proper =
      let dots : (lookup dot place.names ≡ some place.ino) × (lookup dot_dot place.names ≢ none) =
        t.dots place.ino place.dir place.names at.found at.names in
      (λ e. ground arith, λ e. dots.1 (rw e at free))

  keyed' :
      (i : ℕ) (x : Inode) → lookup i d' ≡ some x → (x.ino ≡ i) × (i < new + 1) × (x.nlink ≡ pos 1)
  unfolding d' dir''
  keyed' i x h = ground (
    arith,
    lookup-attach i,
    t.keyed i x,
    t.keyed place.ino place.dir at.found,
    same.ino,
    same.nlink,
    child.ino,
    child.nlink,
  )

  dicts' : (i : ℕ) (x : Inode) → lookup i d' ≡ some x → is_dir x ≡ true → entries_of x ≢ none
  unfolding d'
  dicts' i x h isdir = ground (arith, lookup-attach i, t.dicts i x, child.dict, entries_of-dir'')

  dots' :
      (i : ℕ) (x : Inode) (es : Dict Text ℕ)
      → lookup i d' ≡ some x
      → entries_of x ≡ some es
      → (lookup dot es ≡ some i) × (lookup dot_dot es ≢ none)
  unfolding d'
  dots' i x es h f = ground (
    arith,
    lookup-attach i,
    t.dots i x es,
    t.dots place.ino place.dir place.names at.found at.names,
    child.dots es,
    entries_of-dir'',
    lookup-insert dot name new place.names,
    lookup-insert dot_dot name new place.names,
    name-Proper,
  )

  -- An entry of the new tree is the new one, one of the new inode, or an old one.
  entry-cases :
      (i : ℕ) (n : Text) (j : ℕ)
      → entry d' i n ≡ some j
      → ((i ≡ place.ino) × (n ≡ name) × (j ≡ new))
        ⊎ (((i ≡ new) × (inside c n ≡ some j)) ⊎ (entry d i n ≡ some j))
  unfolding d'
  entry-cases i n j h = ground (arith, entry-attach i n)

  lookup-d' : (j : ℕ) → (lookup j d ≢ none) ⊎ (j ≡ new) → lookup j d' ≢ none
  unfolding d'
  lookup-d' j h = ground (arith, lookup-attach j)

  linked' : (i : ℕ) (n : Text) (j : ℕ) → entry d' i n ≡ some j → lookup j d' ≢ none
  linked' i n j h = lookup-d' j (elim (entry-cases i n j h) [
    | inl (_, _, e) ↦ inr e
    | inr (inl (e, f)) ↦ elim (child.only n j f) [
      | inl (_, g) ↦ inr g
      | inr (_, g) ↦ inl (ground (arith, at.found))
    ]
    | inr (inr e) ↦ inl (t.linked i n j e)
  ])

  -- A proper entry of the new tree is the new one or an old one.
  old_entry :
      (i : ℕ) (n : Text) (j : ℕ)
      → Proper n
      → entry d' i n ≡ some j
      → ((i ≡ place.ino) × (n ≡ name) × (j ≡ new)) ⊎ (entry d i n ≡ some j)
  old_entry i n j proper h = elim (entry-cases i n j h) [
    | inl e ↦ inl e
    | inr (inl (e, f)) ↦ elim (child.only n j f) [
      | inl (g, _) ↦ absurd (proper.0 g)
      | inr (g, _) ↦ absurd (proper.1 g)
    ]
    | inr (inr e) ↦ inr e
  ]

  not_new : (i : ℕ) (n : Text) → entry d i n ≢ some new
  not_new i n e = t.linked i n new e fresh

  unique' :
      (i : ℕ) (n : Text) (i' : ℕ) (n' : Text) (j : ℕ)
      → Proper n
      → Proper n'
      → entry d' i n ≡ some j
      → entry d' i' n' ≡ some j
      → (i ≡ i') × (n ≡ n')
  unique' i n i' n' j proper proper' h h' = elim (old_entry i n j proper h) [
    | inl (a, b, e) ↦ elim (old_entry i' n' j proper' h') [
      | inl (a', b', _) ↦ (a ∙ sym a', b ∙ sym b')
      | inr o ↦ absurd (not_new i' n' (cc))
    ]
    | inr o ↦ elim (old_entry i' n' j proper' h') [
      | inl (_, _, e) ↦ absurd (not_new i n (cc))
      | inr o' ↦ t.unique i n i' n' j proper proper' o o'
    ]
  ]

  root_ne_new : 1 ≢ new
  root_ne_new e = not_new 1 dot (t.root ∙ ap some e)

  not_root' : (i : ℕ) (n : Text) → Proper n → entry d' i n ≢ some 1
  not_root' i n proper h = elim (old_entry i n 1 proper h) [
    | inl (_, _, e) ↦ root_ne_new e
    | inr o ↦ t.not_root i n proper o
  ]

  keep_entry : (i : ℕ) (n : Text) (j : ℕ) → entry d i n ≡ some j → entry d' i n ≡ some j
  unfolding d'
  keep_entry i n j h = ground (arith, entry-attach i n, entry-new n, entry-place n)

  up' :
      (i p : ℕ)
      → i ≢ 1
      → entry d' i dot_dot ≡ some p
      → (n : Text) × Proper n × (entry d' p n ≡ some i)
  unfolding d'
  up' i p ne h = elim (entry-cases i dot_dot p h) [
    | inl (_, e, _) ↦ absurd (name-Proper.1 (sym e))
    | inr (inl (e, f)) ↦ elim (child.only dot_dot p f) [
      | inl (g, _) ↦ absurd (ground arith)
      | inr (_, g) ↦ (name, name-Proper, ground (arith, entry-attach p name))
    ]
    | inr (inr o) ↦ let (n, proper, e) = t.up i p ne o in (n, proper, keep_entry p n i e)
  ]

  root_up' : (p : ℕ) → entry d' 1 dot_dot ≡ some p → p ≡ 1
  root_up' p h = elim (entry-cases 1 dot_dot p h) [
    | inl (_, e, _) ↦ absurd (name-Proper.1 (sym e))
    | inr (inl (e, _)) ↦ absurd (root_ne_new e)
    | inr (inr o) ↦ t.root_up p o
  ]

  -- A fresh name for a new inode keeps the tree.
  pub attach-IsTree : IsTree (attach d place dir' name new c) (new + 1)
  unfolding d'
  attach-IsTree = record {
    keyed = keyed';
    root = keep_entry 1 dot 1 t.root;
    dicts = dicts';
    dots = dots';
    linked = linked';
    unique = unique';
    not_root = not_root';
    up = up';
    root_up = root_up';
  }

  -- Every name that was there stands for what it stood for.
  pub attach_keeps_entry :
      (i : ℕ) (n : Text) (j : ℕ)
      → entry d i n ≡ some j
      → entry (attach d place dir' name new c) i n ≡ some j
  unfolding d'
  attach_keeps_entry = keep_entry
