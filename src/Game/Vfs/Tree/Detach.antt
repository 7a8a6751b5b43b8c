-- ===== src/Game/Vfs/Tree/Detach.antt =====
-- The removal of an entry keeps the tree of game/core/vfs.py.
use poodillion.Prelude.{
  ℕ, false, ◌&&◌, ◌≡◌, refl, ◌≢◌, inl, inr, none, some, ◌==◌, nat_eq, text_eq, if◌then◌else◌, arith,
  Bool-cases, sym, ap, subst, ◌∙◌,
}
use poodillion.Prelude.Int.{◌-ℤ◌}
use poodillion.Prelude.Dict.{Dict, lookup, insert, erase, lookup-insert, lookup-erase}
use poodillion.Game.Vfs.Inode.{Text, Inode, entries, is_dir, entries_of}
use poodillion.Game.Vfs.PathName.{dot, dot_dot}
use poodillion.Game.Vfs.State.{entry}
use poodillion.Game.Vfs.Place.{Place}
use poodillion.Game.Vfs.Remove.{detach, is_full}
use poodillion.Game.Vfs.Tree.{Proper, IsTree, entry-dot, IsAt}
use poodillion.Game.Vfs.Tree.Full.{full_of_entry}

module _ (d : Dict ℕ Inode) (next : ℕ) (place : Place) (name : Text) (j : ℕ) (x : Inode) (now : ℕ)
    (t : IsTree d next) (at : IsAt d place) (proper : Proper name)
    (named : lookup name place.names ≡ some j) (target : lookup j d ≡ some x)
    (empty : is_full x ≡ false) where
  dir'' : Inode
  dir'' = record (place.dir) { content = entries (erase name place.names); mtime = now }

  entries_of-dir'' : entries_of dir'' ≡ some (erase name place.names)
  unfolding dir'' entries_of is_dir
  entries_of-dir'' = ground (arith, at.names)

  entry-place : (m : Text) → entry d place.ino m ≡ lookup m place.names
  unfolding entry
  entry-place m = ground (arith, at.found, at.names)

  -- The removed inode is not the parent.
  target_ne_place : j ≢ place.ino
  target_ne_place e = cc (
    full_of_entry d next place.ino name j place.dir t proper at.found (entry-place name ∙ named),
    empty,
    target,
    at.found,
    ap (λ k. lookup k d) e,
  )

  removed : Dict ℕ Inode
  removed = erase j (insert place.ino dir'' d)

  detach-eq-removed : detach d place name j now ≡ removed
  unfolding detach removed dir'' ◌-ℤ◌
  detach-eq-removed =
      ground (arith, lookup-insert j place.ino dir'' d, target_ne_place, target, t.keyed j x target)

  lookup-removed :
      (i : ℕ)
      → lookup i removed
        ≡ (if i == j then none else if i == place.ino then some dir'' else lookup i d)
  unfolding removed
  lookup-removed i =
      ground (arith, lookup-erase i j (insert place.ino dir'' d), lookup-insert i place.ino dir'' d)

  entry-removed :
      (i : ℕ) (m : Text)
      → entry removed i m
        ≡ (if i == j then none else if i == place.ino && m == name then none else entry d i m)
  unfolding entry
  entry-removed i m = ground (
    arith,
    lookup-removed i,
    entries_of-dir'',
    lookup-erase m name place.names,
    entry-place m,
    at.found,
    at.names,
  )

  old_entry :
      (i : ℕ) (m : Text) (k : ℕ)
      → entry removed i m ≡ some k
      → (i ≢ j) × ((i ≡ place.ino) → m ≢ name) × (entry d i m ≡ some k)
  old_entry i m k h = ground (arith, entry-removed i m)

  kept_entry :
      (i : ℕ) (m : Text) (k : ℕ)
      → i ≢ j
      → ((i ≡ place.ino) → m ≢ name)
      → entry d i m ≡ some k
      → entry removed i m ≡ some k
  kept_entry i m k ne other h = ground (arith, entry-removed i m)

  target_entry : entry d place.ino name ≡ some j
  target_entry = entry-place name ∙ named

  -- Nothing but the removed entry and the removed inode itself led to the removed inode.
  only_entry : (i : ℕ) (m : Text) → i ≢ j → entry d i m ≡ some j → (i ≡ place.ino) × (m ≡ name)
  only_entry i m ne h = elim (Bool-cases (m == dot)) [
    | inl is_dot ↦ absurd (ground (arith, here))
    | inr not_dot ↦ elim (Bool-cases (m == dot_dot)) [
      | inl is_up ↦ elim (Bool-cases (i == 1)) [
        | inl is_root ↦
            absurd (t.not_root place.ino name proper (ground (arith, target_entry, t.root_up j)))
        | inr below ↦
            let (n, p, e) = t.up i j (ground arith) (ground arith) in
            cc (full_of_entry d next j n i x t p target e, empty)
      ]
      | inr not_up ↦
          t.unique i m place.ino name j (ground arith, ground arith) proper h target_entry
    ]
  ]
    where
      here : entry d i dot ≡ some i
      here = (entry-dot d next i m j t h).0

  detach_dots :
      (i : ℕ) (y : Inode) (es : Dict Text ℕ)
      → lookup i removed ≡ some y
      → entries_of y ≡ some es
      → (lookup dot es ≡ some i) × (lookup dot_dot es ≢ none)
  detach_dots i y es h f = ground (
    arith,
    lookup-removed i,
    t.dots i y es,
    t.dots place.ino place.dir place.names at.found at.names,
    entries_of-dir'',
    lookup-erase dot name place.names,
    lookup-erase dot_dot name place.names,
    proper,
  )

  target_ne_root : 1 ≢ j
  target_ne_root e = t.not_root place.ino name proper (target_entry ∙ ap some (sym e))

  -- Removing the entry of an inode that is no full directory, and the inode, keeps the tree.
  removed-IsTree : IsTree removed next
  unfolding dir''
  removed-IsTree = record {
    keyed = λ i y h.
        ground
          (arith, lookup-removed i, t.keyed i y, t.keyed place.ino place.dir at.found, dir''_same);
    root = kept_entry 1 dot 1 target_ne_root (λ _ e. proper.0 (sym e)) t.root;
    dicts = λ i y h isdir. ground (arith, lookup-removed i, t.dicts i y, entries_of-dir'');
    dots = detach_dots;
    linked = λ i m k h.
        let (ne, other, old) = old_entry i m k h in
        ground (arith, lookup-removed k, t.linked i m k old, not_target i m k ne other old);
    unique = λ i n i' n' k p p' h h'.
        t.unique i n i' n' k p p' (old_entry i n k h).2 (old_entry i' n' k h').2;
    not_root = λ i n p h. t.not_root i n p (old_entry i n 1 h).2;
    up = λ i p ne h.
        let (nej, other, old) = old_entry i dot_dot p h in
        let (n, pr, e) = t.up i p ne old in
        (
          n,
          pr,
          kept_entry p n i (λ pj. full_target i p n pr e pj)
              (λ pp nn. nej (removed_here i p n e pp nn)) e,
        );
    root_up = λ p h. t.root_up p (old_entry 1 dot_dot p h).2;
  }
    where
      dir''_same : (dir''.ino ≡ place.dir.ino) × (dir''.nlink ≡ place.dir.nlink)
      dir''_same = (refl, refl)

      not_target :
          (i : ℕ) (m : Text) (k : ℕ)
          → i ≢ j
          → ((i ≡ place.ino) → m ≢ name)
          → entry d i m ≡ some k
          → k ≢ j
      not_target i m k ne other old e =
          let (a, b) = only_entry i m ne (old ∙ ap some e) in other a b

      full_target : (i p : ℕ) (n : Text) → Proper n → entry d p n ≡ some i → p ≢ j
      full_target i p n pr e pj =
          cc (
            full_of_entry d next j n i x t pr target (subst (λ k. entry d k n ≡ some i) pj e),
            empty,
          )

      removed_here : (i p : ℕ) (n : Text) → entry d p n ≡ some i → p ≡ place.ino → n ≡ name → i ≡ j
      removed_here i p n e pp nn = ground (arith, target_entry)

  pub detach-IsTree : IsTree (detach d place name j now) next
  detach-IsTree = rw detach-eq-removed removed-IsTree

  -- After it the name is free, the inode is gone, and every other name of another inode stays.
  pub entry-detach :
      (i : ℕ) (m : Text)
      → entry (detach d place name j now) i m
        ≡ (if i == j then none else if i == place.ino && m == name then none else entry d i m)
  entry-detach i m = rw detach-eq-removed (entry-removed i m)
