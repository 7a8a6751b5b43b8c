-- ===== src/Game/Vfs/Tree/Rewrite.antt =====
-- Writing an inode back with other content or times keeps the tree of game/core/vfs.py.
use poodillion.Prelude.{ℕ, ◌≡◌, some, nat_eq, text_eq, arith}
use poodillion.Prelude.Dict.{Dict, lookup, insert, lookup-insert}
use poodillion.Game.Vfs.Inode.{Text, Inode, is_dir, entries_of}
use poodillion.Game.Vfs.State.{entry}
use poodillion.Game.Vfs.Tree.{IsTree, SameNode}

module _ (d : Dict ℕ Inode) (i : ℕ) (x y : Inode) (found : lookup i d ≡ some x)
    (same : SameNode x y) (names : entries_of y ≡ entries_of x) where
  pub entry-rewrite : (k : ℕ) (m : Text) → entry (insert i y d) k m ≡ entry d k m
  unfolding entry
  entry-rewrite k m = ground (arith, lookup-insert k i y d)

  pub rewrite-IsTree : (next : ℕ) → IsTree d next → IsTree (insert i y d) next
  unfolding is_dir
  rewrite-IsTree next t = record {
    keyed = λ k z h.
        ground (arith, lookup-insert k i y d, t.keyed k z, t.keyed i x found, same.ino, same.nlink);
    root = rw entry-rewrite t.root;
    dicts = λ k z h isdir.
        ground (arith, lookup-insert k i y d, t.dicts k z, t.dicts i x found, same.mode);
    dots = λ k z es h f. ground (arith, lookup-insert k i y d, t.dots k z es, t.dots i x es found);
    linked =
        λ k n j h. ground (arith, lookup-insert j i y d, t.linked k n j (rw entry-rewrite at h));
    unique = λ k n k' n' j p p' h h'.
        t.unique k n k' n' j p p' (rw entry-rewrite at h) (rw entry-rewrite at h');
    not_root = λ k n p h. t.not_root k n p (rw entry-rewrite at h);
    up = λ k p ne h.
        let (n, pr, e) = t.up k p ne (rw entry-rewrite at h) in (n, pr, rw entry-rewrite e);
    root_up = λ p h. t.root_up p (rw entry-rewrite at h);
  }
