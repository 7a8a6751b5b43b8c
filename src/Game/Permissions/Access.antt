-- ===== src/Game/Permissions/Access.antt =====
-- `has_permission` of game/core/permissions.py: who may do what to an inode.
use poodillion.Prelude.{
  ℕ, ◌+◌, true, false, not, ◌&&◌, ◌||◌, ◌≡◌, ◌≢◌, none, some, arith, ◌==◌, contains, nat_eq,
  if◌then◌else◌, Option-cases, Bool-cases, inl, inr,
}
use poodillion.Prelude.Dict.{lookup, has}
use poodillion.Game.Permissions.{
  User, PermissionSystem, Need, has_permission, can_read, can_write, can_execute, covers,
  class_bits, test_bit,
}

covers-eq-and :
    (m : ℕ) (need : Need)
    → covers m need ≡ (
        (not need.read || covers m (record { read = true; write = false; exec = false }))
        && (not need.write || covers m (record { read = false; write = true; exec = false }))
        && (not need.exec || covers m (record { read = false; write = false; exec = true })))
unfolding covers
covers-eq-and m need = ground arith

-- A request for several rights is granted exactly when the user is root or known and each right
-- in it is granted on its own.
pub has_permission-eq-and :
    (s : PermissionSystem) (uid mode iuid igid : ℕ) (need : Need)
    → has_permission s uid mode iuid igid need ≡ (
        (uid == 0 || has uid s.users)
        && ((not need.read || can_read s uid mode iuid igid)
            && (not need.write || can_write s uid mode iuid igid)
            && (not need.exec || can_execute s uid mode iuid igid)))
unfolding can_read can_write can_execute has_permission
has_permission-eq-and s uid mode iuid igid need = elim (Bool-cases (uid == 0)) [
  | inl root ↦ rw root (ground arith)
  | inr other ↦ rw other elim (Option-cases (lookup uid s.users)) [
    | inl e ↦ rw e (ground arith)
    | inr (u, e) ↦ rw e (ground (arith, covers-eq-and (class_bits u uid mode iuid igid) need))
  ]
]

-- The lowest bit of the class of an access: owner before group before others.
abbrev pub class_base : User → ℕ → ℕ → ℕ → ℕ
class_base u uid iuid igid =
    if uid == iuid then 6 else if igid == u.gid || contains u.groups igid then 3 else 0

-- A known user other than root has exactly the rights of three mode bits: those of the owner if
-- the user owns the inode, else those of the group if the user is in it, else those of others.
pub can-eq-bits :
    (s : PermissionSystem) (uid mode iuid igid : ℕ) (u : User)
    → uid ≢ 0
    → lookup uid s.users ≡ some u
    → (can_read s uid mode iuid igid ≡ test_bit mode (class_base u uid iuid igid + 2))
      × (can_write s uid mode iuid igid ≡ test_bit mode (class_base u uid iuid igid + 1))
      × (can_execute s uid mode iuid igid ≡ test_bit mode (class_base u uid iuid igid))
unfolding can_read can_write can_execute has_permission
can-eq-bits s uid mode iuid igid u nonroot known = rw known (ground arith)

-- Root is never refused, and an unknown user always is.
pub has_permission_extremes :
    (s : PermissionSystem) (uid mode iuid igid : ℕ) (need : Need)
    → lookup uid s.users ≡ none
    → has_permission s uid mode iuid igid need ≡ (uid == 0)
unfolding has_permission
has_permission_extremes s uid mode iuid igid need unknown = rw unknown (ground arith)
