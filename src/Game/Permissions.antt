-- ===== src/Game/Permissions.antt =====
-- game/core/permissions.py: accounts, groups and permission checks. The proofs are in the children.
mod Access
mod Accounts
mod Login
mod Tests
use Prim.Native.String.{◌++◌ as ◌<>◌}
use poodillion.Prelude.{
  ℕ, ◌/◌, ◌%◌, ◌^◌, String, Bool, true, false, not, ◌&&◌, ◌||◌, Option, none, some, List, [], ◌∷◌,
  ◌==◌, contains, nat_eq, string_eq, leb, if◌then◌else◌,
}
use poodillion.Prelude.Dict.{Dict, lookup, has, insert, values}

-- `groups` and `members` are sets of ids, kept as lists: only `in` and `add` are used on them.
pub record User : Type 0 where
  pub uid : ℕ
  pub username : String
  pub gid : ℕ
  pub home : String
  pub shell : String
  pub password_hash : Option String
  pub groups : List ℕ

pub record Group : Type 0 where
  pub gid : ℕ
  pub name : String
  pub members : List ℕ

pub record PermissionSystem : Type 0 where
  pub users : Dict ℕ User
  pub groups : Dict ℕ Group
  pub username_map : Dict String ℕ
  pub groupname_map : Dict String ℕ

-- f'H:{password}' if password else None: the empty password is falsy.
hash_password : Option String → Option String
hash_password none = none
hash_password (some password) = if password == "" then none else some ("H:" <> password)

pub add_user :
    ℕ → String → ℕ → String → String → Option String → PermissionSystem → PermissionSystem × Bool
unfolding hash_password
add_user uid username gid home shell password s =
    if has uid s.users || has username s.username_map then (s, false) else (
      record s {
        users =
            insert uid
              (record {
                uid = uid;
                username = username;
                gid = gid;
                home = home;
                shell = shell;
                password_hash = hash_password password;
                groups = [];
              })
              s.users;
        username_map = insert username uid s.username_map;
      },
      true,
    )

pub add_group : ℕ → String → PermissionSystem → PermissionSystem × Bool
add_group gid name s = if has gid s.groups || has name s.groupname_map then (s, false) else (
  record s {
    groups = insert gid (record { gid = gid; name = name; members = [] }) s.groups;
    groupname_map = insert name gid s.groupname_map;
  },
  true,
)

-- set.add
abbrev pub add_id : ℕ → List ℕ → List ℕ
add_id x xs = if contains xs x then xs else x ∷ xs

-- What the two set insertions of `add_user_to_group` do, once both records are found.
join : ℕ → ℕ → Option User → Option Group → PermissionSystem → PermissionSystem × Bool
join uid gid (some user) (some group) s = (
  record s {
    users = insert uid (record user { groups = add_id gid user.groups }) s.users;
    groups = insert gid (record group { members = add_id uid group.members }) s.groups;
  },
  true,
)
join uid gid none _ s = (s, false)
join uid gid (some _) none s = (s, false)

pub add_user_to_group : ℕ → ℕ → PermissionSystem → PermissionSystem × Bool
unfolding join
add_user_to_group uid gid s = join uid gid (lookup uid s.users) (lookup gid s.groups) s

pub get_user : PermissionSystem → ℕ → Option User
get_user s uid = lookup uid s.users

pub get_group : PermissionSystem → ℕ → Option Group
get_group s gid = lookup gid s.groups

pub get_user_by_name : PermissionSystem → String → Option User
get_user_by_name s username = elim (lookup username s.username_map) [
  | none ↦ none
  | some uid ↦ lookup uid s.users
]

pub get_group_by_name : PermissionSystem → String → Option Group
get_group_by_name s name = elim (lookup name s.groupname_map) [
  | none ↦ none
  | some gid ↦ lookup gid s.groups
]

-- The stored hash against the password; a user with no hash is refused.
matches_hash : Option String → String → Bool
matches_hash none password = false
matches_hash (some hash) password = if hash == "" then false else hash == ("H:" <> password)

pub check_password : PermissionSystem → String → String → Bool
unfolding get_user_by_name matches_hash
check_password s username password = elim (get_user_by_name s username) [
  | none ↦ false
  | some user ↦ matches_hash user.password_hash password
]

-- `(n >> k) & 1`, as a test: `mode & 0o4000` is bit 11.
abbrev pub test_bit : ℕ → ℕ → Bool
test_bit n k = n / 2 ^ k % 2 == 1

-- What an access asks for: the arguments `need_read`, `need_write`, `need_exec`.
pub record Need : Type 0 where
  pub read : Bool
  pub write : Bool
  pub exec : Bool

-- The last three tests of `has_permission`.
covers : ℕ → Need → Bool
covers mode_bits need =
    if need.read && not (test_bit mode_bits 2)
    then false
    else if need.write && not (test_bit mode_bits 1)
    then false
    else if need.exec && not (test_bit mode_bits 0)
    then false
    else true

-- The permission class of a known user: `(perms >> shift) & 7` with the shift of its branch.
class_bits : User → ℕ → ℕ → ℕ → ℕ → ℕ
class_bits user uid inode_mode inode_uid inode_gid =
    let perms = inode_mode % 512 in
    if uid == inode_uid
    then perms / 2 ^ 6 % 8
    else if inode_gid == user.gid || contains user.groups inode_gid
    then perms / 2 ^ 3 % 8
    else perms % 8

pub has_permission : PermissionSystem → ℕ → ℕ → ℕ → ℕ → Need → Bool
unfolding covers class_bits
has_permission s uid inode_mode inode_uid inode_gid need =
    if uid == 0 then true else elim (lookup uid s.users) [
      | none ↦ false
      | some user ↦ covers (class_bits user uid inode_mode inode_uid inode_gid) need
    ]

pub can_execute : PermissionSystem → ℕ → ℕ → ℕ → ℕ → Bool
can_execute s uid mode iuid igid =
    has_permission s uid mode iuid igid (record { read = false; write = false; exec = true })

pub can_read : PermissionSystem → ℕ → ℕ → ℕ → ℕ → Bool
can_read s uid mode iuid igid =
    has_permission s uid mode iuid igid (record { read = true; write = false; exec = false })

pub can_write : PermissionSystem → ℕ → ℕ → ℕ → ℕ → Bool
can_write s uid mode iuid igid =
    has_permission s uid mode iuid igid (record { read = false; write = true; exec = false })

pub is_suid : ℕ → Bool
is_suid mode = test_bit mode 11

pub is_sgid : ℕ → Bool
is_sgid mode = test_bit mode 10

pub get_effective_uid : ℕ → ℕ → ℕ → ℕ
unfolding is_suid
get_effective_uid running_uid file_mode file_uid =
    if is_suid file_mode then file_uid else running_uid

pub get_effective_gid : ℕ → ℕ → ℕ → ℕ
unfolding is_sgid
get_effective_gid running_gid file_mode file_gid =
    if is_sgid file_mode then file_gid else running_gid

-- `sorted` by a numeric key, stable.
insert_by {ℓ} : {A : Type ℓ} → (A → ℕ) → A → List A → List A
insert_by key x [] = x ∷ []
insert_by key x (y ∷ ys) = if leb (key x) (key y) then x ∷ y ∷ ys else y ∷ insert_by key x ys

sorted_by {ℓ} : {A : Type ℓ} → (A → ℕ) → List A → List A
sorted_by key [] = []
sorted_by key (x ∷ xs) = insert_by key x (sorted_by key xs)

pub list_users : PermissionSystem → List User
list_users s = sorted_by (λ (u : User). u.uid) (values s.users)

pub list_groups : PermissionSystem → List Group
list_groups s = sorted_by (λ (g : Group). g.gid) (values s.groups)

-- `PermissionSystem()`
empty_system : PermissionSystem
empty_system = record { users = []; groups = []; username_map = []; groupname_map = [] }

pub initial_system : PermissionSystem
unfolding empty_system
initial_system =
    let s0 = (add_user 0 "root" 0 "/root" "/bin/sh" (some "root") empty_system).0 in
    let s1 = (add_group 0 "root" s0).0 in
    let s2 = (add_group 1 "daemon" s1).0 in
    let s3 = (add_group 2 "bin" s2).0 in
    let s4 = (add_group 3 "sys" s3).0 in
    let s5 = (add_group 4 "adm" s4).0 in
    let s6 = (add_group 10 "wheel" s5).0 in (add_group 100 "users" s6).0
