-- ===== src/Game/Permissions/Accounts.antt =====
-- The tables of game/core/permissions.py agree with one another, whatever accounts are added.
use poodillion.Prelude.{
  ℕ, String, true, ◌||◌, ◌≡◌, refl, Option, none, some, List, ◌∷◌, arith, ◌==◌, contains, nat_eq,
  string_eq, Bool-cases, [], inl, inr,
}
use poodillion.Prelude.Dict.{lookup, has, lookup-insert, lookup-nil}
use poodillion.Game.Permissions.{
  User, Group, PermissionSystem, add_user, add_group, add_user_to_group, initial_system, add_id,
  empty_system, join, hash_password,
}

-- Each record stands under its own id, the name tables are the inverse of the records, and a user
-- lists a group exactly if the group lists the user.
pub record IsConsistent (s : PermissionSystem) : Type 0 where
  pub user_keyed :
      (i : ℕ) (u : User)
      → lookup i s.users ≡ some u
      → (u.uid ≡ i) × (lookup u.username s.username_map ≡ some i)
  pub name_known :
      (n : String) (i : ℕ)
      → lookup n s.username_map ≡ some i
      → (u : User) × (lookup i s.users ≡ some u) × (u.username ≡ n)
  pub group_keyed :
      (i : ℕ) (g : Group)
      → lookup i s.groups ≡ some g
      → (g.gid ≡ i) × (lookup g.name s.groupname_map ≡ some i)
  pub groupname_known :
      (n : String) (i : ℕ)
      → lookup n s.groupname_map ≡ some i
      → (g : Group) × (lookup i s.groups ≡ some g) × (g.name ≡ n)
  pub joined :
      (i j : ℕ) (u : User)
      → lookup i s.users ≡ some u
      → contains u.groups j ≡ true
      → (g : Group) × (lookup j s.groups ≡ some g) × (contains g.members i ≡ true)
  pub joined_back :
      (i j : ℕ) (g : Group)
      → lookup j s.groups ≡ some g
      → contains g.members i ≡ true
      → (u : User) × (lookup i s.users ≡ some u) × (contains u.groups j ≡ true)

add_group-IsConsistent :
    (gid : ℕ) (name : String) (s : PermissionSystem)
    → IsConsistent s
    → IsConsistent (add_group gid name s).0
unfolding add_group
add_group-IsConsistent gid name s c =
    elim (Bool-cases (has gid s.groups || has name s.groupname_map)) [
      | inl taken ↦ rw taken c
      | inr free ↦ rw free (record {
        user_keyed = c.user_keyed;
        name_known = c.name_known;
        group_keyed = λ i g h. ground (
          arith,
          c.group_keyed i g,
          lookup-insert i gid (new) s.groups,
          lookup-insert g.name name gid s.groupname_map,
        );
        groupname_known = λ n i h. ground (
          arith,
          c.groupname_known n i,
          lookup-insert i gid (new) s.groups,
          lookup-insert n name gid s.groupname_map,
        );
        joined = λ i j u h m. ground (arith, c.joined i j u, lookup-insert j gid (new) s.groups);
        joined_back =
            λ i j g h m. ground (arith, c.joined_back i j g, lookup-insert j gid (new) s.groups);
      })
    ]
  where
    new : Group
    new = record { gid = gid; name = name; members = [] }

add_user-IsConsistent :
    (uid : ℕ) (username : String) (gid : ℕ) (home shell : String) (password : Option String)
    (s : PermissionSystem)
    → IsConsistent s
    → IsConsistent (add_user uid username gid home shell password s).0
unfolding add_user
add_user-IsConsistent uid username gid home shell password s c =
    elim (Bool-cases (has uid s.users || has username s.username_map)) [
      | inl taken ↦ rw taken c
      | inr free ↦ rw free (record {
        user_keyed = λ i u h. ground (
          arith,
          c.user_keyed i u,
          lookup-insert i uid new s.users,
          lookup-insert u.username username uid s.username_map,
        );
        name_known = λ n i h. ground (
          arith,
          c.name_known n i,
          lookup-insert i uid new s.users,
          lookup-insert n username uid s.username_map,
        );
        group_keyed = c.group_keyed;
        groupname_known = c.groupname_known;
        joined = λ i j u h m. ground (arith, c.joined i j u, lookup-insert i uid new s.users);
        joined_back =
            λ i j g h m. ground (arith, c.joined_back i j g, lookup-insert i uid new s.users);
      })
    ]
  where
    new : User
    new = record {
      uid = uid;
      username = username;
      gid = gid;
      home = home;
      shell = shell;
      password_hash = hash_password password;
      groups = [];
    }

contains-add_id : (x y : ℕ) (xs : List ℕ) → contains (add_id x xs) y ≡ (y == x || contains xs y)
contains-add_id x y xs = ground arith

join-IsConsistent :
    (uid gid : ℕ) (o : Option User) (p : Option Group) (s : PermissionSystem)
    → lookup uid s.users ≡ o
    → lookup gid s.groups ≡ p
    → IsConsistent s
    → IsConsistent (join uid gid o p s).0
unfolding join
join-IsConsistent uid gid none p s eo ep c = c
join-IsConsistent uid gid (some u) none s eo ep c = c
join-IsConsistent uid gid (some user) (some group) s eo ep c = record {
  user_keyed = λ i u h.
      ground (arith, c.user_keyed i u, c.user_keyed uid user, lookup-insert i uid user' s.users);
  name_known = λ n i h. ground (arith, c.name_known n i, lookup-insert i uid user' s.users);
  group_keyed = λ i g h.
      ground
        (arith, c.group_keyed i g, c.group_keyed gid group, lookup-insert i gid group' s.groups);
  groupname_known =
      λ n i h. ground (arith, c.groupname_known n i, lookup-insert i gid group' s.groups);
  joined = λ i j u h m. ground (
    arith,
    c.joined i j u,
    c.joined i j user,
    lookup-insert i uid user' s.users,
    lookup-insert j gid group' s.groups,
    contains-add_id gid j user.groups,
    contains-add_id uid i group.members,
  );
  joined_back = λ i j g h m. ground (
    arith,
    c.joined_back i j g,
    c.joined_back i j group,
    lookup-insert i uid user' s.users,
    lookup-insert j gid group' s.groups,
    contains-add_id gid j user.groups,
    contains-add_id uid i group.members,
  );
}
  where
    user' : User
    user' = record user { groups = add_id gid user.groups }

    group' : Group
    group' = record group { members = add_id uid group.members }

add_user_to_group-IsConsistent :
    (uid gid : ℕ) (s : PermissionSystem)
    → IsConsistent s
    → IsConsistent (add_user_to_group uid gid s).0
unfolding add_user_to_group
add_user_to_group-IsConsistent uid gid s c =
    join-IsConsistent uid gid (lookup uid s.users) (lookup gid s.groups) s refl refl c

-- The calls that change the tables, in any order.
pub data Call : Type 0 where
  new_user : ℕ → String → ℕ → String → String → Option String → Call
  new_group : ℕ → String → Call
  new_member : ℕ → ℕ → Call

unfoldable pub run_call : Call → PermissionSystem → PermissionSystem
run_call (new_user uid name gid home shell password) s =
    (add_user uid name gid home shell password s).0
run_call (new_group gid name) s = (add_group gid name s).0
run_call (new_member uid gid) s = (add_user_to_group uid gid s).0

unfoldable pub run_calls : List Call → PermissionSystem → PermissionSystem
unfolding run_call
run_calls [] s = s
run_calls (c ∷ cs) s = run_calls cs (run_call c s)

run_call-IsConsistent :
    (k : Call) (s : PermissionSystem) → IsConsistent s → IsConsistent (run_call k s)
unfolding run_call
run_call-IsConsistent (new_user uid name gid home shell password) s c =
    add_user-IsConsistent uid name gid home shell password s c
run_call-IsConsistent (new_group gid name) s c = add_group-IsConsistent gid name s c
run_call-IsConsistent (new_member uid gid) s c = add_user_to_group-IsConsistent uid gid s c

run_calls-IsConsistent_from :
    (ks : List Call) (s : PermissionSystem) → IsConsistent s → IsConsistent (run_calls ks s)
unfolding run_calls
run_calls-IsConsistent_from [] s c = c
run_calls-IsConsistent_from (k ∷ ks) s c =
    run_calls-IsConsistent_from ks (run_call k s) (run_call-IsConsistent k s c)

empty_system-IsConsistent : IsConsistent empty_system
unfolding empty_system
empty_system-IsConsistent = record {
  user_keyed = λ i u h. cc (lookup-nil {V = User} i);
  name_known = λ n i h. cc (lookup-nil {V = ℕ} n);
  group_keyed = λ i g h. cc (lookup-nil {V = Group} i);
  groupname_known = λ n i h. cc (lookup-nil {V = ℕ} n);
  joined = λ i j u h m. cc (lookup-nil {V = User} i);
  joined_back = λ i j g h m. cc (lookup-nil {V = Group} j);
}

initial_calls : List Call
initial_calls =
    new_user 0 "root" 0 "/root" "/bin/sh" (some "root")
    ∷ new_group 0 "root"
    ∷ new_group 1 "daemon"
    ∷ new_group 2 "bin"
    ∷ new_group 3 "sys"
    ∷ new_group 4 "adm"
    ∷ new_group 10 "wheel"
    ∷ new_group 100 "users"
    ∷ []

initial_system-IsConsistent : IsConsistent initial_system
unfolding initial_system run_calls run_call initial_calls
initial_system-IsConsistent =
    run_calls-IsConsistent_from initial_calls empty_system empty_system-IsConsistent

-- After any calls on a new system the user and group tables, the two name tables and the two
-- sides of every membership agree.
pub run_calls-IsConsistent : (ks : List Call) → IsConsistent (run_calls ks initial_system)
run_calls-IsConsistent ks =
    run_calls-IsConsistent_from ks initial_system initial_system-IsConsistent
