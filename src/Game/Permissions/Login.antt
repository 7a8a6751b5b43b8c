-- ===== src/Game/Permissions/Login.antt =====
-- Looking up accounts by name and checking passwords, in game/core/permissions.py.
use text.Mathlib.TextLemmas.{append_cancel_left, append-eq-nil_iff}
use poodillion.Prelude.{
  ℕ, String, true, ◌≡◌, ◌≢◌, Option, none, some, [], arith, nat_eq, string_eq, Option-cases, inl,
  inr, ◌↔◌,
}
use poodillion.Prelude.Dict.{lookup, lookup-insert}
use poodillion.Game.Permissions.{
  User, PermissionSystem, add_user, get_user_by_name, check_password, matches_hash, hash_password,
}
use poodillion.Game.Permissions.Accounts.{IsConsistent}

-- In consistent tables a name finds a user exactly if that user stands in the table under their own
-- uid and bears the name.
pub get_user_by_name_iff :
    (s : PermissionSystem) (name : String) (u : User)
    → IsConsistent s
    → (get_user_by_name s name ≡ some u) ↔ ((lookup u.uid s.users ≡ some u) × (u.username ≡ name))
unfolding get_user_by_name
get_user_by_name_iff s name u c = (to, back)
  where
    to : get_user_by_name s name ≡ some u → (lookup u.uid s.users ≡ some u) × (u.username ≡ name)
    to h = elim (Option-cases (lookup name s.username_map)) [
      | inl e ↦ ground arith
      | inr (i, e) ↦ ground (arith, c.user_keyed i u, c.name_known name i)
    ]

    back : (lookup u.uid s.users ≡ some u) × (u.username ≡ name) → get_user_by_name s name ≡ some u
    back h = ground (arith, c.user_keyed u.uid u)

matches_hash_iff :
    (password : Option String) (attempt : String)
    → (matches_hash (hash_password password) attempt ≡ true)
      ↔ ((password ≡ some attempt) × (attempt ≢ ""))
unfolding matches_hash hash_password
matches_hash_iff none attempt = ground arith
matches_hash_iff (some p) attempt =
    ground (arith, append-eq-nil_iff {p = "H:"} {q = p}, append_cancel_left "H:" p attempt)

-- A user whose uid and name were not in use and who is added logs in with exactly the password that the account was made with, and not at all if
-- it was made without one or with the empty one.
pub check_password-add_user :
    (uid : ℕ) (name : String) (gid : ℕ) (home shell : String) (password : Option String)
    (s : PermissionSystem) (attempt : String)
    → lookup uid s.users ≡ none
    → lookup name s.username_map ≡ none
    → (check_password (add_user uid name gid home shell password s).0 name attempt ≡ true)
      ↔ ((password ≡ some attempt) × (attempt ≢ ""))
unfolding check_password add_user
check_password-add_user uid name gid home shell password s attempt free_id free_name = ground (
  arith,
  matches_hash_iff password attempt,
  lookup-insert name name uid s.username_map,
  lookup-insert uid uid
      (record {
        uid = uid;
        username = name;
        gid = gid;
        home = home;
        shell = shell;
        password_hash = hash_password password;
        groups = [];
      })
      s.users,
)
