-- ===== src/Game/Permissions/Tests.antt =====
-- Runs of the permission system of game/core/permissions.py, and its theorems at concrete data.
use poodillion.Prelude.{
  ℕ, String, true, false, not, ◌&&◌, ◌||◌, ◌≡◌, ◌≢◌, ◌↔◌, refl, Option, none, some, List, [], ◌∷◌,
  arith, ◌==◌, nat_eq, string_eq, map,
}
use poodillion.Prelude.Dict.{lookup, has, insert, values}
use poodillion.Game.Permissions.{
  User, PermissionSystem, Need, add_user, add_group, add_user_to_group, initial_system,
  has_permission, can_read, can_write, can_execute, test_bit, get_user_by_name, check_password,
  list_users, sorted_by, insert_by,
}
use poodillion.Game.Permissions.Access.{has_permission-eq-and, can-eq-bits}
use poodillion.Game.Permissions.Accounts.{
  IsConsistent, Call, new_user, new_member, run_calls, run_calls-IsConsistent,
}
use poodillion.Game.Permissions.Login.{get_user_by_name_iff, check_password-add_user}

abbrev calls : List Call
calls =
    new_user 1000 "ann" 100 "/home/ann" "/bin/sh" (some "pw")
    ∷ new_member 1000 10
    ∷ new_user 1000 "bob" 100 "/" "" none
    ∷ []

system : PermissionSystem
unfolding run_calls initial_system add_user add_user_to_group add_group lookup insert nat_eq
    string_eq
system = run_calls calls initial_system

ann : User
ann = record {
  uid = 1000;
  username = "ann";
  gid = 100;
  home = "/home/ann";
  shell = "/bin/sh";
  password_hash = some "H:pw";
  groups = 10 ∷ [];
}

lookup-ann : lookup 1000 system.users ≡ some ann
unfolding system ann
lookup-ann = refl

system-IsConsistent : IsConsistent system
unfolding system
system-IsConsistent = run_calls-IsConsistent calls

run_calls-IsConsistent_example : IsConsistent (run_calls calls initial_system)
run_calls-IsConsistent_example = run_calls-IsConsistent calls

abbrev read_write : Need
read_write = record { read = true; write = true; exec = false }

has_permission-eq-and_example : has_permission system 1000 0o640 0 10 read_write ≡ (
    (◌==◌ {A = ℕ} 1000 0 || has 1000 system.users)
    && ((not read_write.read || can_read system 1000 0o640 0 10)
        && (not read_write.write || can_write system 1000 0o640 0 10)
        && (not read_write.exec || can_execute system 1000 0o640 0 10)))
has_permission-eq-and_example = has_permission-eq-and system 1000 0o640 0 10 read_write

group_reads : can_read system 1000 0o640 0 10 ≡ true
unfolding can_read has_permission system
group_reads = refl

can-eq-bits_example :
    (can_read system 1000 0o077 1000 10 ≡ test_bit 0o077 8)
    × (can_write system 1000 0o077 1000 10 ≡ test_bit 0o077 7)
    × (can_execute system 1000 0o077 1000 10 ≡ test_bit 0o077 6)
unfolding nat_eq
can-eq-bits_example = can-eq-bits system 1000 0o077 1000 10 ann (omega arith) lookup-ann

get_user_by_name_iff_example :
    (get_user_by_name system "ann" ≡ some ann)
    ↔ ((lookup ann.uid system.users ≡ some ann) × (ann.username ≡ "ann"))
get_user_by_name_iff_example = get_user_by_name_iff system "ann" ann system-IsConsistent

no_dan : (lookup 7 system.users ≡ none) × (lookup "dan" system.username_map ≡ none)
unfolding system
no_dan = (refl, refl)

check_password-add_user_example :
    (check_password (add_user 7 "dan" 100 "/" "/bin/sh" (some "x") system).0 "dan" "x" ≡ true)
    ↔ ((◌≡◌ {A = Option String} (some "x") (some "x")) × (◌≢◌ {A = String} "x" ""))
check_password-add_user_example =
    check_password-add_user 7 "dan" 100 "/" "/bin/sh" (some "x") system "x" no_dan.0 no_dan.1

listed : map (λ (u : User). u.uid) (list_users system) ≡ 0 ∷ 1000 ∷ []
unfolding list_users sorted_by insert_by values system
listed = refl
