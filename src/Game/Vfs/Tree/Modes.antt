-- ===== src/Game/Vfs/Tree/Modes.antt =====
-- The file types that the constructors of game/core/vfs.py give: `FileType.X | mode`.
use poodillion.Prelude.{ℕ, zero, suc, ◌<◌, Bool, true, ◌&&◌, ◌≡◌, refl, ◌==◌, nat_eq, arith}
use poodillion.Game.Vfs.Inode.{file_type, with_type, directory_type, regular_type}

every_below : ℕ → (ℕ → Bool) → Bool
every_below zero test = true
every_below (suc n) test = test n && every_below n test

every_below-at :
    (n : ℕ) (test : ℕ → Bool) (m : ℕ) → every_below n test ≡ true → m < n → test m ≡ true
unfolding every_below
every_below-at zero test m h lt = absurd (omega arith)
every_below-at (suc n) test m h lt = ground (arith, every_below-at n test m)

same_number : ℕ → ℕ → Bool
unfolding nat_eq
same_number a b = a == b

directory_table :
    every_below 4096 (λ m. same_number (file_type (with_type directory_type m)) directory_type)
    ≡ true
unfolding every_below same_number
directory_table = refl

regular_table :
    every_below 4096 (λ m. same_number (file_type (with_type regular_type m)) regular_type) ≡ true
unfolding every_below same_number
regular_table = refl

same_number-eq : (a b : ℕ) → same_number a b ≡ true → a ≡ b
unfolding same_number
same_number-eq a b h = ground arith

-- Permission bits do not touch the file type.
pub file_type-directory :
    (m : ℕ) → m < 4096 → file_type (with_type directory_type m) ≡ directory_type
file_type-directory m h = same_number-eq _ _ (every_below-at 4096 _ m directory_table h)

pub file_type-regular : (m : ℕ) → m < 4096 → file_type (with_type regular_type m) ≡ regular_type
file_type-regular m h = same_number-eq _ _ (every_below-at 4096 _ m regular_table h)
