-- ===== src/Game/Vfs/Inode.antt =====
-- Inodes of game/core/vfs.py: file types, contents, and the string that `ls` shows.
use Prim.Native.Nat.{bit_and, bit_or}
use poodillion.Prelude.{
  ℕ, ◌/◌, ◌%◌, ◌^◌, Bool, ◌||◌, Option, none, some, List, [], ◌∷◌, ◌++◌, ◌==◌, nat_eq,
  if◌then◌else◌,
}
use poodillion.Prelude.Int.{ℤ}
pub use poodillion.Prelude.{Text, text_of}
use poodillion.Prelude.Dict.{Dict}

-- `bytes`
abbrev pub Bytes : Type 0
Bytes = List ℕ

abbrev pub regular_type : ℕ
regular_type = 0o100000

abbrev pub directory_type : ℕ
directory_type = 0o040000

abbrev pub symlink_type : ℕ
symlink_type = 0o120000

abbrev pub chardev_type : ℕ
chardev_type = 0o020000

abbrev pub blockdev_type : ℕ
blockdev_type = 0o060000

abbrev pub fifo_type : ℕ
fifo_type = 0o010000

abbrev pub socket_type : ℕ
socket_type = 0o140000

-- Union[bytes, Dict[str, int], str]
pub data Content : Type 0 where
  bytes : Bytes → Content
  entries : Dict Text ℕ → Content
  text : Text → Content

-- The times are readings of the clock, which the code only stores.
pub record Inode : Type 0 where
  pub ino : ℕ
  pub mode : ℕ
  pub uid : ℕ
  pub gid : ℕ
  pub size : ℕ
  pub atime : ℕ
  pub mtime : ℕ
  pub ctime : ℕ
  pub nlink : ℤ
  pub content : Content

-- self.mode & 0o170000
abbrev pub file_type : ℕ → ℕ
file_type mode = bit_and mode 0o170000

-- FileType.X | mode
abbrev pub with_type : ℕ → ℕ → ℕ
with_type type mode = bit_or type mode

unfoldable pub is_dir : Inode → Bool
is_dir x = file_type x.mode == directory_type

unfoldable pub is_file : Inode → Bool
is_file x = file_type x.mode == regular_type

unfoldable pub is_symlink : Inode → Bool
is_symlink x = file_type x.mode == symlink_type

unfoldable pub is_device : Inode → Bool
is_device x = let ft = file_type x.mode in ft == chardev_type || ft == blockdev_type

unfoldable pub get_type_char : Inode → ℕ
get_type_char x =
    let ft = file_type x.mode in
    if ft == regular_type
    then b'-'
    else if ft == directory_type
    then b'd'
    else if ft == symlink_type
    then b'l'
    else if ft == chardev_type
    then b'c'
    else if ft == blockdev_type
    then b'b'
    else if ft == fifo_type
    then b'p'
    else if ft == socket_type
    then b's'
    else b'?'

-- `n & 2 ^ k`, as a test.
abbrev pub bit_set : ℕ → ℕ → Bool
bit_set n k = n / 2 ^ k % 2 == 1

-- The three characters of one class: its bits, and the special bit with its two letters.
unfoldable pub triple : ℕ → Bool → ℕ → ℕ → Text
triple p special on off =
    (if bit_set p 2 then b'r' else b'-')
    ∷ (if bit_set p 1 then b'w' else b'-')
    ∷ (if special then (if bit_set p 0 then on else off) else (if bit_set p 0 then b'x' else b'-'))
    ∷ []

unfoldable pub permission_string : Inode → Text
unfolding triple
permission_string x =
    let perms = x.mode % 512 in
    triple (perms / 2 ^ 6 % 8) (bit_set x.mode 11) b's' b'S'
    ++ (triple (perms / 2 ^ 3 % 8) (bit_set x.mode 10) b's' b'S'
        ++ triple (perms % 8) (bit_set x.mode 9) b't' b'T')

-- The entries of a directory: both tests, `is_dir()` and that the content is a dict.
unfoldable pub entries_of : Inode → Option (Dict Text ℕ)
entries_of x =
    let es : Option (Dict Text ℕ) = elim x.content [ entries es ↦ some es | _ ↦ none ] in
    if is_dir x then es else none
