-- ===== src/Game/Packets/Bytes.antt =====
-- Bytes, and what game/core/packet_queue.py uses of struct and of Python's byte strings: the byte
-- order of struct is that of the network.
use poodillion.Prelude.{
  ℕ, zero, suc, ◌+◌, ◌*◌, ◌/◌, ◌%◌, List, [], ◌∷◌, ◌++◌, ltb, take, if◌then◌else◌,
}

abbrev pub Bytes : Type 0
Bytes = List ℕ

-- ValueError, and struct.error.
pub data PacketError : Type 0 where
  value_error : PacketError
  struct_error : PacketError

pub data Result {ℓ} (A : Type ℓ) : Type ℓ where
  ok : A → Result A
  raises : PacketError → Result A

infixl 5 ◌>>=◌
abbrev pub ◌>>=◌ {ℓ κ} : {A : Type ℓ} {B : Type κ} → Result A → (A → Result B) → Result B
ok a >>= f = f a
raises e >>= f = raises e

-- bs[i], of an index that is in range.
abbrev pub byte_at : ℕ → Bytes → ℕ
byte_at i [] = 0
byte_at zero (b ∷ bs) = b
byte_at (suc i) (b ∷ bs) = byte_at i bs

-- bs[n:]
abbrev pub drop : ℕ → Bytes → Bytes
drop zero bs = bs
drop (suc n) [] = []
drop (suc n) (b ∷ bs) = drop n bs

-- `bs[lo:hi] = new` of a bytearray, which may change its length.
abbrev pub set_slice : ℕ → ℕ → Bytes → Bytes → Bytes
set_slice lo hi new bs = take lo bs ++ (new ++ drop hi bs)

-- An element of a bytes object or a bytearray is below 256.
unfoldable pub byte_of : ℕ → Result ℕ
byte_of n = if ltb n 256 then ok n else raises value_error

-- struct.pack('!H', n) and struct.pack('!I', n)
unfoldable pub pack_h : ℕ → Result Bytes
pack_h n = if ltb n 65536 then ok (n / 256 ∷ n % 256 ∷ []) else raises struct_error

unfoldable pub pack_i : ℕ → Result Bytes
pack_i n =
    if ltb n 4294967296
    then ok (n / 16777216 ∷ n / 65536 % 256 ∷ n / 256 % 256 ∷ n % 256 ∷ [])
    else raises struct_error

-- struct.unpack('!H', bs[i:i + 2])[0] and struct.unpack('!I', bs[i:i + 4])[0]
abbrev pub h_at : ℕ → Bytes → ℕ
h_at i bs = byte_at i bs * 256 + byte_at (suc i) bs

abbrev pub i_at : ℕ → Bytes → ℕ
i_at i bs = h_at i bs * 65536 + h_at (suc (suc i)) bs
