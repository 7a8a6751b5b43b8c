-- ===== src/Game/Packets/Ip.antt =====
-- parse_ip_packet, build_ip_packet and _decrement_ttl of game/core/packet_queue.py. An address is a
-- text; `int` is taken on ASCII digits only, and refuses all else.
use poodillion.Prelude.{
  ℕ, ◌+◌, ◌-◌, ◌*◌, ◌/◌, ◌%◌, none, some, List, [], ◌∷◌, ◌++◌, map, ltb, leb, length, take, Text,
  if◌then◌else◌,
}
use poodillion.Prelude.Decimal.{decimal, int}
use poodillion.Prelude.Split.{split_on, join_with}
use poodillion.Game.Packets.Bytes.{
  Bytes, value_error, Result, ok, raises, ◌>>=◌, byte_at, drop, set_slice, byte_of, pack_h,
}

pub record IpHeader : Type 0 where
  pub version : ℕ
  pub protocol : ℕ
  pub ttl : ℕ
  pub src : Text
  pub dst : Text
  pub payload : Bytes

-- '.'.join(str(b) for b in bs)
unfoldable pub address_of : Bytes → Text
unfolding join_with decimal
address_of bs = join_with b'.' (map decimal bs)

unfoldable pub parse_ip_packet : Bytes → Result IpHeader
unfolding address_of
parse_ip_packet bs =
    if ltb (length bs) 20
    then raises value_error
    else ok (record {
      version = byte_at 0 bs / 16;
      protocol = byte_at 9 bs;
      ttl = byte_at 8 bs;
      src = address_of (take 4 (drop 12 bs));
      dst = address_of (take 4 (drop 16 bs));
      payload = drop (byte_at 0 bs % 16 * 4) bs;
    })

-- bytes([int(x) for x in parts])
unfoldable pub octets : List Text → Result Bytes
unfolding byte_of
octets [] = ok []
octets (p ∷ ps) =
    let rest = octets ps in
    elim (int p) [ none ↦ raises value_error | some n ↦ do b ← byte_of n; bs ← rest; ok (b ∷ bs) ]

unfoldable pub build_ip_packet : Text → Text → ℕ → Bytes → Result Bytes
unfolding pack_h byte_of octets split_on
build_ip_packet src_ip dst_ip protocol payload = do
  total ← pack_h (20 + length payload)
  kind ← byte_of protocol
  let blank : Bytes =
      69 ∷ 0 ∷ 0 ∷ 0 ∷ 0 ∷ 0 ∷ 0 ∷ 0 ∷ 64 ∷ kind ∷ 0 ∷ 0 ∷ 0 ∷ 0 ∷ 0 ∷ 0 ∷ 0 ∷ 0 ∷ 0 ∷ 0 ∷ []
  src ← octets (split_on b'.' src_ip)
  dst ← octets (split_on b'.' dst_ip)
  let header = set_slice 16 20 dst (set_slice 12 16 src (set_slice 2 4 total blank))
  ok (set_slice 10 12 (0 ∷ 0 ∷ []) header ++ payload)

unfoldable pub decrement_ttl : Bytes → Bytes
decrement_ttl bs =
    if leb 9 (length bs)
    then set_slice 10 12 (0 ∷ 0 ∷ []) (set_slice 8 9 ((byte_at 8 bs - 1) ∷ []) bs)
    else bs
