-- ===== src/Game/Packets/Icmp.antt =====
-- parse_icmp_packet, build_icmp_packet, _calculate_checksum and the echo packets of
-- game/core/packet_queue.py.
use poodillion.Prelude.{
  ℕ, ◌+◌, ◌-◌, ◌*◌, ◌/◌, ◌%◌, [], ◌∷◌, ◌++◌, ltb, length, Text, ◌==◌, nat_eq, if◌then◌else◌,
}
use poodillion.Game.Packets.Bytes.{
  Bytes, value_error, Result, ok, raises, ◌>>=◌, byte_at, h_at, drop, set_slice, byte_of, pack_h,
}
use poodillion.Game.Packets.Ip.{build_ip_packet}

pub record IcmpPacket : Type 0 where
  pub type : ℕ
  pub code : ℕ
  pub checksum : ℕ
  pub id : ℕ
  pub sequence : ℕ
  pub payload : Bytes

unfoldable pub parse_icmp_packet : Bytes → Result IcmpPacket
parse_icmp_packet bs =
    if ltb (length bs) 8
    then raises value_error
    else ok (record {
      type = byte_at 0 bs;
      code = byte_at 1 bs;
      checksum = h_at 2 bs;
      id = h_at 4 bs;
      sequence = h_at 6 bs;
      payload = drop 8 bs;
    })

unfoldable pub sum_words : Bytes → ℕ
sum_words [] = 0
sum_words (a ∷ []) = a * 256
sum_words (a ∷ b ∷ bs) = a * 256 + b + sum_words bs

-- _calculate_checksum(data), and `data` after it: `data += b'\x00'` changes a bytearray in place.
unfoldable pub calculate_checksum : Bytes → ℕ × Bytes
unfolding sum_words
calculate_checksum bs =
    let padded = if length bs % 2 == 1 then bs ++ 0 ∷ [] else bs in
    let total = sum_words padded in
    let folded = total / 65536 + total % 65536 in (65535 - folded % 65536, padded)

unfoldable pub build_icmp_packet : ℕ → ℕ → ℕ → ℕ → Bytes → Result Bytes
unfolding byte_of pack_h
build_icmp_packet type code id sequence payload = do
  t ← byte_of type
  c ← byte_of code
  i ← pack_h id
  s ← pack_h sequence
  let packet : Bytes = t ∷ c ∷ 0 ∷ 0 ∷ i ++ (s ++ payload)
  let (checksum, padded) = calculate_checksum packet
  sum ← pack_h checksum
  ok (set_slice 2 4 sum padded)

unfoldable pub build_icmp_echo_request : Text → Text → ℕ → ℕ → Bytes → Result Bytes
unfolding build_icmp_packet build_ip_packet
build_icmp_echo_request src_ip dst_ip id sequence payload = do
  icmp ← build_icmp_packet 8 0 id sequence payload
  build_ip_packet src_ip dst_ip 1 icmp

unfoldable pub build_icmp_echo_reply : Text → Text → ℕ → ℕ → Bytes → Result Bytes
unfolding build_icmp_packet build_ip_packet
build_icmp_echo_reply src_ip dst_ip id sequence payload = do
  icmp ← build_icmp_packet 0 0 id sequence payload
  build_ip_packet src_ip dst_ip 1 icmp
