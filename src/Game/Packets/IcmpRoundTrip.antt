-- ===== src/Game/Packets/IcmpRoundTrip.antt =====
-- The round trip of game/core/packet_queue.py through build_icmp_packet and parse_icmp_packet.
use poodillion.Prelude.{
  ℕ, ◌/◌, ◌%◌, ◌<◌, ◌≡◌, refl, [], ◌∷◌, ◌++◌, ◌==◌, nat_eq, length, if◌then◌else◌, arith,
}
use poodillion.Game.Packets.Bytes.{Bytes, ok, ◌>>=◌}
use poodillion.Game.Packets.IpRoundTrip.{pack_h_lem, byte_of_lem}
use poodillion.Game.Packets.TcpRoundTrip.{half_lem, longer_eight}
use poodillion.Game.Packets.Icmp.{parse_icmp_packet, calculate_checksum, build_icmp_packet}

-- A payload with a zero byte after it, if its length is odd.
abbrev pub padded : Bytes → Bytes
padded bs = if length bs % 2 == 1 then bs ++ 0 ∷ [] else bs

abbrev header : ℕ → ℕ → ℕ → ℕ → Bytes → Bytes
header type code id sequence payload =
    type ∷ code ∷ 0 ∷ 0 ∷ id / 256 ∷ id % 256 ∷ sequence / 256 ∷ sequence % 256 ∷ payload

-- The padding of a packet is that of its payload.
header-padded :
    (t c i s : ℕ) (payload : Bytes)
    → padded (header t c i s payload) ≡ header t c i s (padded payload)
header-padded t c i s payload = ground arith

checksum-lt : (bs : Bytes) → (calculate_checksum bs).0 < 65536
unfolding calculate_checksum
checksum-lt bs = omega arith

checksum-padded : (bs : Bytes) → (calculate_checksum bs).1 ≡ padded bs
unfolding calculate_checksum
checksum-padded bs = refl

-- A packet that build_icmp_packet makes is read back by parse_icmp_packet: the type, the code, the
-- identifier and the sequence number that it was made of, and a checksum below 2^16. The payload
-- comes back with a zero byte after it if its length is odd, and as it was if not. The conditions
-- are that the type and the code are below 256, and the other two numbers below 2^16.
pub parse_icmp_packet-build_icmp_packet :
    (type code id sequence : ℕ) (payload : Bytes)
    → type < 256
    → code < 256
    → id < 65536
    → sequence < 65536
    → (sum : ℕ) × (sum < 65536)
      × ((build_icmp_packet type code id sequence payload >>= parse_icmp_packet)
          ≡ ok (record {
            type = type;
            code = code;
            checksum = sum;
            id = id;
            sequence = sequence;
            payload = padded payload;
          }))
unfolding build_icmp_packet parse_icmp_packet
parse_icmp_packet-build_icmp_packet type code id sequence payload ht hc hi hs =
    let packet = header type code id sequence payload in
    let sum = (calculate_checksum packet).0 in
    (
      sum,
      checksum-lt packet,
      rw
          (
            byte_of_lem type ht,
            byte_of_lem code hc,
            pack_h_lem id hi,
            pack_h_lem sequence hs,
            pack_h_lem sum (checksum-lt packet),
            checksum-padded packet,
            header-padded type code id sequence payload,
          )
          (rw (longer_eight (length (padded payload)), half_lem sum, half_lem id, half_lem sequence)
            refl),
    )
