-- ===== src/Game/Packets/Udp.antt =====
-- The UDP packets of game/core/packet_queue.py.
use poodillion.Prelude.{ℕ, ◌+◌, ◌∷◌, ◌++◌, ltb, length, Text, if◌then◌else◌}
use poodillion.Game.Packets.Bytes.{
  Bytes, value_error, Result, ok, raises, ◌>>=◌, h_at, drop, pack_h,
}
use poodillion.Game.Packets.Ip.{build_ip_packet}

pub record UdpPacket : Type 0 where
  pub src_port : ℕ
  pub dst_port : ℕ
  pub length : ℕ
  pub checksum : ℕ
  pub payload : Bytes

unfoldable pub parse_udp_packet : Bytes → Result UdpPacket
parse_udp_packet bs =
    if ltb (length bs) 8
    then raises value_error
    else ok (record {
      src_port = h_at 0 bs;
      dst_port = h_at 2 bs;
      length = h_at 4 bs;
      checksum = h_at 6 bs;
      payload = drop 8 bs;
    })

unfoldable pub build_udp_packet : ℕ → ℕ → Bytes → Result Bytes
unfolding pack_h
build_udp_packet src_port dst_port payload = do
  src ← pack_h src_port
  dst ← pack_h dst_port
  size ← pack_h (8 + length payload)
  ok (src ++ (dst ++ (size ++ (0 ∷ 0 ∷ payload))))

unfoldable pub build_udp_datagram : Text → Text → ℕ → ℕ → Bytes → Result Bytes
unfolding build_udp_packet build_ip_packet
build_udp_datagram src_ip dst_ip src_port dst_port payload = do
  udp ← build_udp_packet src_port dst_port payload
  build_ip_packet src_ip dst_ip 17 udp
