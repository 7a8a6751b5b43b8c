-- ===== src/Game/Packets/Tcp.antt =====
-- The TCP packets of game/core/packet_queue.py.
use poodillion.Prelude.{
  ℕ, ◌+◌, ◌*◌, ◌/◌, ◌%◌, Bool, true, false, [], ◌∷◌, ◌++◌, ltb, length, Text, ◌==◌, nat_eq,
  if◌then◌else◌,
}
use poodillion.Game.Packets.Bytes.{
  Bytes, value_error, Result, ok, raises, ◌>>=◌, byte_at, h_at, i_at, drop, pack_h, pack_i,
}
use poodillion.Game.Packets.Ip.{build_ip_packet}

pub record Flags : Type 0 where
  pub fin : Bool
  pub syn : Bool
  pub rst : Bool
  pub psh : Bool
  pub ack : Bool
  pub urg : Bool

pub record TcpPacket : Type 0 where
  pub src_port : ℕ
  pub dst_port : ℕ
  pub seq : ℕ
  pub ack : ℕ
  pub flags : Flags
  pub window : ℕ
  pub checksum : ℕ
  pub payload : Bytes

-- bool(flags & bit), of a power of two.
abbrev pub has_bit : ℕ → ℕ → Bool
has_bit flags bit = flags / bit % 2 == 1

unfoldable pub flags_of : ℕ → Flags
flags_of n = record {
  fin = has_bit n 1;
  syn = has_bit n 2;
  rst = has_bit n 4;
  psh = has_bit n 8;
  ack = has_bit n 16;
  urg = has_bit n 32;
}

unfoldable pub parse_tcp_packet : Bytes → Result TcpPacket
unfolding flags_of
parse_tcp_packet bs =
    if ltb (length bs) 20
    then raises value_error
    else ok (record {
      src_port = h_at 0 bs;
      dst_port = h_at 2 bs;
      seq = i_at 4 bs;
      ack = i_at 8 bs;
      flags = flags_of (byte_at 13 bs);
      window = h_at 14 bs;
      checksum = h_at 16 bs;
      payload = drop (byte_at 12 bs / 16 * 4) bs;
    })

abbrev pub bit : Bool → ℕ → ℕ
bit b n = if b then n else 0

-- Each `|=` sets a bit that is not set yet, and so adds it.
unfoldable pub flag_byte : Flags → ℕ
flag_byte f = bit f.fin 1 + bit f.syn 2 + bit f.rst 4 + bit f.psh 8 + bit f.ack 16 + bit f.urg 32

unfoldable pub build_tcp_packet : ℕ → ℕ → ℕ → ℕ → Flags → Bytes → ℕ → Result Bytes
unfolding pack_h pack_i flag_byte
build_tcp_packet src_port dst_port seq ack flags payload window = do
  src ← pack_h src_port
  dst ← pack_h dst_port
  number ← pack_i seq
  acknowledged ← pack_i ack
  w ← pack_h window
  ok (
      src
      ++ (dst
          ++ (number ++ (acknowledged ++ (80 ∷ flag_byte flags ∷ w ++ (0 ∷ 0 ∷ 0 ∷ 0 ∷ payload))))))

abbrev no_flags : Flags
no_flags = record { fin = false; syn = false; rst = false; psh = false; ack = false; urg = false }

unfoldable pub build_tcp_syn : Text → Text → ℕ → ℕ → ℕ → Result Bytes
unfolding build_tcp_packet build_ip_packet
build_tcp_syn src_ip dst_ip src_port dst_port seq = do
  tcp ← build_tcp_packet src_port dst_port seq 0 (record no_flags { syn = true }) [] 65535
  build_ip_packet src_ip dst_ip 6 tcp

unfoldable pub build_tcp_syn_ack : Text → Text → ℕ → ℕ → ℕ → ℕ → Result Bytes
unfolding build_tcp_packet build_ip_packet
build_tcp_syn_ack src_ip dst_ip src_port dst_port seq ack = do
  tcp ←
      build_tcp_packet src_port dst_port seq ack (record no_flags { syn = true; ack = true }) []
        65535
  build_ip_packet src_ip dst_ip 6 tcp

unfoldable pub build_tcp_ack : Text → Text → ℕ → ℕ → ℕ → ℕ → Result Bytes
unfolding build_tcp_packet build_ip_packet
build_tcp_ack src_ip dst_ip src_port dst_port seq ack = do
  tcp ← build_tcp_packet src_port dst_port seq ack (record no_flags { ack = true }) [] 65535
  build_ip_packet src_ip dst_ip 6 tcp

unfoldable pub build_tcp_data : Text → Text → ℕ → ℕ → ℕ → ℕ → Bytes → Result Bytes
unfolding build_tcp_packet build_ip_packet
build_tcp_data src_ip dst_ip src_port dst_port seq ack payload = do
  tcp ←
      build_tcp_packet src_port dst_port seq ack (record no_flags { psh = true; ack = true })
        payload 65535
  build_ip_packet src_ip dst_ip 6 tcp

unfoldable pub build_tcp_fin : Text → Text → ℕ → ℕ → ℕ → ℕ → Result Bytes
unfolding build_tcp_packet build_ip_packet
build_tcp_fin src_ip dst_ip src_port dst_port seq ack = do
  tcp ←
      build_tcp_packet src_port dst_port seq ack (record no_flags { fin = true; ack = true }) []
        65535
  build_ip_packet src_ip dst_ip 6 tcp
