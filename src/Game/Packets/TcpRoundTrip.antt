-- ===== src/Game/Packets/TcpRoundTrip.antt =====
-- The round trips of game/core/packet_queue.py through build_tcp_packet and parse_tcp_packet, and
-- through build_udp_packet and parse_udp_packet.
use poodillion.Prelude.{
  ℕ, suc, ◌+◌, ◌*◌, ◌/◌, ◌%◌, ◌<◌, false, ◌≡◌, refl, [], ◌∷◌, ltb, nat_eq, length, arith,
}
use poodillion.Game.Packets.Bytes.{Bytes, ok, ◌>>=◌, pack_i}
use poodillion.Game.Packets.IpRoundTrip.{pack_h_lem, twenty}
use poodillion.Game.Packets.Tcp.{Flags, flags_of, flag_byte, parse_tcp_packet, build_tcp_packet}
use poodillion.Game.Packets.Udp.{parse_udp_packet, build_udp_packet}

pub half_lem : (n : ℕ) → n / 256 * 256 + n % 256 ≡ n
half_lem n = omega arith

word_lem :
    (n : ℕ) → (n / 16777216 * 256 + n / 65536 % 256) * 65536 + (n / 256 % 256 * 256 + n % 256) ≡ n
word_lem n = omega arith

pack_i_lem :
    (n : ℕ)
    → n < 4294967296
    → pack_i n ≡ ok (n / 16777216 ∷ n / 65536 % 256 ∷ n / 256 % 256 ∷ n % 256 ∷ [])
unfolding pack_i
pack_i_lem n h = ground arith

flags_of-flag_byte : (f : Flags) → flags_of (flag_byte f) ≡ f
unfolding flags_of flag_byte
flags_of-flag_byte f = ground arith

longer : (n : ℕ) → ltb (twenty n) 20 ≡ false
longer n = ground arith

-- A packet that build_tcp_packet makes is read back by parse_tcp_packet: the ports, the sequence and
-- acknowledgment numbers, the six flags, the window and the payload that it was made of, and a
-- checksum of 0. The conditions are that the ports and the window are below 2^16 and the two numbers
-- below 2^32.
pub parse_tcp_packet-build_tcp_packet :
    (src_port dst_port seq ack : ℕ) (flags : Flags) (payload : Bytes) (window : ℕ)
    → src_port < 65536
    → dst_port < 65536
    → seq < 4294967296
    → ack < 4294967296
    → window < 65536
    → (build_tcp_packet src_port dst_port seq ack flags payload window >>= parse_tcp_packet)
      ≡ ok (record {
        src_port = src_port;
        dst_port = dst_port;
        seq = seq;
        ack = ack;
        flags = flags;
        window = window;
        checksum = 0;
        payload = payload;
      })
unfolding build_tcp_packet parse_tcp_packet
parse_tcp_packet-build_tcp_packet src_port dst_port seq ack flags payload window hs hd hq ha hw =
    rw
      (
        pack_h_lem src_port hs,
        pack_h_lem dst_port hd,
        pack_i_lem seq hq,
        pack_i_lem ack ha,
        pack_h_lem window hw,
      )
      (rw
        (
          longer (length payload),
          half_lem src_port,
          half_lem dst_port,
          word_lem seq,
          word_lem ack,
          half_lem window,
          flags_of-flag_byte flags,
        )
        refl)

abbrev eight : ℕ → ℕ
eight n = suc (suc (suc (suc (suc (suc (suc (suc n)))))))

pub longer_eight : (n : ℕ) → ltb (eight n) 8 ≡ false
longer_eight n = ground arith

pub parse_udp_packet-build_udp_packet :
    (src_port dst_port : ℕ) (payload : Bytes)
    → src_port < 65536
    → dst_port < 65536
    → 8 + length payload < 65536
    → (build_udp_packet src_port dst_port payload >>= parse_udp_packet)
      ≡ ok (record {
        src_port = src_port;
        dst_port = dst_port;
        length = 8 + length payload;
        checksum = 0;
        payload = payload;
      })
unfolding build_udp_packet parse_udp_packet
parse_udp_packet-build_udp_packet src_port dst_port payload hs hd hl =
    rw (pack_h_lem src_port hs, pack_h_lem dst_port hd, pack_h_lem (8 + length payload) hl)
      (rw
        (
          longer_eight (length payload),
          half_lem src_port,
          half_lem dst_port,
          half_lem (8 + length payload),
        )
        refl)
