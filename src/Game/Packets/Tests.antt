-- ===== src/Game/Packets/Tests.antt =====
-- Packets of game/core/packet_queue.py, and its theorems at concrete data.
use poodillion.Prelude.{
  ℕ, ◌<◌, true, false, ◌≡◌, refl, some, none, Option, String, [], ◌∷◌, ◌++◌, nat_eq, text_eq,
  string_eq, text_of, arith,
}
use poodillion.Prelude.Decimal.{decimal, digits}
use poodillion.Game.Packets.Bytes.{Bytes, ok, raises, ◌>>=◌, value_error}
use poodillion.Game.Packets.Ip.{parse_ip_packet, build_ip_packet, address_of}
use poodillion.Game.Packets.IpRoundTrip.{
  Address, dotted, ip_packet, parse_ip_packet-build_ip_packet,
}
use poodillion.Game.Packets.Icmp.{parse_icmp_packet, build_icmp_packet, calculate_checksum}
use poodillion.Game.Packets.IcmpRoundTrip.{padded, parse_icmp_packet-build_icmp_packet}
use poodillion.Game.Packets.Tcp.{Flags, parse_tcp_packet, build_tcp_packet}
use poodillion.Game.Packets.TcpRoundTrip.{parse_tcp_packet-build_tcp_packet}
use poodillion.Game.Packets.Firewall.{check_packet_firewall, protocol_and_port}
use poodillion.Game.Packets.Subnets.{drop_network, check_packet_firewall-subnet}

abbrev here : Address
here = record { a = 192; b = 168; c = 1; d = 7 }

abbrev there : Address
there = record { a = 192; b = 168; c = 10; d = 5 }

dotted-here : dotted here ≡ text_of "192.168.1.7"
unfolding address_of decimal digits
dotted-here = refl

abbrev brain : Bytes
brain = text_of "brain"

-- The default payload of a ping has nine bytes, and comes back with ten.
echo-padded : padded (text_of "brainhair") ≡ text_of "brainhair" ++ 0 ∷ []
unfolding nat_eq
echo-padded = refl

echo_packet :
    build_icmp_packet 8 0 300 1 brain
    ≡ ok (8 ∷ 0 ∷ 196 ∷ 246 ∷ 1 ∷ 44 ∷ 0 ∷ 1 ∷ 98 ∷ 114 ∷ 97 ∷ 105 ∷ 110 ∷ 0 ∷ [])
unfolding build_icmp_packet calculate_checksum nat_eq
echo_packet = refl

short_packet : parse_ip_packet (69 ∷ 0 ∷ []) ≡ raises value_error
unfolding parse_ip_packet
short_packet = refl

-- The folded sum of these words still carries, and the carry is lost: 0xffff + 0xffff + 0x0001.
checksum_carry : (calculate_checksum (255 ∷ 255 ∷ 255 ∷ 255 ∷ 0 ∷ 1 ∷ [])).0 ≡ 65535
unfolding calculate_checksum nat_eq
checksum_carry = refl

parse_ip_packet-build_ip_packet_example :
    (build_ip_packet (dotted here) (dotted there) 6 brain >>= parse_ip_packet)
    ≡ ok (record {
      version = 4;
      protocol = 6;
      ttl = 64;
      src = dotted here;
      dst = dotted there;
      payload = brain;
    })
parse_ip_packet-build_ip_packet_example =
    parse_ip_packet-build_ip_packet here there 6 brain
      (omega arith, (omega arith, (omega arith, (omega arith, tt))))
      (omega arith, (omega arith, (omega arith, (omega arith, tt)))) (omega arith) (omega arith)

abbrev syn_ack : Flags
syn_ack = record { fin = false; syn = true; rst = false; psh = false; ack = true; urg = false }

parse_tcp_packet-build_tcp_packet_example :
    (build_tcp_packet 443 51000 1000000 17 syn_ack brain 65535 >>= parse_tcp_packet)
    ≡ ok (record {
      src_port = 443;
      dst_port = 51000;
      seq = 1000000;
      ack = 17;
      flags = syn_ack;
      window = 65535;
      checksum = 0;
      payload = brain;
    })
parse_tcp_packet-build_tcp_packet_example =
    parse_tcp_packet-build_tcp_packet 443 51000 1000000 17 syn_ack brain 65535 (omega arith)
      (omega arith) (omega arith) (omega arith) (omega arith)

parse_icmp_packet-build_icmp_packet_example :
    (sum : ℕ) × (sum < 65536)
    × ((build_icmp_packet 8 0 300 1 brain >>= parse_icmp_packet)
        ≡ ok (record {
          type = 8;
          code = 0;
          checksum = sum;
          id = 300;
          sequence = 1;
          payload = padded brain;
        }))
parse_icmp_packet-build_icmp_packet_example =
    parse_icmp_packet-build_icmp_packet 8 0 300 1 brain (omega arith) (omega arith) (omega arith)
      (omega arith)

abbrev ping : Bytes
ping = ip_packet there here 1 brain

abbrev icmp_read : String × Option ℕ
icmp_read = ("icmp", none)

ping-read : protocol_and_port ping ≡ ok icmp_read
unfolding protocol_and_port nat_eq
ping-read = refl

ten_from_one : decimal 10 ≡ decimal 1 ++ text_of "0"
unfolding decimal digits
ten_from_one = refl

-- 192.168.10.5 is not in 192.168.1.0/24, and a rule against that network stops it.
check_packet_firewall-subnet_example :
    check_packet_firewall ping (some (drop_network here ∷ [])) (dotted there) ≡ false
check_packet_firewall-subnet_example =
    check_packet_firewall-subnet here there (text_of "0") ping [] icmp_read ping-read refl refl
      ten_from_one
