-- ===== src/Game/Packets/IpRoundTrip.antt =====
-- The round trip of game/core/packet_queue.py through build_ip_packet and parse_ip_packet.
use poodillion.Prelude.{
  ℕ, suc, ◌+◌, ◌/◌, ◌%◌, ◌<◌, false, ◌≡◌, refl, List, [], ◌∷◌, ltb, nat_eq, length, Text, arith,
}
use poodillion.Prelude.Decimal.{decimal, AllNumerals, decimal-AllNumerals, int-decimal}
use poodillion.Prelude.Split.{split_on, Without, split_on-Without, split_on-append}
use poodillion.Game.Packets.Bytes.{Bytes, ok, ◌>>=◌, byte_of, pack_h}
use poodillion.Game.Packets.Ip.{address_of, parse_ip_packet, octets, build_ip_packet}

abbrev pub AllBytes : Bytes → Type 0
AllBytes [] = Unit {0}
AllBytes (b ∷ bs) = (b < 256) × AllBytes bs

AllNumerals-Without : (s : Text) → AllNumerals s → Without b'.' s
AllNumerals-Without [] h = tt
AllNumerals-Without (c ∷ s) h = let e = h.0 in (ground (arith, e), AllNumerals-Without s h.1)

pub decimal-Without : (n : ℕ) → Without b'.' (decimal n)
decimal-Without n = AllNumerals-Without (decimal n) (decimal-AllNumerals n)

pub byte_of_lem : (n : ℕ) → n < 256 → byte_of n ≡ ok n
unfolding byte_of
byte_of_lem n h = ground arith

pub pack_h_lem : (n : ℕ) → n < 65536 → pack_h n ≡ ok (n / 256 ∷ n % 256 ∷ [])
unfolding pack_h
pack_h_lem n h = ground arith

octets-decimal :
    (b : ℕ) (ps : List Text) (bs : Bytes)
    → b < 256
    → octets ps ≡ ok bs
    → octets (decimal b ∷ ps) ≡ ok (b ∷ bs)
unfolding octets
octets-decimal b ps bs h e = rw (int-decimal b, octets) (rw (byte_of_lem b h, e) refl)

-- The bytes of an address that is written out.
octets-address_of :
    (b : ℕ) (bs : Bytes)
    → AllBytes (b ∷ bs)
    → octets (split_on b'.' (address_of (b ∷ bs))) ≡ ok (b ∷ bs)
unfolding address_of octets
octets-address_of b [] h =
    rw (split_on-Without b'.' (decimal b) (decimal-Without b)) (octets-decimal b [] [] h.0 refl)
octets-address_of b (c ∷ bs) h =
    rw (split_on-append b'.' (decimal b) (address_of (c ∷ bs)) (decimal-Without b)) (
      octets-decimal b (split_on b'.' (address_of (c ∷ bs))) (c ∷ bs) h.0
        (octets-address_of c bs h.1))

-- An address of four bytes.
pub record Address : Type 0 where
  pub a : ℕ
  pub b : ℕ
  pub c : ℕ
  pub d : ℕ

abbrev pub bytes_of : Address → Bytes
bytes_of x = x.a ∷ x.b ∷ x.c ∷ x.d ∷ []

abbrev pub IsAddress : Address → Type 0
IsAddress x = AllBytes (bytes_of x)

abbrev pub dotted : Address → Text
dotted x = address_of (bytes_of x)

-- The packet that build_ip_packet makes of two addresses.
abbrev pub ip_packet : Address → Address → ℕ → Bytes → Bytes
ip_packet s t protocol payload =
    let n = 20 + length payload in
    69
    ∷ 0
    ∷ n / 256
    ∷ n % 256
    ∷ 0
    ∷ 0
    ∷ 0
    ∷ 0
    ∷ 64
    ∷ protocol
    ∷ 0
    ∷ 0
    ∷ s.a
    ∷ s.b
    ∷ s.c
    ∷ s.d
    ∷ t.a
    ∷ t.b
    ∷ t.c
    ∷ t.d
    ∷ payload

pub build_ip_packet_lem :
    (s t : Address) (protocol : ℕ) (payload : Bytes)
    → IsAddress s
    → IsAddress t
    → protocol < 256
    → 20 + length payload < 65536
    → build_ip_packet (dotted s) (dotted t) protocol payload ≡ ok (ip_packet s t protocol payload)
unfolding build_ip_packet
build_ip_packet_lem s t protocol payload hs ht hp hl =
    rw
      (
        pack_h_lem (20 + length payload) hl,
        byte_of_lem protocol hp,
        octets-address_of s.a (s.b ∷ s.c ∷ s.d ∷ []) hs,
        octets-address_of t.a (t.b ∷ t.c ∷ t.d ∷ []) ht,
      )
      refl

abbrev pub twenty : ℕ → ℕ
twenty n = suc (
    suc (
      suc (
        suc (
          suc (
            suc (
              suc (
                suc (suc (suc (suc (suc (suc (suc (suc (suc (suc (suc (suc (suc n)))))))))))))))))))

long : (n : ℕ) → ltb (twenty n) 20 ≡ false
long n = ground arith

pub ip_packet-parse :
    (s t : Address) (protocol : ℕ) (payload : Bytes)
    → parse_ip_packet (ip_packet s t protocol payload)
      ≡ ok (record {
        version = 4;
        protocol = protocol;
        ttl = 64;
        src = dotted s;
        dst = dotted t;
        payload = payload;
      })
unfolding parse_ip_packet
ip_packet-parse s t protocol payload = rw (long (length payload)) refl

-- A packet that build_ip_packet makes is read back by parse_ip_packet: version 4, a time to live of
-- 64, and the protocol, the two addresses and the payload that it was made of. The conditions are
-- that the addresses are written as four decimal numbers below 256 with dots between them, that the
-- protocol is below 256, and that the packet is shorter than 65536 bytes.
pub parse_ip_packet-build_ip_packet :
    (s t : Address) (protocol : ℕ) (payload : Bytes)
    → IsAddress s
    → IsAddress t
    → protocol < 256
    → 20 + length payload < 65536
    → (build_ip_packet (dotted s) (dotted t) protocol payload >>= parse_ip_packet)
      ≡ ok (record {
        version = 4;
        protocol = protocol;
        ttl = 64;
        src = dotted s;
        dst = dotted t;
        payload = payload;
      })
parse_ip_packet-build_ip_packet s t protocol payload hs ht hp hl =
    rw (build_ip_packet_lem s t protocol payload hs ht hp hl) (ip_packet-parse s t protocol payload)
