-- ===== src/Game/Packets/Queue.antt =====
-- PacketQueue of game/core/packet_queue.py: what a system reads and captures. The queue of packets
-- to be sent, which nothing but `clear` touches, the times and the hops of packets are left out.
use poodillion.Prelude.{
  ℕ, suc, ◌≤◌, String, Bool, Option, none, some, List, [], ◌∷◌, ◌++◌, ltb, length, if◌then◌else◌,
  arith, length-append, Bool-cases, inl, inr,
}
use poodillion.Game.Packets.Bytes.{Bytes}

pub record Packet : Type 0 where
  pub raw : Bytes
  pub interface : String

-- A captured packet and its direction.
pub record PacketQueue : Type 0 where
  pub inbound : List Packet
  pub captured : List (Packet × String)

-- xs.pop(0), of a list that is not empty.
abbrev pop_first {ℓ} : {A : Type ℓ} → List A → List A
pop_first [] = []
pop_first (x ∷ xs) = xs

unfoldable pub capture_packet : PacketQueue → Packet → String → PacketQueue
capture_packet q packet direction =
    let captured = q.captured ++ (packet, direction) ∷ [] in
    record q { captured = if ltb 1000 (length captured) then pop_first captured else captured }

unfoldable pub receive_packet : PacketQueue → PacketQueue × Option Bytes
receive_packet q = elim q.inbound [
  | [] ↦ (q, none)
  | packet ∷ rest ↦ (record q { inbound = rest }, some packet.raw)
]

unfoldable pub has_packets : PacketQueue → Bool
has_packets q = ltb 0 (length q.inbound)

unfoldable pub clear : PacketQueue → PacketQueue
clear q = record q { inbound = [] }

pop_first-length {ℓ} :
    {A : Type ℓ} (xs : List A) (n : ℕ) → length xs ≤ suc n → length (pop_first xs) ≤ n
pop_first-length [] n h = omega arith
pop_first-length (x ∷ xs) n h = omega arith

-- No more than 1000 packets are kept.
pub capture_packet-length :
    (q : PacketQueue) (packet : Packet) (direction : String)
    → length q.captured ≤ 1000
    → length (capture_packet q packet direction).captured ≤ 1000
unfolding capture_packet
capture_packet-length q packet direction h =
    let captured = q.captured ++ (packet, direction) ∷ [] in
    let grown = length-append q.captured ((packet, direction) ∷ []) in
    elim (Bool-cases (ltb 1000 (length captured))) [
      | inl e ↦ rw e (pop_first-length captured 1000 (omega arith))
      | inr e ↦ rw e (ground arith)
    ]
