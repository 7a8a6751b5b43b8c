-- ===== src/Game/Packets/Firewall.antt =====
-- _check_packet_firewall of game/core/packet_queue.py.
use poodillion.Prelude.{
  ℕ, zero, suc, String, Bool, true, false, not, ◌&&◌, ◌||◌, Option, none, some, List, [], ◌∷◌, ◌==◌,
  nat_eq, string_eq, text_eq, contains, take, Text, text_of, if◌then◌else◌,
}
use poodillion.Prelude.Split.{split_on, join_with, starts_with}
use poodillion.Game.Packets.Bytes.{Bytes, Result, ok, raises, ◌>>=◌}
use poodillion.Game.Packets.Ip.{IpHeader, parse_ip_packet}
use poodillion.Game.Packets.Tcp.{parse_tcp_packet}
use poodillion.Game.Packets.Udp.{parse_udp_packet}

-- A rule is a dict; a key that is missing is `none`.
pub record Rule : Type 0 where
  pub action : Option String
  pub protocol : Option String
  pub port : Option ℕ
  pub source : Option Text
  pub chain : Option String

-- rule.get(key, default)
abbrev get {ℓ} : {A : Type ℓ} → Option A → A → A
get none default = default
get (some a) default = a

unfoldable pub protocol_name : ℕ → String
protocol_name protocol =
    if protocol == 1
    then "icmp"
    else if protocol == 6
    then "tcp"
    else if protocol == 17
    then "udp"
    else "unknown"

-- The destination port of TCP and UDP.
unfoldable pub port_of : IpHeader → Result (Option ℕ)
unfolding parse_tcp_packet parse_udp_packet
port_of h =
    if h.protocol == 6
    then (do tcp ← parse_tcp_packet h.payload; ok (some tcp.dst_port))
    else if h.protocol == 17
    then (do udp ← parse_udp_packet h.payload; ok (some udp.dst_port))
    else ok none

-- s[i] of a list of texts, of an index that is in range.
abbrev piece : ℕ → List Text → Text
piece i [] = []
piece zero (p ∷ ps) = p
piece (suc i) (p ∷ ps) = piece i ps

-- Whether the source of a rule is that of the packet.
unfoldable pub matches_source : Text → Text → Bool
matches_source source src_ip =
    if source == text_of "any"
    then true
    else if contains source b'/'
    then (let base = split_on b'.' (piece 0 (split_on b'/' source)) in
        let prefix_len = piece 1 (split_on b'/' source) in
        if prefix_len == text_of "24"
        then starts_with src_ip (join_with b'.' (take 3 base))
        else if prefix_len == text_of "16"
        then starts_with src_ip (join_with b'.' (take 2 base))
        else if prefix_len == text_of "8"
        then starts_with src_ip (piece 0 base)
        else true)
    else src_ip == source

-- Whether the port of a rule, if it has one, is that of the packet.
abbrev pub matches_port : Option ℕ → Option ℕ → Bool
matches_port none p = true
matches_port (some n) none = false
matches_port (some n) (some p) = p == n

unfoldable pub matches_rule : Rule → String → Option ℕ → Text → Bool
unfolding string_eq
matches_rule rule protocol dst_port src_ip =
    get rule.chain "INPUT" == "INPUT"
    && ((get rule.protocol "all" == "all" || get rule.protocol "all" == protocol)
        && (matches_port rule.port dst_port
            && matches_source (get rule.source (text_of "any")) src_ip))

-- The loop over the rules. A rule with another action decides nothing.
unfoldable pub check_rules : List Rule → String → Option ℕ → Text → Bool
unfolding matches_rule string_eq
check_rules [] protocol dst_port src_ip = true
check_rules (rule ∷ rules) protocol dst_port src_ip =
    let rest = check_rules rules protocol dst_port src_ip in
    let action = get rule.action "ACCEPT" in
    if not (matches_rule rule protocol dst_port src_ip)
    then rest
    else if action == "DROP" || action == "REJECT"
    then false
    else if action == "ACCEPT"
    then true
    else rest

-- What is read of a packet before the rules.
unfoldable pub protocol_and_port : Bytes → Result (String × Option ℕ)
unfolding parse_ip_packet protocol_name port_of
protocol_and_port bs = do h ← parse_ip_packet bs; p ← port_of h; ok (protocol_name h.protocol, p)

-- The rules are `none` for a system that has no firewall_rules. An exception lets the packet through.
unfoldable pub check_packet_firewall : Bytes → Option (List Rule) → Text → Bool
unfolding protocol_and_port check_rules
check_packet_firewall bs none src_ip = true
check_packet_firewall bs (some rules) src_ip = elim (protocol_and_port bs) [
  | raises e ↦ true
  | ok (protocol, port) ↦ check_rules rules protocol port src_ip
]
