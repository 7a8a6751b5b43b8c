-- ===== src/Game/Packets/Subnets.antt =====
-- The sources of firewall rules of game/core/packet_queue.py, as networks of addresses.
use poodillion.Prelude.{
  ℕ, Bool, true, false, ◌≡◌, ◌≢◌, refl, List, [], ◌∷◌, ◌++◌, ◌==◌, nat_eq, text_eq, contains, Text,
  text_of, arith, some, String, Option, none, ◌||◌, string_eq, sym, ap, ◌∙◌, map, inl, inr,
  Bool-cases, ==_iff,
}
use mathlib.Core.List.{append_assoc}
use poodillion.Prelude.Decimal.{decimal, AllNumerals, decimal-AllNumerals}
use poodillion.Prelude.Split.{
  split_on, join_with, starts_with, Without, split_on-Without, split_on-append, starts_with-append,
}
use poodillion.Game.Packets.Bytes.{Bytes, ok}
use poodillion.Game.Packets.Ip.{address_of}
use poodillion.Game.Packets.IpRoundTrip.{Address, dotted, decimal-Without}
use poodillion.Game.Packets.Firewall.{
  Rule, matches_source, matches_rule, check_rules, check_packet_firewall, protocol_and_port,
}

-- The source `a.b.c.d/24`.
abbrev pub subnet : Address → Text
subnet s = dotted s ++ text_of "/24"

-- The rule that drops what comes from a source.
abbrev pub drop_network : Address → Rule
drop_network s = record {
  action = some "DROP";
  protocol = none;
  port = none;
  source = some (subnet s);
  chain = none;
}

or_true : (b : Bool) → (b || true) ≡ true
or_true true = refl
or_true false = refl

true-ne-false : true ≢ false
true-ne-false e = cc

contains-append : (p r : Text) (c : ℕ) → contains (p ++ c ∷ r) c ≡ true
contains-append [] r c = rw ((==_iff c c).1 refl) refl
contains-append (x ∷ p) r c = rw (contains-append p r c) (or_true (c == x))

not_any : (p r : Text) → ((p ++ b'/' ∷ r) == text_of "any") ≡ false
unfolding nat_eq
not_any p r = elim (Bool-cases ((p ++ b'/' ∷ r) == text_of "any")) [
  | inl e ↦
      let same : contains (p ++ b'/' ∷ r) b'/' ≡ false =
        ap (λ (t : Text). contains t b'/') ((==_iff (p ++ b'/' ∷ r) (text_of "any")).0 e) in
      absurd (true-ne-false (sym (contains-append p r b'/') ∙ same))
  | inr e ↦ e
]

starts_with-cancel : (p u v : Text) → starts_with (p ++ u) (p ++ v) ≡ starts_with u v
unfolding starts_with
starts_with-cancel [] u v = refl
starts_with-cancel (c ∷ p) u v = rw ((==_iff c c).1 refl) (starts_with-cancel p u v)

Without-append : (sep : ℕ) (p s : Text) → Without sep p → Without sep s → Without sep (p ++ s)
Without-append sep [] s h k = k
Without-append sep (c ∷ p) s h k = (h.0, Without-append sep p s h.1 k)

AllNumerals-Without_slash : (s : Text) → AllNumerals s → Without b'/' s
AllNumerals-Without_slash [] h = tt
AllNumerals-Without_slash (c ∷ s) h =
    let e = h.0 in (ground (arith, e), AllNumerals-Without_slash s h.1)

-- An address has no slash in it.
address_of-Without : (bs : Bytes) → Without b'/' (address_of bs)
unfolding address_of nat_eq
address_of-Without [] = tt
address_of-Without (b ∷ []) = AllNumerals-Without_slash (decimal b) (decimal-AllNumerals b)
address_of-Without (b ∷ c ∷ bs) =
    Without-append b'/' (decimal b) _
      (AllNumerals-Without_slash (decimal b) (decimal-AllNumerals b))
      (refl, address_of-Without (c ∷ bs))

-- The pieces of an address.
split_on-address_of :
    (b : ℕ) (bs : Bytes) → split_on b'.' (address_of (b ∷ bs)) ≡ map decimal (b ∷ bs)
unfolding address_of
split_on-address_of b [] = split_on-Without b'.' (decimal b) (decimal-Without b)
split_on-address_of b (c ∷ bs) =
    rw
      (
        split_on-append b'.' (decimal b) (address_of (c ∷ bs)) (decimal-Without b),
        split_on-address_of c bs,
      )
      refl

-- The first three numbers of an address, with dots.
three : Text → Text → Text → Text
three a b c = join_with b'.' (a ∷ b ∷ c ∷ [])

split_24 : split_on b'/' (text_of "24") ≡ text_of "24" ∷ []
unfolding split_on nat_eq
split_24 = refl

same_24 : (text_of "24" == text_of "24") ≡ true
same_24 = (==_iff (text_of "24") (text_of "24")).1 refl

matches_subnet :
    (s : Address) (src_ip : Text)
    → matches_source (subnet s) src_ip
      ≡ starts_with src_ip (three (decimal s.a) (decimal s.b) (decimal s.c))
unfolding matches_source three
matches_subnet s src_ip =
    let slash = split_on-append b'/' (dotted s) (text_of "24") (address_of-Without _) in
    rw
      (
        not_any (dotted s) (text_of "24"),
        contains-append (dotted s) (text_of "24") b'/',
        slash ∙ ap (λ (ps : List Text). dotted s ∷ ps) split_24,
      )
      (rw (split_on-address_of s.a (s.b ∷ s.c ∷ s.d ∷ []), same_24) refl)

starts_with-address :
    (a b c more d : Text)
    → starts_with (join_with b'.' (a ∷ b ∷ (c ++ more) ∷ d ∷ [])) (three a b c) ≡ true
unfolding join_with three
starts_with-address a b c more d =
    let dot : Text = b'.' ∷ [] in
    starts_with-cancel a _ _
    ∙ starts_with-cancel dot _ _
    ∙ starts_with-cancel b _ _
    ∙ starts_with-cancel dot _ _
    ∙ rw (append_assoc c more (b'.' ∷ d)) (starts_with-append c (more ++ b'.' ∷ d))

dotted-join :
    (t : Address)
    → dotted t ≡ join_with b'.' (decimal t.a ∷ decimal t.b ∷ decimal t.c ∷ decimal t.d ∷ [])
unfolding address_of
dotted-join t = refl

-- What the rule asks of a packet is its source.
drop_network-matches :
    (s : Address) (protocol : String) (port : Option ℕ) (src_ip : Text)
    → matches_rule (drop_network s) protocol port src_ip ≡ matches_source (subnet s) src_ip
unfolding matches_rule string_eq
drop_network-matches s protocol port src_ip = refl

drop_network-check :
    (s : Address) (rules : List Rule) (protocol : String) (port : Option ℕ) (src_ip : Text)
    → matches_source (subnet s) src_ip ≡ true
    → check_rules (drop_network s ∷ rules) protocol port src_ip ≡ false
unfolding check_rules string_eq
drop_network-check s rules protocol port src_ip e =
    rw (drop_network-matches s protocol port src_ip, e) refl

-- A packet that can be parsed, from an address that agrees with `s` in its first two numbers and whose
-- third number begins, as it is written, with the digits of that of `s`, is blocked by a rule that
-- drops what comes from the network `s`/24, and names no protocol, port or chain, when that rule
-- stands first. The third number of the address need not be that of `s`.
pub check_packet_firewall-subnet :
    (s t : Address) (more : Text) (bs : Bytes) (rules : List Rule) (read : String × Option ℕ)
    → protocol_and_port bs ≡ ok read
    → t.a ≡ s.a
    → t.b ≡ s.b
    → decimal t.c ≡ decimal s.c ++ more
    → check_packet_firewall bs (some (drop_network s ∷ rules)) (dotted t) ≡ false
unfolding check_packet_firewall
check_packet_firewall-subnet s t more bs rules (protocol, port) e ha hb hc =
    let begins = starts_with-address (decimal s.a) (decimal s.b) (decimal s.c) more (decimal t.d) in
    rw (e, check_packet_firewall)
      (drop_network-check s rules protocol port (dotted t)
        (matches_subnet s (dotted t) ∙ rw (dotted-join t) (rw (ha, hb, hc) begins)))
