-- ===== src/Dhcpd/Writable.antt =====
-- The server's own address in a reply: ToBytes can write it.
use netbootd.Prelude.{
  ℕ, zero, suc, ◌-◌, ◌≡◌, refl, inl, inr, arith, true, none, some, List, [], ◌∷◌, Bytes, length,
  Result, ok, err, ◌==◌, Bool-cases, ◌&&◌,
}
use netbootd.GoStd.Strings.{drop, has_prefix}
use netbootd.GoStd.Ip.{Ip, to4, to4_bytes, v4_in_v6_prefix}
use netbootd.Dhcpd.Host.{
  Addr, ip_net, other_addr, NetInterface, Host, addresses_of, get_ipv4_for_interface, local_ip,
}
use netbootd.Dhcpd.Packet.{is_writable}
use netbootd.Dhcpd.Local.{IsUsable, IsFirstUsable, first_ipv4_ok}

length-drop : (n : ℕ) (b : Bytes) → length (drop n b) ≡ length b - n
unfolding drop
length-drop zero b = omega arith
length-drop (suc n) [] = omega arith
length-drop (suc n) (c ∷ b) = omega (arith, length-drop n b)

-- A form of four bytes is its own.
length-to4_bytes : (a b : Bytes) → to4_bytes a ≡ some b → length b ≡ 4
unfolding to4_bytes
length-to4_bytes a b h = elim (Bool-cases (length a == 4)) [
  | inl four ↦ ground arith
  | inr other ↦ elim (Bool-cases (length a == 16 && has_prefix a v4_in_v6_prefix)) [
    | inl mapped ↦ ground (arith, length-drop 12 a)
    | inr neither ↦ absurd (cc (rw (other, neither) at h))
  ]
]

is_writable_of_length : (b : Bytes) → length b ≡ 4 → is_writable (some b) ≡ true
unfolding is_writable to4 to4_bytes
is_writable_of_length b h = rw (is_writable, h) refl

is_writable-to4 : (a : Ip) (b : Bytes) → to4 a ≡ some b → is_writable (some b) ≡ true
unfolding to4
is_writable-to4 none b h = absurd (cc)
is_writable-to4 (some a) b h = is_writable_of_length b (length-to4_bytes a b h)

is_writable_usable : (ip : Ip) (a : Addr) → IsUsable ip a → is_writable ip ≡ true
is_writable_usable none (ip_net a) (_, (_, ne)) = absurd (ne refl)
is_writable_usable (some b) (ip_net a) (_, (e, _)) = is_writable-to4 a b e
is_writable_usable ip other_addr h = absurd h

is_writable_first : (ip : Ip) (l : List Addr) → IsFirstUsable ip l → is_writable ip ≡ true
is_writable_first ip [] h = absurd h
is_writable_first ip (a ∷ l) (inl usable) = is_writable_usable ip a usable
is_writable_first ip (a ∷ l) (inr (_, later)) = is_writable_first ip l later

of_addresses :
    (name : Bytes) (r : Result (List Addr)) (ip : Ip)
    → addresses_of (ok (record { name = name; addrs = r })) ≡ ok ip
    → is_writable ip ≡ true
of_addresses name (err e) ip h = absurd (cc)
of_addresses name (ok l) ip h = is_writable_first ip l (first_ipv4_ok l ip h)

of_interface : (r : Result NetInterface) (ip : Ip) → addresses_of r ≡ ok ip → is_writable ip ≡ true
of_interface (err e) ip h = absurd (cc)
of_interface (ok netif) ip h = of_addresses netif.name netif.addrs ip h

pub local_ip_writable : (host : Host) (ip : Ip) → local_ip host ≡ ok ip → is_writable ip ≡ true
unfolding local_ip get_ipv4_for_interface
local_ip_writable host ip h = of_interface _ ip h
