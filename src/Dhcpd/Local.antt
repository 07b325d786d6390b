-- ===== src/Dhcpd/Local.antt =====
-- The server's own address, which getIpv4ForInterface picks from an interface's addresses.
use netbootd.Prelude.{
  ℕ, ◌≡◌, ◌≢◌, ◌↔◌, refl, ◌⊎◌, inl, inr, arith, true, false, none, some, List, [], ◌∷◌, Bool-cases,
  Option-cases, ok,
}
use netbootd.GoStd.Ip.{Ip, to4, is_loopback}
use netbootd.Dhcpd.Host.{
  Addr, ip_net, other_addr, NetInterface, Host, first_ipv4, get_ipv4_for_interface,
}

-- An address that is not a loopback address and has a form of four bytes.
abbrev pub IsUsable : Ip → Addr → Type 0
IsUsable ip (ip_net a) = (is_loopback a ≡ false) × ((to4 a ≡ ip) × (ip ≢ none))
IsUsable ip other_addr = ⊥

abbrev pub IsUnusable : Addr → Type 0
IsUnusable (ip_net a) = (is_loopback a ≡ true) ⊎ (to4 a ≡ none)
IsUnusable other_addr = Unit

-- The first usable address, after unusable ones.
abbrev pub IsFirstUsable : Ip → List Addr → Type 0
IsFirstUsable ip [] = ⊥
IsFirstUsable ip (a ∷ addresses) = IsUsable ip a ⊎ (IsUnusable a × IsFirstUsable ip addresses)

pub first_ipv4_ok :
    (addresses : List Addr) (ip : Ip) → first_ipv4 addresses ≡ ok ip → IsFirstUsable ip addresses
unfolding first_ipv4
first_ipv4_ok [] ip h = absurd (cc)
first_ipv4_ok (other_addr ∷ addresses) ip h = inr (tt, first_ipv4_ok addresses ip h)
first_ipv4_ok (ip_net a ∷ addresses) ip h = elim (Bool-cases (is_loopback a)) [
  | inl l ↦ inr (inl l, first_ipv4_ok addresses ip (rw l at h))
  | inr l ↦ elim (Option-cases (to4 a)) [
    | inl n ↦ inr (inr n, first_ipv4_ok addresses ip (rw (l, n) at h))
    | inr (b, e) ↦ inl (l, (ground (arith, (rw (l, e) at h)), ground (arith, (rw (l, e) at h))))
  ]
]

first_ipv4_of_IsFirstUsable :
    (addresses : List Addr) (ip : Ip) → IsFirstUsable ip addresses → first_ipv4 addresses ≡ ok ip
unfolding first_ipv4
first_ipv4_of_IsFirstUsable [] ip h = absurd h
first_ipv4_of_IsFirstUsable (other_addr ∷ addresses) ip (inl h) = absurd h
first_ipv4_of_IsFirstUsable (other_addr ∷ addresses) ip (inr (_, h)) =
    first_ipv4_of_IsFirstUsable addresses ip h
first_ipv4_of_IsFirstUsable (ip_net a ∷ addresses) none (inl (l, (e, n))) = absurd (ground arith)
first_ipv4_of_IsFirstUsable (ip_net a ∷ addresses) (some b) (inl (l, (e, n))) = rw (l, e) refl
first_ipv4_of_IsFirstUsable (ip_net a ∷ addresses) ip (inr (inl l, h)) =
    rw l (first_ipv4_of_IsFirstUsable addresses ip h)
first_ipv4_of_IsFirstUsable (ip_net a ∷ addresses) ip (inr (inr n, h)) =
    elim (Bool-cases (is_loopback a)) [
      | inl l ↦ rw l (first_ipv4_of_IsFirstUsable addresses ip h)
      | inr l ↦ rw (l, n) (first_ipv4_of_IsFirstUsable addresses ip h)
    ]

-- For an interface whose addresses can be read, getIpv4ForInterface returns an address exactly when
-- it is the four bytes of the first address that is no loopback address and has such a form.
pub get_ipv4_for_interface_iff :
    (host : Host) (i : ℕ) (netif : NetInterface) (addresses : List Addr) (ip : Ip)
    → host.interface_by_index i ≡ ok netif
    → netif.addrs ≡ ok addresses
    → (get_ipv4_for_interface host i ≡ ok ip) ↔ IsFirstUsable ip addresses
unfolding get_ipv4_for_interface
get_ipv4_for_interface_iff host i netif addresses ip e f =
    rw (e, f) (first_ipv4_ok addresses ip, first_ipv4_of_IsFirstUsable addresses ip)
