-- ===== src/Dhcpd/Bound.antt =====
-- dhcpd/server.go and dhcpd/handler.go: whose address the server takes for its own, by how it is bound.
use netbootd.Prelude.{
  ℕ, ◌≡◌, ◌≢◌, refl, ap, sym, ◌∙◌, inl, inr, ◌⊎◌, arith, false, Option, none, some, [], Bytes,
  str_eq, str_eq_iff, Bool-cases, Option-cases, Result, ok, err, ◌==◌, ◌>>=◌, with_error,
  if◌then◌else◌,
}
use mathlib.Core.Path.{subst}
use netbootd.GoStd.Ip.{Ip, is_multicast}
use netbootd.Dhcpd.Host.{Host, get_ipv4_for_interface, index_or, local_ip}
use netbootd.Dhcpd.Server.{
  Server, Sockets, new_server, with_interface, bind, Datagram, host_for, server_at, on_interface,
}

-- What Serve has made of a server when it comes to its loop.
abbrev IsBound : Sockets → Server → Server → Type 0
IsBound sockets server s =
    ((server.zone ≡ []) × (s ≡ server))
    ⊎ ((server.zone ≢ [])
        × ((ifi : ℕ × Bytes) × ((sockets.interface_by_name server.zone ≡ ok ifi)
              × (s ≡ on_interface server ifi))))

with_error_ok {ℓ} : {A : Type ℓ} (o : Option Bytes) (a b : A) → with_error o a ≡ ok b → a ≡ b
with_error_ok none a b h = cc
with_error_ok (some e) a b h = absurd (cc)

bound_ok {ℓ κ} :
    {A : Type ℓ} {B : Type κ} (r : Result A) (f : A → Result B) (b : B)
    → (r >>= f) ≡ ok b
    → (a : A) × ((r ≡ ok a) × (f a ≡ ok b))
bound_ok (ok a) f b h = (a, (refl, h))
bound_ok (err e) f b h = absurd (cc)

with_interface-IsBound :
    (sockets : Sockets) (server s : Server)
    → with_interface sockets server ≡ ok s
    → IsBound sockets server s
unfolding with_interface
with_interface-IsBound sockets server s h = elim (Bool-cases (str_eq server.zone [])) [
  | inl e ↦ inl (
    (str_eq_iff server.zone []).0 e,
    sym (with_error_ok sockets.set_control_message server s (rw e at h)),
  )
  | inr e ↦
      let (ifi, (found, set)) =
        bound_ok (sockets.interface_by_name server.zone) (λ ifi. ok (on_interface server ifi)) s
          (rw e at h) in
      inr (ground (arith, str_eq_iff server.zone []), (ifi, (found, cc)))
]

joined_ok :
    (sockets : Sockets) (a s : Server)
    → (if is_multicast a.address then with_error (sockets.join_group a.address) a else ok a) ≡ ok s
    → a ≡ s
joined_ok sockets a s h = elim (Bool-cases (is_multicast a.address)) [
  | inl e ↦ with_error_ok (sockets.join_group a.address) a s (rw e at h)
  | inr e ↦ cc (rw e at h)
]

bind-IsBound :
    (sockets : Sockets) (server s : Server) → bind sockets server ≡ ok s → IsBound sockets server s
unfolding bind
bind-IsBound sockets server s h =
    let (a, (listens, h1)) =
      bound_ok (with_error (sockets.listen server.zone server.address) server) _ s h in
    let (b, (interface, h2)) = bound_ok (with_interface sockets a) _ s h1 in
    let same = with_error_ok (sockets.listen server.zone server.address) server a listens in
    subst (λ x. IsBound sockets x s) (sym same)
      (subst (IsBound sockets a) (joined_ok sockets b s h2)
        (with_interface-IsBound sockets a b interface))

of_server_at :
    (ip : Ip) (ifname : Bytes) (server : Server)
    → ok (server_at ip ifname) ≡ ok server
    → (server.zone ≡ ifname) × (server.interface_index ≡ 0)
of_server_at ip ifname server h =
    let same : server_at ip ifname ≡ server = cc in
    (ap (λ (t : Server). t.zone) (sym same), ap (λ (t : Server). t.interface_index) (sym same))

zone_of_new_server :
    (parse_ip : Bytes → Ip) (addr ifname : Bytes) (server : Server)
    → new_server parse_ip addr ifname ≡ ok server
    → (server.zone ≡ ifname) × (server.interface_index ≡ 0)
unfolding new_server
zone_of_new_server parse_ip addr ifname server h = elim (Bool-cases (str_eq addr [])) [
  | inl e ↦ of_server_at none ifname server (rw e at h)
  | inr e ↦ elim (Option-cases (parse_ip addr)) [
    | inl n ↦ absurd (cc (rw (e, n) at h))
    | inr (ip, n) ↦ of_server_at (some ip) ifname server (rw (e, n) at h)
  ]
]

-- A server that Serve has bound to no interface takes for its own, for a datagram, the address that
-- getIpv4ForInterface gives for the interface on which the datagram came in; one that is bound to
-- an interface takes that of its interface for every datagram, if the index of the interface is not
-- 0.
pub bind_local_ip :
    (sockets : Sockets) (parse_ip : Bytes → Ip) (addr ifname : Bytes) (server s : Server)
    (host : Host) (d : Datagram)
    → new_server parse_ip addr ifname ≡ ok server
    → bind sockets server ≡ ok s
    → ((ifname ≡ [])
        × (local_ip (host_for s host d) ≡ get_ipv4_for_interface host (index_or 0 d.oob)))
      ⊎ ((ifi : ℕ × Bytes) × ((sockets.interface_by_name ifname ≡ ok ifi)
            × (ifi.0 ≢ 0 → local_ip (host_for s host d) ≡ get_ipv4_for_interface host ifi.0)))
unfolding local_ip get_ipv4_for_interface
bind_local_ip sockets parse_ip addr ifname server s host d created bound =
    let (zone, index) = zone_of_new_server parse_ip addr ifname server created in
    elim (bind-IsBound sockets server s bound) [
      | inl (none_given, same) ↦
          inl (sym zone ∙ none_given, rw (ap (λ (t : Server). t.interface_index) same ∙ index) refl)
      | inr (given, (ifi, (found, set))) ↦ inr (
        ifi,
        (
          rw zone at found,
          λ ne.
              let nonzero : (ifi.0 == 0) ≡ false = ground arith in
              rw (ap (λ (t : Server). t.interface_index) set, nonzero) refl,
        ),
      )
    ]
