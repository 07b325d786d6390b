-- ===== src/Dhcpd/Arp/Layout.antt =====
-- When InjectArpFd panics, and that its two Linux variants give the kernel the same bytes.
use netbootd.Prelude.{
  ℕ, ◌-◌, ◌<◌, ◌≤◌, ◌≡◌, ◌≢◌, ◌↔◌, refl, ap, arith, Option, none, some, List, [], ◌∷◌, map, Bytes,
  length, ltb, inl, inr, ◌⊎◌, Bool-cases,
}
use netbootd.GoStd.Ip.{Ip}
use netbootd.GoStd.Mac.Laws.{AreBytes}
use netbootd.Dhcpd.Arp.{
  Platform, linux_64, linux_other, not_linux, ℤ, pos, negsuc, int8, ArpReq, zeroes, copy, set_each,
  panicked, arp_req, errno_of, inject_arp_fd,
}

-- The byte in memory of an int8 or of a byte.
abbrev pub stored_byte : ℤ → ℕ
stored_byte (pos n) = n
stored_byte (negsuc n) = 255 - n

abbrev pub stored_bytes : ArpReq → Bytes
stored_bytes req = map stored_byte req.ha_data

stored_byte-int8 : (b : ℕ) → b < 256 → stored_byte (int8 b) ≡ b
unfolding int8
stored_byte-int8 b h = ground arith

-- The loop succeeds exactly if the address is no longer than the array, and the memory then is that
-- of the other variant's copy.
set_each-eq-copy :
    (dst : List ℤ) (mac : Bytes)
    → AreBytes mac
    → length mac ≤ length dst
    → (l : List ℤ) × (set_each dst mac ≡ some l)
      × (map stored_byte l ≡ map stored_byte (copy dst (map pos mac)))
unfolding set_each copy
set_each-eq-copy [] [] h le = ([], refl, refl)
set_each-eq-copy (d ∷ dst) [] h le = (d ∷ dst, refl, refl)
set_each-eq-copy [] (b ∷ mac) h le = absurd (omega arith)
set_each-eq-copy (d ∷ dst) (b ∷ mac) h le =
    let (l, e, same) = set_each-eq-copy dst mac h.1 (omega arith) in
    (int8 b ∷ l, rw e refl, rw (stored_byte-int8 b h.0, same) refl)

set_each-none : (dst : List ℤ) (mac : Bytes) → length dst < length mac → set_each dst mac ≡ none
unfolding set_each
set_each-none [] [] lt = absurd (omega arith)
set_each-none [] (b ∷ mac) lt = refl
set_each-none (d ∷ dst) [] lt = absurd (omega arith)
set_each-none (d ∷ dst) (b ∷ mac) lt = rw (set_each-none dst mac (omega arith)) refl

le_or_lt : (m n : ℕ) → (m ≤ n) ⊎ (n < m)
le_or_lt m n = elim (Bool-cases (ltb n m)) [
  | inl h ↦ inr (ground arith)
  | inr h ↦ inl (ground arith)
]

pub errno_of-ne-panicked : (o : Option Bytes) → errno_of o ≢ panicked
errno_of-ne-panicked none h = cc
errno_of-ne-panicked (some e) h = cc

module _ (ioctl : ArpReq → Option Bytes) (ip : Ip) (mac : Bytes) (flags : ℕ) (dev : Bytes) where
  -- On 64-bit Linux InjectArpFd panics exactly for an address of more than the 14 bytes of the
  -- request's array.
  pub inject_arp_fd_panics_iff :
      AreBytes mac → (inject_arp_fd linux_64 ioctl ip mac flags dev ≡ panicked) ↔ (14 < length mac)
  unfolding inject_arp_fd
  inject_arp_fd_panics_iff h = elim (le_or_lt (length mac) 14) [
    | inl le ↦
        let (l, e, same) = set_each-eq-copy zeroes mac h le in
        (
          λ p. absurd (errno_of-ne-panicked (ioctl (arp_req ip l flags dev)) (rw e at p)),
          λ lt. absurd (omega arith),
        )
    | inr lt ↦ (λ p. lt, λ _. rw (set_each-none zeroes mac lt) refl)
  ]

  -- For an address of at most 14 bytes, the two Linux variants make the same system call, if the
  -- kernel reads the bytes in memory.
  pub inject_arp_fd_variants :
      ((a b : ArpReq)
        → a.pa_family ≡ b.pa_family
        → a.pa_addr ≡ b.pa_addr
        → stored_bytes a ≡ stored_bytes b
        → a.flags ≡ b.flags
        → a.dev ≡ b.dev
        → ioctl a ≡ ioctl b)
      → AreBytes mac
      → length mac ≤ 14
      → inject_arp_fd linux_64 ioctl ip mac flags dev
        ≡ inject_arp_fd linux_other ioctl ip mac flags dev
  unfolding inject_arp_fd arp_req
  inject_arp_fd_variants reads_memory h le =
      let (l, e, same) = set_each-eq-copy zeroes mac h le in
      rw e (ap errno_of (reads_memory _ _ refl refl same refl refl))

  -- On every platform an address of at most 14 bytes does not make InjectArpFd panic.
  pub inject_arp_fd-ne-panicked :
      (platform : Platform)
      → AreBytes mac
      → length mac ≤ 14
      → inject_arp_fd platform ioctl ip mac flags dev ≢ panicked
  inject_arp_fd-ne-panicked linux_64 h le p =
      absurd (omega (arith, (inject_arp_fd_panics_iff h).0 p))
  inject_arp_fd-ne-panicked linux_other h le p = unfold inject_arp_fd in errno_of-ne-panicked _ p
  inject_arp_fd-ne-panicked not_linux h le p = unfold inject_arp_fd in cc p
