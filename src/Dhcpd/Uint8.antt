-- ===== src/Dhcpd/Uint8.antt =====
-- dhcpd/types.go: a DHCP option's value of one byte. The buffers of the package uio are the interface
-- `Uio`, a parameter.
use netbootd.Prelude.{ℕ, ◌≡◌, refl, ◌↔◌, Option, none, some, [], ◌∷◌, ◌++◌, Bytes, length, arith}

-- uio's buffers: Data is what was written, Read8 takes the first byte or fails at the end, and
-- FinError is an error after a failed read, or when bytes are left.
pub record Uio : Type 1 where
  pub Buffer : Type 0
  pub new_big_endian_buffer : Bytes → Buffer
  pub write8 : Buffer → ℕ → Buffer
  pub data_of : Buffer → Bytes
  pub read8 : Buffer → ℕ × Buffer
  pub fin_error : Buffer → Option Bytes
  pub data_of-new : (b : Bytes) → data_of (new_big_endian_buffer b) ≡ b
  pub data_of-write8 : (u : Buffer) (n : ℕ) → data_of (write8 u n) ≡ data_of u ++ n ∷ []
  pub read8-∷ :
      (n : ℕ) (b : Bytes) → read8 (new_big_endian_buffer (n ∷ b)) ≡ (n, new_big_endian_buffer b)
  pub fin_error-[] : fin_error (new_big_endian_buffer []) ≡ none
  pub fin_error-∷ :
      (n : ℕ) (b : Bytes) → (e : Bytes) × (fin_error (new_big_endian_buffer (n ∷ b)) ≡ some e)
  pub fin_error-read8-[] : (e : Bytes) × (fin_error (read8 (new_big_endian_buffer [])).1 ≡ some e)

module _ (uio : Uio) where
  -- Uint8.ToBytes, of a value below 256.
  unfoldable pub to_bytes : ℕ → Bytes
  to_bytes o = uio.data_of (uio.write8 (uio.new_big_endian_buffer []) o)

  -- Uint8.FromBytes: the value that is set, with the error.
  unfoldable pub from_bytes : Bytes → ℕ × Option Bytes
  from_bytes text =
      let (o, buf) = uio.read8 (uio.new_big_endian_buffer text) in (o, uio.fin_error buf)

  -- A value is one byte, itself.
  pub to_bytes_lem : (o : ℕ) → to_bytes o ≡ o ∷ []
  unfolding to_bytes
  to_bytes_lem o = rw (uio.data_of-write8, uio.data_of-new) refl

  -- What ToBytes makes of a value is read by FromBytes without an error and gives the value.
  pub from_bytes-to_bytes : (o : ℕ) → from_bytes (to_bytes o) ≡ (o, none)
  unfolding from_bytes
  from_bytes-to_bytes o = rw (to_bytes_lem o, uio.read8-∷, uio.fin_error-[]) refl

  -- FromBytes returns no error exactly for one byte.
  pub from_bytes_ok_iff : (text : Bytes) → ((from_bytes text).1 ≡ none) ↔ (length text ≡ 1)
  unfolding from_bytes
  from_bytes_ok_iff [] =
      let (e, failed) = uio.fin_error-read8-[] in
      rw failed ((λ h. absurd (cc)), (λ h. absurd (omega arith)))
  from_bytes_ok_iff (o ∷ []) = rw (uio.read8-∷, uio.fin_error-[]) ((λ h. refl), (λ h. refl))
  from_bytes_ok_iff (o ∷ (o' ∷ text)) =
      let (e, failed) = uio.fin_error-∷ o' text in
      rw (uio.read8-∷, failed) ((λ h. absurd (cc)), (λ h. absurd (omega arith)))
