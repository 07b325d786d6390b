-- ===== src/Tftpd/Reads.antt =====
-- What tftpReadHandler opens and sends, and when it panics.
use netbootd.Prelude.{◌≡◌, ◌≢◌, ◌⊎◌, ◌↔◌, inl, inr, false, Option, none, some, Bytes, Bool-cases}
use netbootd.GoStd.Files.{StaticFile}
use netbootd.Store.Defs.{Store}
use netbootd.Tftpd.Defs.{
  Services, Transfer, panicked, returned, ReadRequest, serve_static, read_for, tftp_read_handler,
}
use netbootd.Tftpd.Outcomes.{IsStatic, IsMounted, on_outcome}

module _ (services : Services) (s : Store) (r : ReadRequest) where
  IsMounted-same : (b c : Bytes) → b ≡ c → IsMounted services s r b → IsMounted services s r c
  IsMounted-same b c e mounted = rw⁻¹ e mounted

  -- tftpReadHandler returns no error only after it has given the transfer something to send.
  pub tftp_read_handler_sends :
      (t : Transfer) → tftp_read_handler services s r ≡ returned none t → t.contents ≢ none
  unfolding serve_static
  tftp_read_handler_sends =
      on_outcome services s r (λ o. (t : Transfer) → o ≡ returned none t → t.contents ≢ none)
        (λ e t h. absurd (cc))
        (λ f static otherwise t h k. elim (Bool-cases f.is_read_seeker) [
          | inl a ↦ cc (rw a at h)
          | inr a ↦ cc (rw a at h)
        ])
        (λ size b mounted t h k. cc)

  -- What tftpReadHandler gives to the transfer is a bundled file, if the client's manifest lets it
  -- serve iPXE, or comes from the mount that GetMount chooses in the manifest at the client's
  -- address: an upstream's answer with status 200, the executed template, or a file of the host
  -- whose path passed ValidateHostPath.
  pub tftp_read_handler_source :
      (e : Option Bytes) (t : Transfer) (b : Bytes)
      → tftp_read_handler services s r ≡ returned e t
      → t.contents ≡ some b
      → ((f : StaticFile) × (IsStatic services s r f × (f.contents ≡ b))) ⊎ IsMounted services s r b
  unfolding serve_static
  tftp_read_handler_source e t b h k =
      on_outcome services s r
        (λ o.
          (e : Option Bytes) (t : Transfer) (b : Bytes)
          → o ≡ returned e t
          → t.contents ≡ some b
          → ((f : StaticFile) × (IsStatic services s r f × (f.contents ≡ b)))
            ⊎ IsMounted services s r b)
        (λ e' e t b h k. absurd (cc))
        (λ f static otherwise e t b h k. elim (Bool-cases f.is_read_seeker) [
          | inl a ↦ inl (f, (static, cc (rw a at h)))
          | inr a ↦ absurd (cc (rw a at h))
        ])
        (λ size b' mounted e t b h k. inr (IsMounted-same b' b (cc) mounted)) e t b h k

  -- The name of the request is that of a bundled directory, such as ".", and the client's manifest
  -- lets TFTP serve iPXE.
  abbrev pub OpensDirectory : Type 0
  OpensDirectory = (f : StaticFile) × (IsStatic services s r f × (f.is_read_seeker ≡ false))

  panics_of_OpensDirectory : OpensDirectory → tftp_read_handler services s r ≡ panicked
  unfolding tftp_read_handler read_for serve_static
  panics_of_OpensDirectory (f, (static, directory)) =
      rw static.found (simp (static.ipxe, static.opened, directory))

  -- tftpReadHandler panics exactly on a bundled directory.
  pub tftp_read_handler_panics_iff : (tftp_read_handler services s r ≡ panicked) ↔ OpensDirectory
  unfolding serve_static
  tftp_read_handler_panics_iff = (
    on_outcome services s r (λ o. o ≡ panicked → OpensDirectory) (λ e h. absurd (cc))
        (λ f static otherwise h. elim (Bool-cases f.is_read_seeker) [
          | inl a ↦ absurd (cc (rw a at h))
          | inr a ↦ (f, (static, a))
        ])
        (λ size b mounted h. absurd (cc)),
    panics_of_OpensDirectory,
  )
