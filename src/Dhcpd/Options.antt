-- ===== src/Dhcpd/Options.antt =====
-- The options that HandleMsg4 puts into a reply, as its receiver reads them.
use netbootd.Prelude.{
  ℕ, ◌≡◌, refl, ◌∙◌, ◌↔◌, arith, Bool, true, false, not, ◌&&◌, ◌||◌, some, List, [], ◌∷◌, Bytes,
  str_eq_iff, ◌==◌, if◌then◌else◌,
}
use netbootd.GoStd.Ip.{Ip}
use netbootd.Manifest.Defs.{Manifest}
use netbootd.Dhcpd.Host.{Host}
use netbootd.Dhcpd.Packet.{
  Request, DhcpOption, code_of, opt_server_identifier, opt_subnet_mask, opt_ip_address_lease_time,
  opt_host_name, opt_dns, opt_router, opt_ntp_servers, opt_tftp_server_name, opt_boot_file_name,
  opt_generic, Dhcpv4,
}
use netbootd.Dhcpd.Defs.{
  slices_equal_from, string_slices_equal, is_ipxe, boot_file, update_if, fill_options,
}

∷-inj : {A : Type 0} (x y : A) (xs ys : List A) → (x ∷ xs) ≡ (y ∷ ys) → (x ≡ y) × (xs ≡ ys)
∷-inj x y xs ys h = (cc, cc)

-- stringSlicesEqual is equality: its index b[i] is never out of range, and the lists are as long.
pub string_slices_equal_iff : (a b : List Bytes) → (string_slices_equal a b ≡ true) ↔ (a ≡ b)
unfolding string_slices_equal slices_equal_from
string_slices_equal_iff [] [] = (λ _. refl, λ _. refl)
string_slices_equal_iff [] (y ∷ b) = (λ h. ground arith, λ h. cc)
string_slices_equal_iff (x ∷ a) [] = (λ h. ground arith, λ h. cc)
string_slices_equal_iff (x ∷ a) (y ∷ b) =
    let ih = string_slices_equal_iff a b in
    let same = str_eq_iff x y in
    (
      λ h. ground (arith, ih, same),
      λ h. let (e, es) = ∷-inj x y a b h in ground (arith, same, ih, e, es),
    )

-- The codes that HandleMsg4 may set: any other option of the fresh reply stays.
abbrev pub is_set : ℕ → Bool
is_set code =
    code == 1
    || code == 3
    || code == 6
    || code == 12
    || code == 13
    || code == 42
    || code == 51
    || code == 54
    || code == 66
    || code == 67
    || code == 176

if-not : {A : Type 0} (b : Bool) (x y : A) → (if not b then x else y) ≡ (if b then y else x)
if-not true x y = refl
if-not false x y = refl

if_and_false : {A : Type 0} (b : Bool) (x y : A) → (if b && false then x else y) ≡ y
if_and_false true x y = refl
if_and_false false x y = refl

module _ (lib : Dhcpv4) where
  open lib use {Options, update, get, get-update}

  pub get-update_if :
      (b : Bool) (x : DhcpOption) (o : Options) (code : ℕ)
      → get (update_if lib b x o) code
        ≡ (if code_of x == code then (if b then some x else get o code) else get o code)
  unfolding update_if
  get-update_if true x o code = get-update o x code
  get-update_if false x o code = ground arith

  pub get-update_if-ne :
      (b : Bool) (x : DhcpOption) (o : Options) (code : ℕ)
      → (code_of x == code) ≡ false
      → get (update_if lib b x o) code ≡ get o code
  get-update_if-ne b x o code h = get-update_if b x o code ∙ ground arith

  get-update-ne :
      (x : DhcpOption) (o : Options) (code : ℕ)
      → (code_of x == code) ≡ false
      → get (update o x) code ≡ get o code
  get-update-ne x o code h = get-update o x code ∙ rw h refl

  not_set : (code k : ℕ) → is_set k ≡ true → is_set code ≡ false → (k == code) ≡ false
  not_set code k h other = ground arith

  other_option :
      (host : Host) (m : Manifest) (req : Request) (local : Ip) (o : Options) (code : ℕ)
      → is_set code ≡ false
      → get (fill_options lib host m req local o) code ≡ get o code
  unfolding fill_options
  other_option host m req local o code other =
      let ne : (k : ℕ) → is_set k ≡ true → (k == code) ≡ false = λ k h. not_set code k h other in
      get-update_if-ne _ _ _ code (ne 176 refl)
      ∙ get-update_if-ne _ _ _ code (ne 13 refl)
      ∙ get-update_if-ne _ _ _ code (ne 67 refl)
      ∙ get-update_if-ne _ _ _ code (ne 66 refl)
      ∙ get-update_if-ne _ _ _ code (ne 42 refl)
      ∙ get-update_if-ne _ _ _ code (ne 3 refl)
      ∙ get-update_if-ne _ _ _ code (ne 6 refl)
      ∙ get-update_if-ne _ _ _ code (ne 12 refl)
      ∙ get-update_if-ne _ _ _ code (ne 51 refl)
      ∙ get-update-ne _ _ code (ne 1 refl)
      ∙ get-update-ne _ _ code (ne 54 refl)

  -- What the reply to a client with the manifest `m` holds, where the fresh reply has the options
  -- `o`: the mask and the server's address always, the lease time if the manifest has one, name,
  -- name servers, routers and time servers if asked for, the TFTP server and the boot file if asked
  -- for and the manifest is not suspended, option 176 for iPXE, and every other option as it was; 15
  -- too, which the README documents for the manifest's domain.
  pub get-fill_options :
      (host : Host) (m : Manifest) (req : Request) (local : Ip) (o : Options)
      → req.op_code ≡ 1
      → let read = get (fill_options lib host m req local o) in
        let asked = req.is_option_requested in
        ((code : ℕ) → is_set code ≡ false → read code ≡ get o code)
        × ((read 1 ≡ some (opt_subnet_mask m.ipv4.mask))
            × (read 54 ≡ some (opt_server_identifier local))
            × (read 51 ≡ (
                if m.lease_duration == 0
                then get o 51
                else some (opt_ip_address_lease_time m.lease_duration)))
            × (read 12 ≡ (if asked 12 then some (opt_host_name m.hostname) else get o 12))
            × (read 6 ≡ (if asked 6 then some (opt_dns m.dns) else get o 6))
            × (read 3 ≡ (if asked 3 then some (opt_router m.router) else get o 3))
            × (read 42 ≡ (if asked 42 then some (opt_ntp_servers m.ntp) else get o 42))
            × (read 66 ≡ (
                if asked 66 && not m.suspended
                then some (opt_tftp_server_name (host.ip_string local))
                else get o 66))
            × (read 67 ≡ (
                if asked 67 && not m.suspended
                then some (opt_boot_file_name (boot_file m req))
                else get o 67))
            × (read 176 ≡ (if is_ipxe req then some (opt_generic 176 1) else get o 176))
            × (read 13 ≡ get o 13))
  unfolding fill_options
  get-fill_options host m req local o op = (
    (λ code other. other_option host m req local o code other),
    simp (get-update_if, get-update, op)
        (
          refl,
          refl,
          if-not (m.lease_duration == 0) _ _,
          refl,
          refl,
          refl,
          refl,
          refl,
          refl,
          refl,
          if_and_false (req.is_option_requested 13) _ _,
        ),
  )
