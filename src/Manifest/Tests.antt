-- ===== src/Manifest/Tests.antt =====
-- Manifests and mounts on which the theorems of this folder are applied.
use netbootd.Prelude.{
  ℕ, Bool, inr, ltb, leb, ◌==◌, ◌&&◌, if◌then◌else◌, Bool-cases, ◌≡◌, ◌≢◌, refl, ◌↔◌, ◌⊎◌, inl,
  true, false, none, some, str_eq, String, List, [], ◌∷◌, ◌++◌, arith, Bytes, bytes, make, Result,
  ok, err, In, All,
}
use netbootd.GoStd.Strings.{slash, trim_left, trim_prefix, has_prefix}
use netbootd.GoStd.Filepath.{is_abs, dotdot, elements, render}
use netbootd.GoStd.Filepath.Laws.{IsPlain}
use netbootd.GoStd.Filepath.Prefix.{beneath}
use netbootd.GoStd.Mac.{hex_digit, parse_mac, parse_mac_by, parse_pairs}
use netbootd.Manifest.Defs.{
  Mount, Manifest, IpWithNet, is_exact, is_above, get_mount_from, get_mount,
}
use netbootd.Manifest.GetMount.{
  IsLongest, serves, get_mount_sound, get_mount_fails_iff, get_mount-slash,
}
use netbootd.Manifest.HostPath.{host_path_prefix, host_path, validate_host_path}
use netbootd.Manifest.HostPath.Containment.{
  joined, validate_host_path_exact, validate_host_path_escape,
}
use netbootd.Manifest.HardwareAddr.{
  parse, marshal_text, unmarshal_text, unmarshal_text-marshal_text,
}
use netbootd.GoStd.Mask.{mask_string}
use netbootd.Manifest.Ipnet
use netbootd.Manifest.Ipnet.{IsDigit, ReadsPrefixLengths, unmarshal_text-refuses-marshal_text}
use netbootd.Manifest.Io.{validate, manifest_from_yaml}

-- A mount with only a path.
abbrev bare : String → Mount
bare path = record {
  path = bytes path;
  path_is_prefix = true;
  proxy = [];
  append_suffix = true;
  content = [];
  local_dir = [];
}

abbrev files : Mount
files = record (bare "/subdir") { local_dir = bytes "/tftpboot" }

abbrev script : Mount
script = record (bare "/subdir/install.ipxe") { path_is_prefix = false; content = bytes "#!ipxe" }

abbrev machine : Manifest
machine = record {
  id = bytes "ubuntu";
  ipv4 = record { ip = some (192 ∷ 168 ∷ 17 ∷ 101 ∷ []); mask = 255 ∷ 255 ∷ 255 ∷ 0 ∷ [] };
  hostname = bytes "ubuntu-machine";
  domain = bytes "test.local";
  lease_duration = 3600000000000;
  mac = (0 ∷ 21 ∷ 93 ∷ 189 ∷ 190 ∷ 21 ∷ []) ∷ [];
  dns = [];
  router = [];
  ntp = [];
  ipxe = true;
  boot_filename = bytes "install.ipxe";
  mounts = bare "/" ∷ files ∷ script ∷ [];
  suspended = false;
  vars = make;
}

abbrev in_subdir : Bytes
in_subdir = bytes "/subdir/x"

chosen : get_mount machine in_subdir ≡ ok files
unfolding get_mount get_mount_from is_exact str_eq trim_left is_above has_prefix
chosen = refl

get_mount_sound_example :
    In files machine.mounts
    × ((is_exact (trim_left in_subdir slash) files ≡ true)
        ⊎ IsLongest (trim_left in_subdir slash) machine.mounts files)
get_mount_sound_example = get_mount_sound machine in_subdir files chosen

exact_at_script : is_exact (trim_left (bytes "subdir/install.ipxe") slash) script ≡ true
unfolding is_exact trim_left str_eq
exact_at_script = refl

get_mount_fails_iff_example :
    (get_mount machine in_subdir
      ≡ err (bytes "no mount matches path: " ++ trim_left in_subdir slash))
    ↔ All (λ n. serves (trim_left in_subdir slash) n ≡ false) machine.mounts
get_mount_fails_iff_example = get_mount_fails_iff machine in_subdir

get_mount-slash_example : get_mount machine in_subdir ≡ get_mount machine (bytes "subdir/x")
get_mount-slash_example = get_mount-slash machine (bytes "subdir/x")

tftpboot_dir : host_path_prefix files [] ≡ render true (bytes "tftpboot" ∷ [])
unfolding host_path_prefix render is_abs
tftpboot_dir = refl

tftpboot-IsPlain : All IsPlain (bytes "tftpboot" ∷ [])
tftpboot-IsPlain = ground arith

validate_host_path_exact_example :
    (qs : List Bytes) × (host_path files [] in_subdir ≡ render true qs)
    × All IsPlain qs
    × (validate_host_path files [] (host_path files [] in_subdir)
        ≡ beneath (bytes "tftpboot" ∷ []) qs)
validate_host_path_exact_example =
    validate_host_path_exact files [] in_subdir (bytes "tftpboot" ∷ []) tftpboot_dir
      tftpboot-IsPlain

x_goes_down : All (λ part. part ≢ dotdot) (elements (joined files in_subdir))
x_goes_down = unfold elements trim_prefix in ground arith

abbrev climb : Bytes
climb = files.path ++ (bytes "/../" ++ (bytes "tftpboot" ++ bytes "-secret"))

validate_host_path_escape_example :
    (host_path files [] climb ≡ render true ((bytes "tftpboot" ++ bytes "-secret") ∷ []))
    × (validate_host_path files [] (host_path files [] climb) ≡ true)
validate_host_path_escape_example =
    validate_host_path_escape files [] [] (bytes "tftpboot") (bytes "-secret") refl tftpboot_dir
      tftpboot-IsPlain (ground arith)

abbrev mac : Bytes
mac = 0 ∷ 21 ∷ 93 ∷ 189 ∷ 190 ∷ 21 ∷ []

unmarshal_text-marshal_text_example :
    (text : Bytes) × (marshal_text mac ≡ ok text) × (unmarshal_text text ≡ ok mac)
unmarshal_text-marshal_text_example = unmarshal_text-marshal_text mac (omega arith) refl

read_mac : unmarshal_text (bytes "00:15:5d:bd:be:15") ≡ ok mac
unfolding unmarshal_text parse parse_mac parse_mac_by parse_pairs
read_mac = refl

-- A decoder that reads every text as `machine`.
abbrev decode : Bytes → Result Manifest
decode _ = ok machine

decoded : manifest_from_yaml decode [] [] ≡ ok machine
unfolding manifest_from_yaml validate is_abs str_eq
decoded = refl

abbrev is_digit : ℕ → Bool
is_digit c = leb 48 c && ltb c 58

abbrev are_digits : Bytes → Bool
are_digits [] = true
are_digits (c ∷ text) = is_digit c && are_digits text

abbrev after_slash : Bytes → Bytes
after_slash [] = []
after_slash (c ∷ text) = if c == 47 then text else after_slash text

-- A reader of networks that looks at the prefix length only.
abbrev cidr : Bytes → Result IpWithNet
cidr text =
    if are_digits (after_slash text)
    then ok (record { ip = none; mask = [] })
    else err (bytes "invalid CIDR address")

are_digits-slash : (a b : Bytes) → are_digits (a ++ 47 ∷ b) ≡ false
are_digits-slash [] b = refl
are_digits-slash (c ∷ a) b = ground (arith, are_digits-slash a b)

are_digits-IsDigit : (text : Bytes) → are_digits text ≡ true → All IsDigit text
are_digits-IsDigit [] h = tt
are_digits-IsDigit (c ∷ text) h =
    ((ground arith, ground arith), are_digits-IsDigit text (ground arith))

are_digits_after :
    (a b : Bytes) → are_digits (after_slash (a ++ 47 ∷ b)) ≡ true → are_digits b ≡ true
are_digits_after [] b h = h
are_digits_after (c ∷ a) b h = elim (Bool-cases (c == 47)) [
  | inl e ↦ absurd (cc (are_digits-slash a b, rw e at h))
  | inr e ↦ are_digits_after a b (rw e at h)
]

cidr_ok : (text : Bytes) (n : IpWithNet) → cidr text ≡ ok n → are_digits (after_slash text) ≡ true
cidr_ok text n h = ground arith

cidr-ReadsPrefixLengths : ReadsPrefixLengths cidr
cidr-ReadsPrefixLengths address length n h =
    are_digits-IsDigit length
      (are_digits_after address length (cidr_ok (address ++ 47 ∷ length) n h))

written :
    Ipnet.marshal_text
      (λ _. bytes "192.168.17.101")
      (record { ip = none; mask = 255 ∷ 255 ∷ 255 ∷ 0 ∷ [] })
    ≡ ok (bytes "192.168.17.101/ffffff00")
unfolding Ipnet.marshal_text mask_string hex_digit
written = refl

unmarshal_text-refuses-marshal_text_example :
    (e : Bytes) × (Ipnet.unmarshal_text cidr (bytes "192.168.17.101/ffffff00") ≡ err e)
unmarshal_text-refuses-marshal_text_example =
    unmarshal_text-refuses-marshal_text (λ _. bytes "192.168.17.101") cidr none 255
      (255 ∷ 255 ∷ 0 ∷ []) (bytes "192.168.17.101/ffffff00") cidr-ReadsPrefixLengths (omega arith)
      written
