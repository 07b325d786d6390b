-- ===== src/Dhcpd/Uint8Tests.antt =====
-- A buffer of uio's, and the option value of one byte on it.
use netbootd.Prelude.{
  ℕ, ◌≡◌, refl, Bool, true, false, Option, none, some, [], ◌∷◌, ◌++◌, Bytes, bytes,
}
use netbootd.Dhcpd.Uint8.{Uio, to_bytes, from_bytes}

-- What is unread, and whether a read has failed.
abbrev write : Bytes × Bool → ℕ → Bytes × Bool
write (b, failed) n = (b ++ n ∷ [], failed)

abbrev read : Bytes × Bool → ℕ × (Bytes × Bool)
read ([], failed) = (0, ([], true))
read (n ∷ b, failed) = (n, (b, failed))

abbrev finish : Bytes × Bool → Option Bytes
finish ([], false) = none
finish ([], true) = some (bytes "unexpected EOF")
finish (n ∷ b, failed) = some (bytes "unread bytes")

abbrev lexer : Uio
lexer = record {
  Buffer = Bytes × Bool;
  new_big_endian_buffer = λ b. (b, false);
  write8 = write;
  data_of = λ u. u.0;
  read8 = read;
  fin_error = finish;
  data_of-new = λ b. refl;
  data_of-write8 = λ u n. refl;
  read8-∷ = λ n b. refl;
  fin_error-[] = refl;
  fin_error-∷ = λ n b. (bytes "unread bytes", refl);
  fin_error-read8-[] = (bytes "unexpected EOF", refl);
}

to_bytes_7 : to_bytes lexer 7 ≡ 7 ∷ []
unfolding to_bytes
to_bytes_7 = refl

-- The two bytes that the handler sends as option 176.
from_bytes_uint16 : from_bytes lexer (0 ∷ 1 ∷ []) ≡ (0, some (bytes "unread bytes"))
unfolding from_bytes
from_bytes_uint16 = refl
