-- ===== src/Tests/Texts.antt =====
-- A concrete standard library for the theorems on ticks: UTF-8, with the letters and digits of ASCII
-- as the only ones.
use krc721_protocol.Prelude.{
  ℕ, ◌+◌, ◌-◌, ◌*◌, ◌≡◌, refl, Bool, true, ◌&&◌, ◌||◌, some, [], ◌∷◌, map, leb, if◌then◌else◌,
  arith, inr,
}
use krc721_protocol.Inscription.Ticks.{
  Text, Unicode, from_str, new_tick, deserialize_tick, as_str, bytes_of, checked_tick,
  all_alphanumeric, padded, big_endian,
}
use krc721_protocol.Inscription.TickLaws.{
  is_char, Chars, no_chars, one_char, UnicodeLaws, from_str-readers,
}
use krc721_protocol.Tests.Utf8.{encode, encode_char, decode, decode-encode, Bytes-encode}

abbrev upper : ℕ → ℕ
upper c = if leb b'a' c && leb c b'z' then c - 32 else c

abbrev lower : ℕ → ℕ
lower c = if leb b'A' c && leb c b'Z' then c + 32 else c

abbrev alphanumeric : ℕ → Bool
alphanumeric c =
    leb b'A' c && leb c b'Z' || (leb b'a' c && leb c b'z' || (leb b'0' c && leb c b'9'))

abbrev pub ascii : Unicode
ascii = record {
  to_uppercase = map upper;
  to_lowercase = map lower;
  is_alphanumeric = alphanumeric;
  as_bytes = encode;
  from_utf8 = decode 0 0 0;
}

upper-is_char : (c : ℕ) → is_char c ≡ true → is_char (upper c) ≡ true
upper-is_char c h = ground (arith, h)

Chars-upper : (s : Text) → Chars s → Chars (map upper s)
Chars-upper [] no_chars = no_chars
Chars-upper (c ∷ cs) (one_char char chars) = one_char (upper-is_char c char) (Chars-upper cs chars)

ascii_laws : UnicodeLaws ascii
ascii_laws = record {
  decode = decode-encode;
  encode = Bytes-encode;
  nul = refl;
  upper = Chars-upper;
}

-- "kas", and the tick KAS.
abbrev kas : Text
kas = b'k' ∷ b'a' ∷ b's' ∷ []

abbrev pub kas_upper : Text
kas_upper = b'K' ∷ b'A' ∷ b'S' ∷ []

abbrev pub kas_tick : ℕ
kas_tick = (b'K' * 65536 + b'A' * 256 + b'S') * 72057594037927936

kas-from_str : from_str ascii kas ≡ inr kas_tick
unfolding from_str encode encode_char checked_tick all_alphanumeric padded big_endian
kas-from_str = refl

kas-Chars : Chars kas
kas-Chars = one_char refl (one_char refl (one_char refl no_chars))

from_str-readers_example :
    (deserialize_tick ascii kas ≡ inr kas_tick)
    × (as_str ascii kas_tick ≡ some kas_upper)
    × (new_tick ascii (bytes_of 10 kas_tick) ≡ from_str ascii kas_upper)
from_str-readers_example = from_str-readers ascii ascii_laws kas kas_tick kas-Chars kas-from_str
