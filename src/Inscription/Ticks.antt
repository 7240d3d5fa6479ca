-- ===== src/Inscription/Ticks.antt =====
-- core/src/model/krc721/tick.rs: a tick is the UTF-8 of a text in upper case, with zero bytes after
-- it up to ten bytes. A text is the list of its code points. The case mappings, the test for letters
-- and digits, and the UTF-8 decoder of the standard library rest on the tables of Unicode: they are
-- parameters.
use krc721_protocol.Prelude.{
  ℕ, zero, suc, ◌+◌, ◌-◌, ◌*◌, ◌/◌, ◌%◌, ◌^◌, Bool, true, Option, none, some, List, [], ◌∷◌, ◌++◌,
  ◌&&◌, not, ◌==◌, ltb, leb, if◌then◌else◌, length, ◌⊎◌, inl, inr,
}
use krc721_protocol.Model.{Tick}

abbrev pub Text : Type 0
Text = List ℕ

pub record Unicode : Type 0 where
  pub to_uppercase : Text → Text
  pub to_lowercase : Text → Text
  pub is_alphanumeric : ℕ → Bool
  pub as_bytes : Text → List ℕ
  pub from_utf8 : List ℕ → Option Text

-- `TickError`, without the text of its UTF-8 error.
pub data TickError : Type 0 where
  utf8_error : TickError
  tick_length : TickError
  tick_length_too_small : TickError
  tick_length_exceeded : TickError
  tick_bytes_length : TickError
  non_alphabet_or_digit : TickError

-- The errors of `Tick::deserialize`, which `serde` reports by their texts.
pub data TickTextError : Type 0 where
  tick_string_too_long : TickTextError
  tick_string_too_short : TickTextError
  tick_string_bytes_size_too_big : TickTextError
  tick_contains_not_allowed_chars : TickTextError

-- `TICK_LENGTH`
abbrev pub tick_bytes : ℕ
tick_bytes = 10

-- `TICK_MIN_LENGTH`
abbrev pub tick_min_length : ℕ
tick_min_length = 1

-- Bytes as one number, the first of them the highest.
unfoldable pub big_endian : List ℕ → ℕ
big_endian [] = 0
big_endian (b ∷ bs) = b * 256 ^ length bs + big_endian bs

-- The lowest bytes of a number, the highest of them first.
unfoldable pub bytes_of : ℕ → ℕ → List ℕ
bytes_of zero n = []
bytes_of (suc k) n = n / 256 ^ k ∷ bytes_of k (n % 256 ^ k)

abbrev pub zeros : ℕ → List ℕ
zeros zero = []
zeros (suc k) = 0 ∷ zeros k

-- `bytes[..len].copy_from_slice(..)` into ten zero bytes.
unfoldable pub padded : List ℕ → Tick
padded bytes = big_endian (bytes ++ zeros (tick_bytes - length bytes))

abbrev pub cons_unless_nul : ℕ → Text → Text
cons_unless_nul c [] = if c == 0 then [] else c ∷ []
cons_unless_nul c (d ∷ ds) = c ∷ d ∷ ds

-- `trim_end_matches('\0')`
unfoldable pub trim_nul : Text → Text
trim_nul [] = []
trim_nul (c ∷ cs) = cons_unless_nul c (trim_nul cs)

module _ (u : Unicode) where
  unfoldable pub all_alphanumeric : Text → Bool
  all_alphanumeric [] = true
  all_alphanumeric (c ∷ cs) = u.is_alphanumeric c && all_alphanumeric cs

  -- `(TICK_MIN_LENGTH..=TICK_LENGTH).contains(&char_count)`
  abbrev tick_length_fits : ℕ → Bool
  tick_length_fits n = leb tick_min_length n && leb n tick_bytes

  -- The tests that `new` and `from_str` share, on a text in upper case.
  unfoldable pub checked_tick : Text → TickError ⊎ Tick
  checked_tick s =
      if not (all_alphanumeric s)
      then inl non_alphabet_or_digit
      else if not (tick_length_fits (length s))
      then inl tick_length
      else if ltb tick_bytes (length (u.as_bytes s))
      then inl tick_bytes_length
      else inr (padded (u.as_bytes s))

  unfoldable pub from_str : Text → TickError ⊎ Tick
  from_str s = checked_tick (u.to_uppercase s)

  -- `Tick::new`
  unfoldable pub new_tick : List ℕ → TickError ⊎ Tick
  new_tick bytes = elim (u.from_utf8 bytes) [
    | none ↦ inl utf8_error
    | some s ↦ checked_tick (u.to_uppercase (trim_nul s))
  ]

  -- `Tick::deserialize`
  unfoldable pub deserialize_tick : Text → TickTextError ⊎ Tick
  deserialize_tick text =
      let s = u.to_uppercase text in
      if ltb tick_bytes (length s)
      then inl tick_string_too_long
      else if ltb (length s) tick_min_length
      then inl tick_string_too_short
      else if ltb tick_bytes (length (u.as_bytes s))
      then inl tick_string_bytes_size_too_big
      else if not (all_alphanumeric s)
      then inl tick_contains_not_allowed_chars
      else inr (padded (u.as_bytes s))

  -- `Tick::as_str`, which reads the bytes unchecked: on bytes that are no UTF-8 there is no value.
  unfoldable pub as_str : Tick → Option Text
  as_str tick = elim (u.from_utf8 (bytes_of tick_bytes tick)) [
    | none ↦ none
    | some s ↦ some (trim_nul s)
  ]
