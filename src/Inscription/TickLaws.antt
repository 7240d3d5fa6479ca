-- ===== src/Inscription/TickLaws.antt =====
-- The three readers of ticks of core/src/model/krc721/tick.rs, and `as_str` after them.
use native.Mathlib.Nat.{
  mul-le-mul_right, pow-suc, mul-add-div_right, mul-add-mod_self_right, div-eq_of_lt, mod-eq_of_lt,
}
use krc721_protocol.Prelude.{
  ℕ, zero, suc, ◌+◌, ◌-◌, ◌*◌, ◌/◌, ◌%◌, ◌^◌, ◌≤◌, ◌<◌, ◌≡◌, refl, ap, ◌∙◌, Bool, true, false, ◌&&◌,
  ◌||◌, ltb, leb, some, List, [], ◌∷◌, ◌++◌, ◌==◌, length, inr, ◌↔◌, arith, length-append,
}
use krc721_protocol.Model.{Tick}
use krc721_protocol.Inscription.Ticks.{
  Text, Unicode, big_endian, bytes_of, zeros, padded, trim_nul, cons_unless_nul, all_alphanumeric,
  checked_tick, from_str, new_tick, deserialize_tick, as_str,
}

-- Every number of a list is a byte.
pub data Bytes : List ℕ → Type 0 where
  no_bytes : Bytes []
  byte : {b : ℕ} {bs : List ℕ} → b < 256 → Bytes bs → Bytes (b ∷ bs)

-- A code point that is a `char`: a Unicode scalar value, which leaves the surrogates out.
abbrev pub is_char : ℕ → Bool
is_char c = ltb c 0xD800 || (leb 0xE000 c && ltb c 0x110000)

-- A text that a `str` can hold.
pub data Chars : Text → Type 0 where
  no_chars : Chars []
  one_char : {c : ℕ} {cs : Text} → is_char c ≡ true → Chars cs → Chars (c ∷ cs)

big_endian-lt : {bs : List ℕ} → Bytes bs → big_endian bs < 256 ^ length bs
unfolding big_endian
big_endian-lt no_bytes = omega arith
big_endian-lt (byte {b} {bs} small rest) = omega (
  arith,
  big_endian-lt rest,
  mul-le-mul_right {m = b} {n = 255} (256 ^ length bs) (omega (arith, small)),
  pow-suc 256 (length bs),
)

high_byte : (b m r : ℕ) → r < m → ((b * m + r) / m ≡ b) × ((b * m + r) % m ≡ r)
high_byte b m r h =
    let positive : 0 < m = omega arith in
    (
      mul-add-div_right positive b r ∙ omega (arith, div-eq_of_lt {n = r} {m = m} h),
      mul-add-mod_self_right b m r ∙ mod-eq_of_lt {n = r} {m = m} h,
    )

bytes_of-big_endian : {bs : List ℕ} → Bytes bs → bytes_of (length bs) (big_endian bs) ≡ bs
unfolding big_endian bytes_of
bytes_of-big_endian no_bytes = refl
bytes_of-big_endian (byte {b} {bs} small rest) =
    let (quotient, remainder) =
      high_byte b (256 ^ length bs) (big_endian bs) (big_endian-lt rest) in
    rw (quotient, remainder, bytes_of-big_endian rest) refl

Bytes-zeros : (k : ℕ) → Bytes (zeros k)
Bytes-zeros zero = no_bytes
Bytes-zeros (suc k) = byte (omega arith) (Bytes-zeros k)

pub Bytes-append : {bs cs : List ℕ} → Bytes bs → Bytes cs → Bytes (bs ++ cs)
Bytes-append no_bytes y = y
Bytes-append (byte small rest) y = byte small (Bytes-append rest y)

length-zeros : (k : ℕ) → length (zeros k) ≡ k
length-zeros zero = refl
length-zeros (suc k) = ap (λ n. suc n) (length-zeros k)

kept : (c : ℕ) (s : Text) → (c == 0) ≡ false → cons_unless_nul c s ≡ c ∷ s
kept c [] h = rw h refl
kept c (d ∷ ds) h = refl

trim_nul-zeros : (k : ℕ) → trim_nul (zeros k) ≡ []
unfolding trim_nul
trim_nul-zeros zero = refl
trim_nul-zeros (suc k) = rw (trim_nul-zeros k) refl

module _ (u : Unicode) where
  -- A tick that the two readers of texts accept.
  pub record Readable (s : Text) : Type 0 where
    pub letters : all_alphanumeric u s ≡ true
    pub some_char : 1 ≤ length s
    pub few_chars : length s ≤ 10
    pub few_bytes : length (u.as_bytes s) ≤ 10

  from_str-Readable :
      (s : Text) (tick : Tick)
      → (from_str u s ≡ inr tick)
        ↔ (Readable (u.to_uppercase s) × (tick ≡ padded (u.as_bytes (u.to_uppercase s))))
  unfolding from_str checked_tick
  from_str-Readable s tick = (λ h. ground (arith, h), λ (r, e). ground (arith, r, e))

  deserialize_tick-Readable :
      (s : Text) (tick : Tick)
      → (deserialize_tick u s ≡ inr tick)
        ↔ (Readable (u.to_uppercase s) × (tick ≡ padded (u.as_bytes (u.to_uppercase s))))
  unfolding deserialize_tick
  deserialize_tick-Readable s tick = (λ h. ground (arith, h), λ (r, e). ground (arith, r, e))

  -- What the standard library documents of its texts: `as_bytes` is their UTF-8, which `from_utf8`
  -- reads back, zero bytes at the end included, and `to_uppercase` is a text again.
  pub record UnicodeLaws : Type 0 where
    pub decode :
        (s : Text) (k : ℕ) → Chars s → u.from_utf8 (u.as_bytes s ++ zeros k) ≡ some (s ++ zeros k)
    pub encode : (s : Text) → Chars s → Bytes (u.as_bytes s)
    pub nul : u.is_alphanumeric 0 ≡ false
    pub upper : (s : Text) → Chars s → Chars (u.to_uppercase s)

  from_str-deserialize_tick :
      (s : Text) (tick : Tick) → (from_str u s ≡ inr tick) ↔ (deserialize_tick u s ≡ inr tick)
  from_str-deserialize_tick s tick = (
    λ h. (deserialize_tick-Readable s tick).1 ((from_str-Readable s tick).0 h),
    λ h. (from_str-Readable s tick).1 ((deserialize_tick-Readable s tick).0 h),
  )

  module _ (laws : UnicodeLaws) where
    trim_nul-append : (s : Text) (k : ℕ) → all_alphanumeric u s ≡ true → trim_nul (s ++ zeros k) ≡ s
    unfolding all_alphanumeric trim_nul
    trim_nul-append [] k h = trim_nul-zeros k
    trim_nul-append (c ∷ s) k h =
        ap (λ t. cons_unless_nul c t) (trim_nul-append s k (ground (arith, h)))
        ∙ kept c s (ground (arith, h, laws.nul))

    bytes_of-padded :
        (s : Text)
        → Chars s
        → length (u.as_bytes s) ≤ 10
        → bytes_of 10 (padded (u.as_bytes s)) ≡ u.as_bytes s ++ zeros (10 - length (u.as_bytes s))
    unfolding padded
    bytes_of-padded s chars h =
        let bs = u.as_bytes s in
        let k = 10 - length bs in
        let ten : 10 ≡ length (bs ++ zeros k) =
          omega (arith, h, length-append bs (zeros k), length-zeros k) in
        ap (λ n. bytes_of n (big_endian (bs ++ zeros k))) ten
        ∙ bytes_of-big_endian (Bytes-append (laws.encode s chars) (Bytes-zeros k))

    as_str-padded : (s : Text) → Chars s → Readable s → as_str u (padded (u.as_bytes s)) ≡ some s
    unfolding as_str
    as_str-padded s chars r =
        let k = 10 - length (u.as_bytes s) in
        rw
          (
            as_str,
            bytes_of-padded s chars r.few_bytes,
            laws.decode s k chars,
            trim_nul-append s k r.letters,
          )
          refl

    as_str-from_str :
        (s : Text) (tick : Tick)
        → Chars s
        → from_str u s ≡ inr tick
        → as_str u tick ≡ some (u.to_uppercase s)
    as_str-from_str s tick chars h =
        let (r, e) = (from_str-Readable s tick).0 h in
        ap (λ n. as_str u n) e ∙ as_str-padded (u.to_uppercase s) (laws.upper s chars) r

    -- The ten bytes of a tick are read as the text in upper case is.
    new_tick-from_str :
        (s : Text) (tick : Tick)
        → Chars s
        → from_str u s ≡ inr tick
        → new_tick u (bytes_of 10 tick) ≡ from_str u (u.to_uppercase s)
    unfolding new_tick from_str
    new_tick-from_str s tick chars h =
        let (r, e) = (from_str-Readable s tick).0 h in
        let up = u.to_uppercase s in
        let k = 10 - length (u.as_bytes up) in
        rw
          (
            new_tick,
            ap (λ n. bytes_of 10 n) e ∙ bytes_of-padded up (laws.upper s chars) r.few_bytes,
            laws.decode up k (laws.upper s chars),
            trim_nul-append up k r.letters,
          )
          refl

    -- For a text of Unicode scalar values, where the UTF-8 of such a text is bytes that are read
    -- back, also with zero bytes after it, its upper case is such a text, and the character 0 is
    -- no letter or digit: a tick that is read from the text is read from it by the deserializer
    -- too and shows the text in upper case, and its ten bytes are read as that text in upper case
    -- is.
    pub from_str-readers :
        (s : Text) (tick : Tick)
        → Chars s
        → from_str u s ≡ inr tick
        → (deserialize_tick u s ≡ inr tick)
          × (as_str u tick ≡ some (u.to_uppercase s))
          × (new_tick u (bytes_of 10 tick) ≡ from_str u (u.to_uppercase s))
    from_str-readers s tick chars h = (
      (from_str-deserialize_tick s tick).0 h,
      as_str-from_str s tick chars h,
      new_tick-from_str s tick chars h,
    )
