-- ===== src/Tests/Utf8.antt =====
-- UTF-8, as `str::as_bytes` and `std::str::from_utf8` have it, for the theorems on ticks: the
-- decoder takes no surrogate, no longer form than a code point needs, and none above 0x10FFFF.
use krc721_protocol.Prelude.{
  ℕ, zero, suc, ◌+◌, ◌-◌, ◌*◌, ◌/◌, ◌%◌, ◌<◌, ◌≡◌, refl, ap, ◌∙◌, true, false, Bool-cases, inl, inr,
  ◌&&◌, Option, none, some, List, [], ◌∷◌, ◌++◌, ltb, leb, ◌==◌, if◌then◌else◌, arith,
}
use krc721_protocol.Inscription.Ticks.{Text, zeros}
use krc721_protocol.Inscription.TickLaws.{
  Bytes, no_bytes, byte, Bytes-append, is_char, Chars, no_chars, one_char,
}

-- The lowest six bits of a number, in a continuation byte.
abbrev tail_byte : ℕ → ℕ
tail_byte n = 128 + n % 64

unfoldable pub encode_char : ℕ → List ℕ
encode_char c =
    if ltb c 128
    then c ∷ []
    else if ltb c 2048
    then (192 + c / 64) ∷ tail_byte c ∷ []
    else if ltb c 65536
    then (224 + c / 64 / 64) ∷ tail_byte (c / 64) ∷ tail_byte c ∷ []
    else (240 + c / 64 / 64 / 64) ∷ tail_byte (c / 64 / 64) ∷ tail_byte (c / 64) ∷ tail_byte c ∷ []

unfoldable pub encode : Text → List ℕ
encode [] = []
encode (c ∷ cs) = encode_char c ++ encode cs

-- What a byte leads to: an error, a code point that misses more bytes and is at least `low`, or a
-- code point.
pub data Step : Type 0 where
  bad : Step
  wait : (more low acc : ℕ) → Step
  emit : ℕ → Step

abbrev continue : ℕ → ℕ → ℕ → Step
continue zero low acc = if leb low acc && is_char acc then emit acc else bad
continue (suc more) low acc = wait (suc more) low acc

unfoldable pub read_byte : ℕ → ℕ → ℕ → ℕ → Step
read_byte zero low acc b =
    if ltb b 128
    then emit b
    else if ltb b 194
    then bad
    else if ltb b 224
    then wait 1 128 (b - 192)
    else if ltb b 240
    then wait 2 2048 (b - 224)
    else if ltb b 245
    then wait 3 65536 (b - 240)
    else bad
read_byte (suc more) low acc b =
    if leb 128 b && ltb b 192 then continue more low (acc * 64 + (b - 128)) else bad

abbrev pub after : ℕ → Option Text → Option Text
after c none = none
after c (some cs) = some (c ∷ cs)

unfoldable pub decode : ℕ → ℕ → ℕ → List ℕ → Option Text
decode more low acc [] = if more == 0 then some [] else none
decode more low acc (b ∷ bs) = elim (read_byte more low acc b) [
  | bad ↦ none
  | wait more' low' acc' ↦ decode more' low' acc' bs
  | emit c ↦ after c (decode 0 0 0 bs)
]

decode-wait :
    (more low acc b : ℕ) (bs : List ℕ) (more' low' acc' : ℕ)
    → read_byte more low acc b ≡ wait more' low' acc'
    → decode more low acc (b ∷ bs) ≡ decode more' low' acc' bs
unfolding decode
decode-wait more low acc b bs more' low' acc' h = rw (decode, h) refl

decode-emit :
    (more low acc b : ℕ) (bs : List ℕ) (c : ℕ)
    → read_byte more low acc b ≡ emit c
    → decode more low acc (b ∷ bs) ≡ after c (decode 0 0 0 bs)
unfolding decode
decode-emit more low acc b bs c h = rw (decode, h) refl

-- A continuation byte that is not the last, and one that is.
read_byte-middle :
    (k low acc n : ℕ)
    → acc ≡ n / 64
    → read_byte (suc (suc k)) low acc (tail_byte n) ≡ wait (suc k) low n
unfolding read_byte
read_byte-middle k low acc n e = ground (arith, e)

read_byte-last :
    (low acc c : ℕ)
    → acc ≡ c / 64
    → leb low c ≡ true
    → is_char c ≡ true
    → read_byte 1 low acc (tail_byte c) ≡ emit c
unfolding read_byte
read_byte-last low acc c e h char = ground (arith, e, h, char)

one_byte : (c : ℕ) → ltb c 128 ≡ true → read_byte 0 0 0 c ≡ emit c
unfolding read_byte
one_byte c h = rw (read_byte, h) refl

is_char-lt : (c : ℕ) → is_char c ≡ true → c < 0x110000
is_char-lt c h = ground (arith, h)

Bytes-tail : {bs : List ℕ} (n : ℕ) → Bytes bs → Bytes (tail_byte n ∷ bs)
Bytes-tail n rest = byte (omega arith) rest

decode-two :
    (c : ℕ) (rest : List ℕ)
    → ltb c 128 ≡ false
    → ltb c 2048 ≡ true
    → is_char c ≡ true
    → decode 0 0 0 ((192 + c / 64) ∷ tail_byte c ∷ rest) ≡ after c (decode 0 0 0 rest)
unfolding read_byte
decode-two c rest h h' char =
    decode-wait 0 0 0 (192 + c / 64) (tail_byte c ∷ rest) 1 128 (c / 64) (ground (arith, h, h'))
    ∙ decode-emit 1 128 (c / 64) (tail_byte c) rest c
        (read_byte-last 128 (c / 64) c refl (ground (arith, h)) char)

decode-three :
    (c : ℕ) (rest : List ℕ)
    → ltb c 2048 ≡ false
    → ltb c 65536 ≡ true
    → is_char c ≡ true
    → decode 0 0 0 ((224 + c / 64 / 64) ∷ tail_byte (c / 64) ∷ tail_byte c ∷ rest)
      ≡ after c (decode 0 0 0 rest)
unfolding read_byte
decode-three c rest h h' char =
    let d = c / 64 in
    decode-wait 0 0 0 (224 + d / 64) (tail_byte d ∷ tail_byte c ∷ rest) 2 2048 (d / 64)
      (ground (arith, h, h'))
    ∙ decode-wait 2 2048 (d / 64) (tail_byte d) (tail_byte c ∷ rest) 1 2048 d
        (read_byte-middle 0 2048 (d / 64) d refl)
    ∙ decode-emit 1 2048 d (tail_byte c) rest c
        (read_byte-last 2048 d c refl (ground (arith, h)) char)

decode-four :
    (c : ℕ) (rest : List ℕ)
    → ltb c 65536 ≡ false
    → is_char c ≡ true
    → decode 0 0 0 (
        (240 + c / 64 / 64 / 64)
        ∷ tail_byte (c / 64 / 64)
        ∷ tail_byte (c / 64)
        ∷ tail_byte c
        ∷ rest)
      ≡ after c (decode 0 0 0 rest)
unfolding read_byte
decode-four c rest h char =
    let d = c / 64 in
    let e = d / 64 in
    decode-wait 0 0 0 (240 + e / 64) (tail_byte e ∷ tail_byte d ∷ tail_byte c ∷ rest) 3 65536
      (e / 64) (ground (arith, h, is_char-lt c char))
    ∙ decode-wait 3 65536 (e / 64) (tail_byte e) (tail_byte d ∷ tail_byte c ∷ rest) 2 65536 e
        (read_byte-middle 1 65536 (e / 64) e refl)
    ∙ decode-wait 2 65536 e (tail_byte d) (tail_byte c ∷ rest) 1 65536 d
        (read_byte-middle 0 65536 e d refl)
    ∙ decode-emit 1 65536 d (tail_byte c) rest c
        (read_byte-last 65536 d c refl (ground (arith, h)) char)

decode-encode_char :
    (c : ℕ) (rest : List ℕ)
    → is_char c ≡ true
    → decode 0 0 0 (encode_char c ++ rest) ≡ after c (decode 0 0 0 rest)
unfolding encode_char
decode-encode_char c rest char = elim (Bool-cases (ltb c 128)) [
  | inl h ↦ rw (encode_char, h) (decode-emit 0 0 0 c rest c (one_byte c h))
  | inr h ↦ elim (Bool-cases (ltb c 2048)) [
    | inl h' ↦ rw (encode_char, h, h') (decode-two c rest h h' char)
    | inr h' ↦ elim (Bool-cases (ltb c 65536)) [
      | inl h'' ↦ rw (encode_char, h, h', h'') (decode-three c rest h' h'' char)
      | inr h'' ↦ rw (encode_char, h, h', h'') (decode-four c rest h'' char)
    ]
  ]
]

decode-zeros : (k : ℕ) → decode 0 0 0 (zeros k) ≡ some (zeros k)
unfolding decode
decode-zeros zero = refl
decode-zeros (suc k) = decode-emit 0 0 0 0 (zeros k) 0 (one_byte 0 refl) ∙ rw (decode-zeros k) refl

append_three : (xs ys zs : List ℕ) → (xs ++ ys) ++ zs ≡ xs ++ (ys ++ zs)
append_three [] ys zs = refl
append_three (x ∷ xs) ys zs = ap (λ t. x ∷ t) (append_three xs ys zs)

pub decode-encode :
    (s : Text) (k : ℕ) → Chars s → decode 0 0 0 (encode s ++ zeros k) ≡ some (s ++ zeros k)
unfolding encode
decode-encode [] k no_chars = decode-zeros k
decode-encode (c ∷ cs) k (one_char char chars) =
    ap (λ t. decode 0 0 0 t) (append_three (encode_char c) (encode cs) (zeros k))
    ∙ decode-encode_char c (encode cs ++ zeros k) char
    ∙ rw (decode-encode cs k chars) refl

Bytes-encode_char : (c : ℕ) → is_char c ≡ true → Bytes (encode_char c)
unfolding encode_char
Bytes-encode_char c char = elim (Bool-cases (ltb c 128)) [
  | inl h ↦ rw (encode_char, h) (byte (ground (arith, h)) no_bytes)
  | inr h ↦ elim (Bool-cases (ltb c 2048)) [
    | inl h' ↦ rw (encode_char, h, h') (byte (ground (arith, h')) (Bytes-tail c no_bytes))
    | inr h' ↦ elim (Bool-cases (ltb c 65536)) [
      | inl h'' ↦
          rw (encode_char, h, h', h'')
            (byte (ground (arith, h'')) (Bytes-tail (c / 64) (Bytes-tail c no_bytes)))
      | inr h'' ↦
          rw (encode_char, h, h', h'')
            (byte (omega (arith, is_char-lt c char))
              (Bytes-tail (c / 64 / 64) (Bytes-tail (c / 64) (Bytes-tail c no_bytes))))
    ]
  ]
]

pub Bytes-encode : (s : Text) → Chars s → Bytes (encode s)
unfolding encode
Bytes-encode [] no_chars = no_bytes
Bytes-encode (c ∷ cs) (one_char char chars) =
    Bytes-append (Bytes-encode_char c char) (Bytes-encode cs chars)

-- The euro sign has three bytes, a surrogate and a form that is too long have no text.
decode_euro : decode 0 0 0 (encode (0x20AC ∷ [])) ≡ some (0x20AC ∷ [])
unfolding decode read_byte encode encode_char
decode_euro = refl

decode_surrogate : decode 0 0 0 (0xED ∷ 0xA0 ∷ 0x80 ∷ []) ≡ none
unfolding decode read_byte
decode_surrogate = refl

decode_long_form : decode 0 0 0 (0xE0 ∷ 0x80 ∷ 0x80 ∷ []) ≡ none
unfolding decode read_byte
decode_long_form = refl
