-- ===== src/Tests/Scripts.antt =====
-- A concrete reader and builder of scripts, with the codes of kaspa_txscript: small numbers as opcodes
-- of their own, pushes of up to 75 bytes after their length, longer ones after 76 and a byte of
-- length, and single opcodes.
use krc721_protocol.Prelude.{
  ℕ, zero, suc, ◌+◌, ◌≤◌, ◌≡◌, refl, ap, true, false, Option, none, some, List, [], ◌∷◌, ◌++◌, leb,
  ◌==◌, if◌then◌else◌, arith, length, Bool-cases, inl, inr,
}
use krc721_protocol.Inscription.Codes.{Script, Opcode, Item, opcode, tx_script_error}
use krc721_protocol.Inscription.Listing.{Builder}
use krc721_protocol.Analyzer.Windows.{take, drop}
use krc721_protocol.Analyzer.Parse.{Consumes}
use krc721_protocol.Analyzer.Envelope.{Content}
use krc721_protocol.Analyzer.Redeem.{
  ScriptLaws, ReadAs, Single, is_check_sig, is_false, is_if, is_end_if,
}

abbrev push_of : ℕ → List ℕ → Item
push_of code bytes =
    opcode (record { value = code; is_empty = false; is_push_opcode = true; get_data = bytes })

-- A push of `n` bytes, if they are there.
unfoldable pub read_push : ℕ → ℕ → List ℕ → Item × List ℕ
read_push code n rest =
    if leb n (length rest)
    then (push_of code (take n rest), drop n rest)
    else (tx_script_error [], [])

unfoldable pub read_long : List ℕ → Item × List ℕ
read_long [] = (tx_script_error [], [])
read_long (n ∷ rest) = read_push 76 n rest

unfoldable pub read_code : ℕ → List ℕ → Item × List ℕ
read_code code rest =
    if code == 0
    then (
      opcode (record { value = 0; is_empty = true; is_push_opcode = true; get_data = [] }),
      rest,
    )
    else if leb code 75
    then read_push code code rest
    else if code == 76
    then read_long rest
    else (
      opcode (record { value = code; is_empty = false; is_push_opcode = false; get_data = [] }),
      rest,
    )

unfoldable pub read_next : List ℕ → Option (Item × List ℕ)
read_next [] = none
read_next (code ∷ rest) = some (read_code code rest)

abbrev pub kaspa_script : Script
kaspa_script = record {
  op_check_sig = 172;
  op_check_sig_ecdsa = 171;
  op_data32 = 32;
  op_data33 = 33;
  op_end_if = 104;
  op_false = 0;
  op_if = 99;
  op_true = 81;
  deserialize_next_opcode = read_next;
  sompi_per_kaspa = 100_000_000;
}

-- A push of one byte: the numbers up to 16 and -1 have opcodes of their own.
abbrev one_byte : ℕ → List ℕ
one_byte b =
    if b == 0
    then 0 ∷ []
    else if leb b 16
    then (80 + b) ∷ []
    else if b == 129
    then 79 ∷ []
    else 1 ∷ b ∷ []

-- A push of two bytes or more; this builder goes up to 255.
unfoldable pub long_push : List ℕ → Option (List ℕ)
long_push payload =
    if leb (length payload) 75
    then some (length payload ∷ payload)
    else if leb (length payload) 255
    then some (76 ∷ length payload ∷ payload)
    else none

unfoldable pub push_bytes : List ℕ → Option (List ℕ)
push_bytes [] = some (0 ∷ [])
push_bytes (b ∷ []) = some (one_byte b)
push_bytes (b ∷ c ∷ rest) = long_push (b ∷ c ∷ rest)

abbrev appended : List ℕ → Option (List ℕ) → Option (List ℕ)
appended script none = none
appended script (some bytes) = some (script ++ bytes)

abbrev pub kaspa_builder : Builder
kaspa_builder = record {
  add_data = λ script payload. appended script (push_bytes payload);
  add_op = λ script op. some (script ++ op ∷ []);
  add_i64 = λ script n. if n == 0 then some (script ++ 0 ∷ []) else none;
  extract_script_pub_key_address =
      λ spk prefix. some (record { prefix = prefix; version = spk.version; payload = spk.script });
}

take_all : (xs rest : List ℕ) → take (length xs) (xs ++ rest) ≡ xs
take_all [] rest = refl
take_all (x ∷ xs) rest = ap (λ t. x ∷ t) (take_all xs rest)

drop_all : (xs rest : List ℕ) → drop (length xs) (xs ++ rest) ≡ rest
drop_all [] rest = refl
drop_all (x ∷ xs) rest = drop_all xs rest

length-drop : (n : ℕ) (xs : List ℕ) → length (drop n xs) ≤ length xs
length-drop zero xs = omega arith
length-drop (suc n) [] = omega arith
length-drop (suc n) (x ∷ xs) = omega (arith, length-drop n xs)

fits_append : (xs rest : List ℕ) → leb (length xs) (length (xs ++ rest)) ≡ true
fits_append [] rest = ground arith
fits_append (x ∷ xs) rest = ground (arith, fits_append xs rest)

read_push_all :
    (code : ℕ) (xs rest : List ℕ)
    → read_push code (length xs) (xs ++ rest) ≡ (push_of code xs, rest)
unfolding read_push
read_push_all code xs rest = rw (fits_append xs rest, take_all xs rest, drop_all xs rest) refl

read_push_left : (code n : ℕ) (rest : List ℕ) → length (read_push code n rest).1 ≤ length rest
unfolding read_push
read_push_left code n rest = ground (arith, length-drop n rest)

read_code_left : (code : ℕ) (rest : List ℕ) → length (read_code code rest).1 ≤ length rest
unfolding read_code read_long
read_code_left code [] = ground (arith, read_push_left code code [])
read_code_left code (n ∷ rest) =
    ground (arith, read_push_left code code (n ∷ rest), read_push_left 76 n rest)

kaspa-Consumes : Consumes kaspa_script
unfolding Consumes read_next
kaspa-Consumes [] item left e = ground (arith, e)
kaspa-Consumes (code ∷ rest) item left e =
    let same : (read_code code rest).1 ≡ left = ground (arith, e) in
    omega (arith, read_code_left code rest, ap (λ xs. length xs) same)

short_read :
    (xs : List ℕ)
    → (length xs == 0) ≡ false
    → leb (length xs) 75 ≡ true
    → ReadAs kaspa_script
        (length xs ∷ xs)
        (record { value = length xs; is_empty = false; is_push_opcode = true; get_data = xs })
unfolding ReadAs read_next read_code
short_read xs full short rest = rw (full, short, read_push_all (length xs) xs rest) refl

long_read :
    (xs : List ℕ)
    → ReadAs kaspa_script
        (76 ∷ length xs ∷ xs)
        (record { value = 76; is_empty = false; is_push_opcode = true; get_data = xs })
unfolding ReadAs read_next read_code read_long
long_read xs rest = rw (read_push_all 76 xs rest) refl

kaspa_long_push :
    (script payload longer : List ℕ)
    → (length payload == 0) ≡ false
    → appended script (long_push payload) ≡ some longer
    → (bytes : List ℕ) × (o : Opcode) × (longer ≡ script ++ bytes)
      × ReadAs kaspa_script bytes o
      × (o.get_data ≡ payload)
      × Content o
unfolding long_push
kaspa_long_push script payload longer full e = elim (Bool-cases (leb (length payload) 75)) [
  | inl short ↦ (
    length payload ∷ payload,
    _,
    ground (arith, e, short),
    short_read payload full short,
    refl,
    record { nonempty = refl; push = refl },
  )
  | inr n ↦ elim (Bool-cases (leb (length payload) 255)) [
    | inl long ↦ (
      76 ∷ length payload ∷ payload,
      _,
      ground (arith, e, n, long),
      long_read payload,
      refl,
      record { nonempty = refl; push = refl },
    )
    | inr m ↦ ground (arith, e, n, m)
  ]
]

kaspa_data_read :
    (script payload longer : List ℕ)
    → 2 ≤ length payload
    → appended script (push_bytes payload) ≡ some longer
    → (bytes : List ℕ) × (o : Opcode) × (longer ≡ script ++ bytes)
      × ReadAs kaspa_script bytes o
      × (o.get_data ≡ payload)
      × Content o
unfolding push_bytes
kaspa_data_read script [] longer h e = absurd (omega (arith, h))
kaspa_data_read script (b ∷ []) longer h e = absurd (omega (arith, h))
kaspa_data_read script (b ∷ c ∷ rest) longer h e =
    kaspa_long_push script (b ∷ c ∷ rest) longer (ground arith) e

zero_code :
    ReadAs kaspa_script
      (0 ∷ [])
      (record { value = 0; is_empty = true; is_push_opcode = true; get_data = [] })
unfolding ReadAs read_next read_code
zero_code rest = refl

single_code :
    (op : ℕ)
    → leb 77 op ≡ true
    → ReadAs kaspa_script
        (op ∷ [])
        (record { value = op; is_empty = false; is_push_opcode = false; get_data = [] })
unfolding ReadAs read_next read_code
single_code op h rest = ground (arith, h)

kaspa_op_read :
    (script : List ℕ) (op : ℕ) (longer : List ℕ)
    → Single kaspa_script op
    → some (script ++ op ∷ []) ≡ some longer
    → (bytes : List ℕ) × (o : Opcode) × (longer ≡ script ++ bytes)
      × ReadAs kaspa_script bytes o
      × (o.value ≡ op)
kaspa_op_read script _ longer is_check_sig e =
    (172 ∷ [], _, ground (arith, e), single_code 172 refl, refl)
kaspa_op_read script _ longer is_false e = (0 ∷ [], _, ground (arith, e), zero_code, refl)
kaspa_op_read script _ longer is_if e = (99 ∷ [], _, ground (arith, e), single_code 99 refl, refl)
kaspa_op_read script _ longer is_end_if e =
    (104 ∷ [], _, ground (arith, e), single_code 104 refl, refl)

kaspa_empty : read_next [] ≡ none
unfolding read_next
kaspa_empty = refl

pub kaspa_laws : ScriptLaws kaspa_builder kaspa_script
kaspa_laws = record {
  consumes = kaspa-Consumes;
  empty = kaspa_empty;
  data_read = kaspa_data_read;
  op_read = kaspa_op_read;
  zero_read = λ script longer e. (0 ∷ [], _, ground (arith, e), zero_code, refl);
}
