-- ===== src/Analyzer/Envelope.antt =====
-- `validate_redeem_envelope` of nexus/src/analyzer.rs and the tests that it calls.
use krc721_protocol.Prelude.{
  ℕ, ◌-◌, ◌≡◌, ◌≢◌, true, false, List, [], ◌∷◌, not, ◌||◌, ◌==◌, if◌then◌else◌, length, words_eq,
  words_eq_sound, words_eq_refl, arith, ◌↔◌,
}
use krc721_protocol.Inscription.Codes.{Script, Opcode, protocol_kspr_namespace}
use krc721_protocol.Analyzer.Windows.{take, drop}
use krc721_protocol.Analyzer.Result.{
  Result, ok, err, panic, ◌>>=◌, index, bind_ok, refuse, invalid_redeem_envelope_format,
  unsupported_envelope_length,
}

-- `opcodes[a..b]`, within bounds.
abbrev pub slice {ℓ} : {A : Type ℓ} → ℕ → ℕ → List A → List A
slice a b xs = take (b - a) (drop a xs)

unfoldable pub validate_common_opcodes : Script → List Opcode → Result (Unit {0})
validate_common_opcodes s inner_opcodes = do
  second ← index inner_opcodes 2
  _ ← refuse (not (second.value == s.op_false)) (invalid_redeem_envelope_format "OpFalse missing")
  third ← index inner_opcodes 3
  _ ← refuse (not (third.value == s.op_if)) (invalid_redeem_envelope_format "OpIf missing")
  protocol_opcode ← index inner_opcodes 4
  refuse
      (not protocol_opcode.is_push_opcode
        || not (words_eq protocol_opcode.get_data protocol_kspr_namespace))
      (invalid_redeem_envelope_format "Invalid or missing protocol")

unfoldable pub validate_optional_content : Script → List Opcode → Result (Unit {0})
validate_optional_content s opcodes = do
  marker ← index opcodes 0
  _ ←
      refuse (not (marker.value == s.op_true))
        (invalid_redeem_envelope_format "Missing optional content marker")
  content ← index opcodes 1
  refuse (content.is_empty || not content.is_push_opcode)
      (invalid_redeem_envelope_format "Missing optional content")

unfoldable pub validate_mandatory_content : Script → List Opcode → Result (Unit {0})
validate_mandatory_content s opcodes = do
  marker ← index opcodes 0
  _ ←
      refuse (not (marker.value == s.op_false))
        (invalid_redeem_envelope_format "Missing mandatory content marker")
  content ← index opcodes 1
  _ ←
      refuse (content.is_empty || not content.is_push_opcode)
        (invalid_redeem_envelope_format "Missing mandatory content")
  last ← index opcodes 2
  refuse (not (last.value == s.op_end_if)) (invalid_redeem_envelope_format "Content marker invalid")

unfoldable pub validate_redeem_envelope : Script → List Opcode → Result (Unit {0})
validate_redeem_envelope s inner_opcodes =
    if length inner_opcodes == 8
    then (do
      _ ← validate_common_opcodes s inner_opcodes
      validate_mandatory_content s (slice 5 8 inner_opcodes))
    else if length inner_opcodes == 10
    then (do
      _ ← validate_common_opcodes s inner_opcodes
      _ ← validate_optional_content s (slice 5 7 inner_opcodes)
      validate_mandatory_content s (slice 7 10 inner_opcodes))
    else err unsupported_envelope_length

-- A push with content.
pub record Content (o : Opcode) : Type 0 where
  pub nonempty : o.is_empty ≡ false
  pub push : o.is_push_opcode ≡ true

-- Two opcodes in the places of the key and of the check of the signature, which are not tested, and
-- an `if` that is not taken around the namespace, an optional text and the inscription.
pub data Envelope (s : Script) : List Opcode → Type 0 where
  plain :
      (key check o2 o3 namespace o5 content o7 : Opcode)
      → o2.value ≡ s.op_false
      → o3.value ≡ s.op_if
      → namespace.is_push_opcode ≡ true
      → namespace.get_data ≡ protocol_kspr_namespace
      → o5.value ≡ s.op_false
      → Content content
      → o7.value ≡ s.op_end_if
      → Envelope s (key ∷ check ∷ o2 ∷ o3 ∷ namespace ∷ o5 ∷ content ∷ o7 ∷ [])
  with_text :
      (key check o2 o3 namespace o5 text o7 content o9 : Opcode)
      → o2.value ≡ s.op_false
      → o3.value ≡ s.op_if
      → namespace.is_push_opcode ≡ true
      → namespace.get_data ≡ protocol_kspr_namespace
      → o5.value ≡ s.op_true
      → Content text
      → o7.value ≡ s.op_false
      → Content content
      → o9.value ≡ s.op_end_if
      → Envelope s (key ∷ check ∷ o2 ∷ o3 ∷ namespace ∷ o5 ∷ text ∷ o7 ∷ content ∷ o9 ∷ [])

data Shape : List Opcode → Type 0 where
  eight : (a b c d e f g h : Opcode) → Shape (a ∷ b ∷ c ∷ d ∷ e ∷ f ∷ g ∷ h ∷ [])
  ten : (a b c d e f g h i j : Opcode) → Shape (a ∷ b ∷ c ∷ d ∷ e ∷ f ∷ g ∷ h ∷ i ∷ j ∷ [])
  other : {ops : List Opcode} → length ops ≢ 8 → length ops ≢ 10 → Shape ops

ops-Shape : (ops : List Opcode) → Shape ops
ops-Shape (a ∷ b ∷ c ∷ d ∷ e ∷ f ∷ g ∷ h ∷ []) = eight a b c d e f g h
ops-Shape (a ∷ b ∷ c ∷ d ∷ e ∷ f ∷ g ∷ h ∷ i ∷ j ∷ []) = ten a b c d e f g h i j
ops-Shape [] = other (omega arith) (omega arith)
ops-Shape (a ∷ []) = other (omega arith) (omega arith)
ops-Shape (a ∷ b ∷ []) = other (omega arith) (omega arith)
ops-Shape (a ∷ b ∷ c ∷ []) = other (omega arith) (omega arith)
ops-Shape (a ∷ b ∷ c ∷ d ∷ []) = other (omega arith) (omega arith)
ops-Shape (a ∷ b ∷ c ∷ d ∷ e ∷ []) = other (omega arith) (omega arith)
ops-Shape (a ∷ b ∷ c ∷ d ∷ e ∷ f ∷ []) = other (omega arith) (omega arith)
ops-Shape (a ∷ b ∷ c ∷ d ∷ e ∷ f ∷ g ∷ []) = other (omega arith) (omega arith)
ops-Shape (a ∷ b ∷ c ∷ d ∷ e ∷ f ∷ g ∷ h ∷ i ∷ []) = other (omega arith) (omega arith)
ops-Shape (a ∷ b ∷ c ∷ d ∷ e ∷ f ∷ g ∷ h ∷ i ∷ j ∷ k ∷ rest) = other (omega arith) (omega arith)

module _ (s : Script) where
  -- The tests that both shapes of an envelope share.
  pub record Common (o2 o3 namespace : Opcode) : Type 0 where
    pub second : o2.value ≡ s.op_false
    pub third : o3.value ≡ s.op_if
    pub push : namespace.is_push_opcode ≡ true
    pub data_is : namespace.get_data ≡ protocol_kspr_namespace

  passes-Common :
      (key check o2 o3 namespace : Opcode) (rest : List Opcode)
      → validate_common_opcodes s (key ∷ check ∷ o2 ∷ o3 ∷ namespace ∷ rest) ≡ ok tt
      → Common o2 o3 namespace
  unfolding validate_common_opcodes
  passes-Common key check o2 o3 namespace rest h =
      ground (arith, h, words_eq_sound namespace.get_data protocol_kspr_namespace)

  Common-passes :
      (key check o2 o3 namespace : Opcode) (rest : List Opcode)
      → Common o2 o3 namespace
      → validate_common_opcodes s (key ∷ check ∷ o2 ∷ o3 ∷ namespace ∷ rest) ≡ ok tt
  unfolding validate_common_opcodes
  Common-passes key check o2 o3 namespace rest c =
      ground (arith, c, words_eq_refl protocol_kspr_namespace)

  mandatory_passes :
      (marker content last : Opcode)
      → validate_mandatory_content s (marker ∷ content ∷ last ∷ []) ≡ ok tt
      → (marker.value ≡ s.op_false) × Content content × (last.value ≡ s.op_end_if)
  unfolding validate_mandatory_content
  mandatory_passes marker content last h = ground (arith, h)

  mandatory_refl :
      (marker content last : Opcode)
      → marker.value ≡ s.op_false
      → Content content
      → last.value ≡ s.op_end_if
      → validate_mandatory_content s (marker ∷ content ∷ last ∷ []) ≡ ok tt
  unfolding validate_mandatory_content
  mandatory_refl marker content last m c l = ground (arith, m, c, l)

  optional_passes :
      (marker content : Opcode)
      → validate_optional_content s (marker ∷ content ∷ []) ≡ ok tt
      → (marker.value ≡ s.op_true) × Content content
  unfolding validate_optional_content
  optional_passes marker content h = ground (arith, h)

  optional_refl :
      (marker content : Opcode)
      → marker.value ≡ s.op_true
      → Content content
      → validate_optional_content s (marker ∷ content ∷ []) ≡ ok tt
  unfolding validate_optional_content
  optional_refl marker content m c = ground (arith, m, c)

  passes : (ops : List Opcode) → Shape ops → validate_redeem_envelope s ops ≡ ok tt → Envelope s ops
  unfolding validate_redeem_envelope
  passes _ (eight a b c d e f g h) v =
      let (_, x, p) = bind_ok (validate_common_opcodes s _) (λ _. _) v in
      let k = passes-Common a b c d e (f ∷ g ∷ h ∷ []) x in
      let (m, n, l) = mandatory_passes f g h p in
      plain a b c d e f g h k.second k.third k.push k.data_is m n l
  passes _ (ten a b c d e f g h i j) v =
      let (_, x, p) = bind_ok (validate_common_opcodes s _) (λ _. _) v in
      let (_, y, q) = bind_ok (validate_optional_content s _) (λ _. _) p in
      let k = passes-Common a b c d e (f ∷ g ∷ h ∷ i ∷ j ∷ []) x in
      let (t, u) = optional_passes f g y in
      let (m, n, l) = mandatory_passes h i j q in
      with_text a b c d e f g h i j k.second k.third k.push k.data_is t u m n l
  passes ops (other n m) v = ground (arith, n, m, v)

  Envelope-passes : (ops : List Opcode) → Envelope s ops → validate_redeem_envelope s ops ≡ ok tt
  unfolding validate_redeem_envelope
  Envelope-passes _ (plain a b c d e f g h x y z w m n l) =
      rw
        (Common-passes a b c d e (f ∷ g ∷ h ∷ [])
          (record { second = x; third = y; push = z; data_is = w }))
        (mandatory_refl f g h m n l)
  Envelope-passes _ (with_text a b c d e f g h i j x y z w t u m n l) =
      rw
        (
          Common-passes a b c d e (f ∷ g ∷ h ∷ i ∷ j ∷ [])
              (record { second = x; third = y; push = z; data_is = w }),
          optional_refl f g t u,
        )
        (mandatory_refl h i j m n l)

  -- The opcodes of a redeem script pass the validation exactly when they are two opcodes, which
  -- may be any, and an untaken branch after them around the namespace, with or without an optional
  -- text, and a push that is not empty before its end.
  pub validate_redeem_envelope-Envelope :
      (ops : List Opcode) → (validate_redeem_envelope s ops ≡ ok tt) ↔ Envelope s ops
  validate_redeem_envelope-Envelope ops = (passes ops (ops-Shape ops), Envelope-passes ops)

  never_panics : (ops : List Opcode) → Shape ops → validate_redeem_envelope s ops ≢ panic
  unfolding validate_redeem_envelope validate_common_opcodes validate_optional_content
      validate_mandatory_content
  never_panics _ (eight a b c d e f g h) v = ground (arith, v)
  never_panics _ (ten a b c d e f g h i j) v = ground (arith, v)
  never_panics ops (other n m) v = ground (arith, n, m, v)

  -- The slices and the indexes are within bounds.
  pub validate_redeem_envelope-panic : (ops : List Opcode) → validate_redeem_envelope s ops ≢ panic
  validate_redeem_envelope-panic ops = never_panics ops (ops-Shape ops)
