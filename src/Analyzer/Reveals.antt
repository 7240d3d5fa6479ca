-- ===== src/Analyzer/Reveals.antt =====
-- `detect_krc721` of nexus/src/analyzer.rs as a whole: where the parts of an operation are read
-- from.
use krc721_protocol.Prelude.{
  ◌-◌, ℕ, ◌≡◌, ◌≢◌, refl, sym, ap, ◌∙◌, true, false, not, Option, none, some, List, inl, inr, arith,
  Bool-cases, Option-cases, length,
}
use krc721_protocol.Model.{Operation}
use krc721_protocol.Inscription.Codes.{Opcode, Item, opcode}
use krc721_protocol.Analyzer.Result.{
  Result, ok, err, panic, ◌>>=◌, bind_ok, index, refuse, refuse-ok, ok_inj,
}
use krc721_protocol.Analyzer.Headers.{detect_kspr_header, detect_krc721_header}
use krc721_protocol.Analyzer.Parse.{parse_script, second_item, collect_opcodes}
use krc721_protocol.Analyzer.Envelope.{
  validate_redeem_envelope, Envelope, validate_redeem_envelope-Envelope,
}
use krc721_protocol.Analyzer.Source.{ContextTransaction, signature_script}
use krc721_protocol.Analyzer.Arms.{UserOperation, Analyzer, Scope, Libraries}
use krc721_protocol.Analyzer.Emits.{Emitted, operation_of-accepted}
use krc721_protocol.Analyzer.Detect.{
  redeem_push, envelope_of, inscription_of, scope_of, analyze_items, detect_krc721, opcode_or_error,
}
use krc721_protocol.Analyzer.Scoped.{Scoped, scope_of-Scoped, inscription_of-content}

module _ (l : Libraries) (a : Analyzer) (t : ContextTransaction) where
  -- The envelope is in the second push of the script, the sender is the key of the envelope, and
  -- the operation is what the inscription asks for.
  pub record Reveals (items : List Item) (op : Operation) : Type 0 where
    pub push : Opcode
    pub inner_opcodes : List Opcode
    pub key : Opcode
    pub check : Opcode
    pub model : UserOperation
    pub scope : Scope
    pub second : second_item items ≡ some (opcode push)
    pub header : detect_krc721_header push.get_data ≡ true
    pub read : collect_opcodes (parse_script l.script push.get_data) ≡ ok inner_opcodes
    pub envelope : Envelope l.script inner_opcodes
    pub key_at : index inner_opcodes 0 ≡ ok key
    pub check_at : index inner_opcodes 1 ≡ ok check
    pub content : Opcode
    pub content_at : index inner_opcodes (length inner_opcodes - 2) ≡ ok content
    pub content_read : l.deserialize_user_operation content.get_data ≡ inr model
    pub scoped : Scoped l a t key check model scope
    pub asked : Emitted l a t scope model model.op op

  second_of :
      (o : Option Item) {push : Opcode} → opcode_or_error o ≡ ok push → o ≡ some (opcode push)
  second_of none e = ground (arith, e)
  second_of (some (opcode p)) e = ap (λ x. some (opcode x)) (ok_inj e)
  second_of (some (Item.tx_script_error x)) e = ground (arith, e)

  pub redeem_push-second :
      (items : List Item) {push : Opcode}
      → redeem_push items ≡ ok push
      → (second_item items ≡ some (opcode push)) × (detect_krc721_header push.get_data ≡ true)
  unfolding redeem_push
  redeem_push-second items {push} e =
      let (p, e1, f1) = bind_ok (opcode_or_error (second_item items)) (λ _. _) e in
      let (_, e2, f2) = bind_ok (refuse p.is_empty _) (λ _. _) f1 in
      let (_, e3, f3) = bind_ok (refuse (not p.is_push_opcode) _) (λ _. _) f2 in
      let (_, e4, f4) = bind_ok (refuse (not (detect_krc721_header p.get_data)) _) (λ _. _) f3 in
      let same = ok_inj f4 in
      (
        second_of (second_item items) e1 ∙ ap (λ x. some (opcode x)) same,
        ap (λ (x : Opcode). detect_krc721_header x.get_data) (sym same)
            ∙ ground (arith, refuse-ok _ _ e4),
      )

  pub envelope_of-Envelope :
      (push : Opcode) {ops : List Opcode}
      → envelope_of l.script push ≡ ok ops
      → (collect_opcodes (parse_script l.script push.get_data) ≡ ok ops) × Envelope l.script ops
  unfolding envelope_of
  envelope_of-Envelope push {ops} e =
      let (x, e1, f1) =
        bind_ok (collect_opcodes (parse_script l.script push.get_data)) (λ _. _) e in
      let (_, e2, f2) = bind_ok (validate_redeem_envelope l.script x) (λ _. _) f1 in
      let same = ok_inj f2 in
      (
        e1 ∙ ap (λ y. ok y) same,
        (validate_redeem_envelope-Envelope l.script ops).0
            (ap (λ y. validate_redeem_envelope l.script y) (sym same) ∙ e2),
      )

  analyze_items-Reveals :
      (items : List Item) {op : Operation} → analyze_items l a t items ≡ ok op → Reveals items op
  unfolding analyze_items
  analyze_items-Reveals items {op} e =
      let (push, e1, f1) = bind_ok (redeem_push items) (λ _. _) e in
      let (inner_opcodes, e2, f2) = bind_ok (envelope_of l.script push) (λ _. _) f1 in
      let (model, e3, f3) = bind_ok (inscription_of l inner_opcodes) (λ _. _) f2 in
      let (scope, e4, f4) = bind_ok (scope_of l a t inner_opcodes model) (λ _. _) f3 in
      let (second, header) = redeem_push-second items e1 in
      let (read, envelope) = envelope_of-Envelope push e2 in
      let (key, check, key_at, check_at, scoped) = scope_of-Scoped l a t inner_opcodes model e4 in
      let (content, content_at, content_read) = inscription_of-content l a t inner_opcodes e3 in
      record {
        push = push;
        inner_opcodes = inner_opcodes;
        key = key;
        check = check;
        model = model;
        scope = scope;
        second = second;
        header = header;
        read = read;
        envelope = envelope;
        key_at = key_at;
        check_at = check_at;
        content = content;
        content_at = content_at;
        content_read = content_read;
        scoped = scoped;
        asked = (operation_of-accepted l a t scope model model.op op).0 f4;
      }

  pub detect_krc721-found :
      (script : List ℕ)
      → signature_script t ≡ some script
      → detect_kspr_header script ≡ true
      → detect_krc721 l a t
        ≡ (analyze_items l a t (parse_script l.script script) >>= λ o. ok (some o))
  unfolding detect_krc721
  detect_krc721-found script there h = rw (detect_krc721, there, h) refl

  detect_krc721-no_script : signature_script t ≡ none → detect_krc721 l a t ≡ ok none
  unfolding detect_krc721
  detect_krc721-no_script e = rw (detect_krc721, e) refl

  detect_krc721-no_header :
      (script : List ℕ)
      → signature_script t ≡ some script
      → detect_kspr_header script ≡ false
      → detect_krc721 l a t ≡ ok none
  unfolding detect_krc721
  detect_krc721-no_header script there h = rw (detect_krc721, there, h) refl

  found_some :
      (m : Result Operation) {op : Operation} → (m >>= λ o. ok (some o)) ≡ ok (some op) → m ≡ ok op
  found_some (ok o) e = ground (arith, e)
  found_some (err x) e = ground (arith, e)
  found_some panic e = ground (arith, e)

  -- A result that is not the one without an operation comes from a script with the header.
  pub detect_krc721-script :
      detect_krc721 l a t ≢ ok none
      → (script : List ℕ) × (signature_script t ≡ some script) × (detect_kspr_header script ≡ true)
  detect_krc721-script n = elim (Option-cases (signature_script t)) [
    | inl e ↦ absurd (n (detect_krc721-no_script e))
    | inr (script, there) ↦ elim (Bool-cases (detect_kspr_header script)) [
      | inl h ↦ (script, there, h)
      | inr h ↦ absurd (n (detect_krc721-no_header script there h))
    ]
  ]

  -- An operation that the analyzer finds comes from the envelope in the second push of a signature
  -- script with the header: its sender is the script of the key at the start of the envelope,
  -- under the signature check after it, the addresses are of the network, the tick is the text of
  -- the inscription, and the operation is what the inscription, the last opcode but one, asks for.
  pub detect_krc721-Reveals :
      (op : Operation)
      → detect_krc721 l a t ≡ ok (some op)
      → (script : List ℕ) × (signature_script t ≡ some script)
        × (detect_kspr_header script ≡ true)
        × Reveals (parse_script l.script script) op
  detect_krc721-Reveals op e =
      let (script, there, h) = detect_krc721-script (λ n. ground (arith, e, n)) in
      let m = analyze_items l a t (parse_script l.script script) in
      (
        script,
        there,
        h,
        analyze_items-Reveals (parse_script l.script script)
            (found_some m (sym (detect_krc721-found script there h) ∙ e)),
      )
