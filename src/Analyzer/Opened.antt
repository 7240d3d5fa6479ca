-- ===== src/Analyzer/Opened.antt =====
-- An inscription that `detect_krc721` of nexus/src/analyzer.rs reads without an error, up to its
-- sender.
use krc721_protocol.Prelude.{
  ◌≡◌, ◌-◌, true, false, not, Option, get_or, refl, some, List, inr, arith, length,
}
use krc721_protocol.Inscription.Codes.{Opcode, Item, opcode}
use krc721_protocol.Inscription.Ticks.{as_str, from_str}
use krc721_protocol.Analyzer.Result.{ok, ◌>>=◌, bind_ok, refuse, refuse-ok, ok_inj, index, expect}
use krc721_protocol.Analyzer.Parse.{parse_script, second_item, collect_opcodes}
use krc721_protocol.Analyzer.Envelope.{
  Envelope, plain, with_text, validate_redeem_envelope, validate_redeem_envelope-Envelope,
}
use krc721_protocol.Analyzer.Source.{ContextTransaction}
use krc721_protocol.Analyzer.Arms.{UserOperation, Analyzer, Libraries}
use krc721_protocol.Analyzer.Scoped.{inscription_of-content}
use krc721_protocol.Analyzer.Headers.{detect_krc721_header}
use krc721_protocol.Inscription.Listing.{Address}
use krc721_protocol.Analyzer.Reveals.{redeem_push-second, envelope_of-Envelope}
use krc721_protocol.Analyzer.Detect.{
  redeem_push, envelope_of, inscription_of, scope_of, operation_of, analyze_items, opcode_or_error,
  reveal_sender, resolve, tick_or_error, pay_to,
}

module _ (l : Libraries) (a : Analyzer) (t : ContextTransaction) where
  -- The inscription is read: the second push of the script is one with the header, its opcodes are
  -- those of an envelope, and the last of them but one is a push of an inscription.
  pub record Opened (items : List Item) (ops : List Opcode) (key check : Opcode)
      (model : UserOperation) : Type 0 where
    pub push : Opcode
    pub second : second_item items ≡ some (opcode push)
    pub nonempty : push.is_empty ≡ false
    pub is_push : push.is_push_opcode ≡ true
    pub header : detect_krc721_header push.get_data ≡ true
    pub read : collect_opcodes (parse_script l.script push.get_data) ≡ ok ops
    pub envelope : Envelope l.script ops
    pub key_at : index ops 0 ≡ ok key
    pub check_at : index ops 1 ≡ ok check
    pub content : Opcode
    pub content_at : index ops (length ops - 2) ≡ ok content
    pub content_push : content.is_push_opcode ≡ true
    pub content_read : l.deserialize_user_operation content.get_data ≡ inr model

  -- The addresses of the inscription are of the network, where they are given.
  pub record OnNetwork (model : UserOperation) : Type 0 where
    pub to : Option Address
    pub royalty_to : Option Address
    pub to_found : resolve l a.address_prefix "to" model.to ≡ ok to
    pub royalty_found : resolve l a.address_prefix "royalty_to" model.royalty_to ≡ ok royalty_to

  redeem_push-found :
      (items : List Item) {push : Opcode}
      → redeem_push items ≡ ok push
      → (push.is_empty ≡ false) × (push.is_push_opcode ≡ true)
  unfolding redeem_push
  redeem_push-found items {push} e =
      let (p, e1, f1) = bind_ok (opcode_or_error (second_item items)) (λ _. _) e in
      let (_, e2, f2) = bind_ok (refuse p.is_empty _) (λ _. _) f1 in
      let (_, e3, f3) = bind_ok (refuse (not p.is_push_opcode) _) (λ _. _) f2 in
      let (_, e4, f4) = bind_ok (refuse (not (detect_krc721_header p.get_data)) _) (λ _. _) f3 in
      let same : p ≡ push = ok_inj f4 in
      rw (← same) (refuse-ok _ _ e2, ground (arith, refuse-ok _ _ e3))

  Envelope-content :
      {ops : List Opcode} {content : Opcode}
      → Envelope l.script ops
      → index ops (length ops - 2) ≡ ok content
      → content.is_push_opcode ≡ true
  Envelope-content (plain x0 x1 x2 x3 x4 x5 x6 x7 b0 b1 b2 b3 b4 x b5) e = rw (← ok_inj e) x.push
  Envelope-content (with_text x0 x1 x2 x3 x4 x5 x6 x7 x8 x9 b0 b1 b2 b3 b4 b5 b6 x b7) e =
      rw (← ok_inj e) x.push

  pub opened :
      (items : List Item) {push : Opcode} {ops : List Opcode} {model : UserOperation}
      → redeem_push items ≡ ok push
      → envelope_of l.script push ≡ ok ops
      → inscription_of l ops ≡ ok model
      → (key check : Opcode) → index ops 0 ≡ ok key
      → index ops 1 ≡ ok check
      → Opened items ops key check model
  opened items {push} {ops} {model} e1 e2 e3 key check at0 at1 =
      let (second, header) = redeem_push-second l a t items e1 in
      let (nonempty, is_push) = redeem_push-found items e1 in
      let (read, envelope) = envelope_of-Envelope l a t push e2 in
      let (content, content_at, content_read) = inscription_of-content l a t ops e3 in
      record {
        push = push;
        second = second;
        nonempty = nonempty;
        is_push = is_push;
        header = header;
        read = read;
        envelope = envelope;
        key_at = at0;
        check_at = at1;
        content = content;
        content_at = content_at;
        content_push = Envelope-content envelope content_at;
        content_read = content_read;
      }

  pub analyze_items-Opened :
      (items : List Item) (ops : List Opcode) (key check : Opcode) (model : UserOperation)
      → Opened items ops key check model
      → analyze_items l a t items
        ≡ (scope_of l a t ops model >>= λ c. operation_of l a t c model model.op)
  unfolding analyze_items redeem_push envelope_of inscription_of
  analyze_items-Opened items ops key check model o =
      let valid : validate_redeem_envelope l.script ops ≡ ok tt =
        (validate_redeem_envelope-Envelope l.script ops).1 o.envelope in
      let pushed : redeem_push items ≡ ok o.push =
        rw (redeem_push, o.second, o.nonempty, o.is_push, o.header) refl in
      let enveloped : envelope_of l.script o.push ≡ ok ops = rw (envelope_of, o.read, valid) refl in
      let inscribed : inscription_of l ops ≡ ok model =
        rw (inscription_of, o.content_at, o.content_push, o.content_read) refl in
      rw (analyze_items, pushed, enveloped, inscribed) refl

  pub scope_of-Opened :
      {items : List Item} (ops : List Opcode) (key check : Opcode) (model : UserOperation)
      → Opened items ops key check model
      → (n : OnNetwork model)
      → scope_of l a t ops model ≡ (
          reveal_sender l a t key check >>= λ sender.
          expect (as_str l.unicode model.tick) >>= λ text.
          tick_or_error (from_str l.unicode text) >>= λ tick. ok (record {
            tick = tick;
            sender = sender;
            to_param = pay_to l n.to;
            royalty_to = get_or (pay_to l n.royalty_to) sender;
          }))
  unfolding scope_of
  scope_of-Opened ops key check model o n =
      rw (scope_of, o.key_at, o.check_at, n.to_found, n.royalty_found) refl
