-- ===== src/Analyzer/Emits.antt =====
-- The branches of `detect_krc721` of nexus/src/analyzer.rs together: which operation each of them
-- makes of an inscription.
use krc721_protocol.Prelude.{
  ℕ, ◌≤◌, ◌≡◌, refl, sym, some, List, ltb, get_or, ◌↔◌, inl, inr, arith, Bool-cases,
}
use krc721_protocol.Model.{ScriptPublicKey, DeployInfo, Operation, OperationInfo, TransactionId}
use krc721_protocol.Inscription.Codes.{kspr_fee_mint}
use krc721_protocol.Inscription.Ticks.{Text, as_str}
use krc721_protocol.Inscription.Listing.{Address, compute_listing_p2sh}
use krc721_protocol.Analyzer.Result.{ok, bind_ok, ok_or, ok_inj, ok_or-ok, expect, expect-ok}
use krc721_protocol.Analyzer.Source.{
  ContextTransaction, output_spk, output_amt, first_beneficiary, first_output_amt, input_prev_txid,
  sender_pubkey_bytes,
}
use krc721_protocol.Analyzer.Arms.{
  UserOperation, Analyzer, Scope, Libraries, Op, common_of, royalty_details, analyze_deploy,
  analyze_mint, analyze_transfer, analyze_discount, analyze_list, analyze_send,
}
use krc721_protocol.Analyzer.Deploys.{MayDeploy, analyze_deploy-accepted}
use krc721_protocol.Analyzer.Detect.{operation_of}

module _ (l : Libraries) (a : Analyzer) (t : ContextTransaction) (c : Scope)
    (model : UserOperation) where
  -- What an inscription must have, and what becomes of it, for each kind of operation.
  pub data Emits : Op → OperationInfo → Type 0 where
    deploys :
        (info : DeployInfo)
        → MayDeploy l.script a t c model info
        → Emits Op.deploy (OperationInfo.deploy info)
    mints :
        kspr_fee_mint l.script ≤ t.fee
        → Emits Op.mint (
            OperationInfo.mint (record {
              token_id = 0;
              to = get_or c.to_param c.sender;
              royalty = royalty_details (first_output_amt t) (first_beneficiary t);
            }))
    transfers :
        (token_id : ℕ) (to : ScriptPublicKey)
        → model.token_id ≡ some token_id
        → c.to_param ≡ some to
        → Emits Op.transfer (OperationInfo.transfer (record { token_id = token_id; to = to }))
    discounts :
        (fee : ℕ) (to : ScriptPublicKey)
        → model.discount_fee ≡ some fee
        → c.to_param ≡ some to
        → Emits Op.discount (OperationInfo.discount (record { to = to; fee = fee }))
    lists :
        (token_id : ℕ) (key : List ℕ) (text : Text) (listing : Address × List ℕ)
        (utxo_address : ScriptPublicKey)
        → model.token_id ≡ some token_id
        → sender_pubkey_bytes l.script t ≡ some key
        → as_str l.unicode c.tick ≡ some text
        → compute_listing_p2sh l.external l.unicode l.builder l.script key text token_id
            a.address_prefix
          ≡ some listing
        → output_spk t 0 ≡ some utxo_address
        → Emits Op.list (
            OperationInfo.list (record {
              token_id = token_id;
              utxo_address = utxo_address;
              redeem_script = listing.1;
            }))
    sends :
        (token_id payment_amount : ℕ) (listing_utxo_txid : TransactionId)
        → model.token_id ≡ some token_id
        → output_amt t 0 ≡ some payment_amount
        → input_prev_txid t 0 ≡ some listing_utxo_txid
        → Emits Op.send (
            OperationInfo.send (record {
              token_id = token_id;
              payment_amount = payment_amount;
              buyer = output_spk t 1;
              listing_utxo_txid = listing_utxo_txid;
            }))

  -- The operation has the data of its transaction, and what the inscription asks for.
  pub data Emitted (o : Op) : Operation → Type 0 where
    emitted :
        (info : OperationInfo)
        → Emits o info
        → Emitted o (record { common = common_of t c; info = info })

  made :
      (o : Op) (info : OperationInfo) {op : Operation}
      → Emits o info
      → record { common = common_of t c; info = info } ≡ op
      → Emitted o op
  made o info x e = rw (← e) (emitted info x)

  deploy-Emitted :
      {op : Operation} → analyze_deploy l.script a t c model ≡ ok op → Emitted Op.deploy op
  deploy-Emitted {op} e =
      let (info, f, m) = (analyze_deploy-accepted l.script a t c model op).0 e in
      made Op.deploy _ (deploys info m) (sym f)

  mint-Emitted : {op : Operation} → analyze_mint l.script t c ≡ ok op → Emitted Op.mint op
  unfolding analyze_mint
  mint-Emitted e = elim (Bool-cases (ltb t.fee (kspr_fee_mint l.script))) [
    | inl low ↦ ground (arith, low, e)
    | inr high ↦ made Op.mint _ (mints (ground (arith, high))) (ok_inj (rw high at e))
  ]

  transfer-Emitted : {op : Operation} → analyze_transfer t c model ≡ ok op → Emitted Op.transfer op
  unfolding analyze_transfer
  transfer-Emitted e =
      let (token_id, e1, f1) = bind_ok (ok_or model.token_id _) (λ _. _) e in
      let (to, e2, f2) = bind_ok (ok_or c.to_param _) (λ _. _) f1 in
      made Op.transfer _ (transfers token_id to (ok_or-ok _ _ e1) (ok_or-ok _ _ e2)) (ok_inj f2)

  discount-Emitted : {op : Operation} → analyze_discount t c model ≡ ok op → Emitted Op.discount op
  unfolding analyze_discount
  discount-Emitted e =
      let (fee, e1, f1) = bind_ok (ok_or model.discount_fee _) (λ _. _) e in
      let (to, e2, f2) = bind_ok (ok_or c.to_param _) (λ _. _) f1 in
      made Op.discount _ (discounts fee to (ok_or-ok _ _ e1) (ok_or-ok _ _ e2)) (ok_inj f2)

  list-Emitted : {op : Operation} → analyze_list l a t c model ≡ ok op → Emitted Op.list op
  unfolding analyze_list
  list-Emitted e =
      let (token_id, e1, f1) = bind_ok (ok_or model.token_id _) (λ _. _) e in
      let (key, e2, f2) = bind_ok (ok_or (sender_pubkey_bytes l.script t) _) (λ _. _) f1 in
      let (text, e3, f3) = bind_ok (expect (as_str l.unicode c.tick)) (λ _. _) f2 in
      let (listing, e4, f4) =
        bind_ok
          (expect (
            compute_listing_p2sh l.external l.unicode l.builder l.script key text token_id
              a.address_prefix))
          (λ _. _) f3 in
      let (utxo_address, e5, f5) = bind_ok (ok_or (output_spk t 0) _) (λ _. _) f4 in
      made Op.list _
        (lists token_id key text listing utxo_address (ok_or-ok _ _ e1) (ok_or-ok _ _ e2)
          (expect-ok _ e3) (expect-ok _ e4) (ok_or-ok _ _ e5))
        (ok_inj f5)

  send-Emitted : {op : Operation} → analyze_send t c model ≡ ok op → Emitted Op.send op
  unfolding analyze_send
  send-Emitted e =
      let (token_id, e1, f1) = bind_ok (ok_or model.token_id _) (λ _. _) e in
      let (amount, e2, f2) = bind_ok (ok_or (output_amt t 0) _) (λ _. _) f1 in
      let (txid, e3, f3) = bind_ok (ok_or (input_prev_txid t 0) _) (λ _. _) f2 in
      made Op.send _
        (sends token_id amount txid (ok_or-ok _ _ e1) (ok_or-ok _ _ e2) (ok_or-ok _ _ e3))
        (ok_inj f3)

  operation_of-Emitted :
      (o : Op) {op : Operation} → operation_of l a t c model o ≡ ok op → Emitted o op
  unfolding operation_of
  operation_of-Emitted Op.deploy = deploy-Emitted
  operation_of-Emitted Op.mint = mint-Emitted
  operation_of-Emitted Op.transfer = transfer-Emitted
  operation_of-Emitted Op.discount = discount-Emitted
  operation_of-Emitted Op.list = list-Emitted
  operation_of-Emitted Op.send = send-Emitted

  Emits-operation_of :
      (o : Op) (info : OperationInfo)
      → Emits o info
      → operation_of l a t c model o ≡ ok (record { common = common_of t c; info = info })
  unfolding operation_of analyze_mint analyze_transfer analyze_discount analyze_list analyze_send
  Emits-operation_of _ _ (deploys info m) =
      (analyze_deploy-accepted l.script a t c model _).1 (info, refl, m)
  Emits-operation_of _ _ (mints h) = ground (arith, h)
  Emits-operation_of _ _ (transfers token_id to x y) = rw (x, y) refl
  Emits-operation_of _ _ (discounts fee to x y) = rw (x, y) refl
  Emits-operation_of _ _ (lists token_id key text listing utxo v w x y z) = rw (v, w, x, y, z) refl
  Emits-operation_of _ _ (sends token_id amount txid x y z) = rw (x, y, z) refl

  Emitted-operation_of :
      (o : Op) {op : Operation} → Emitted o op → operation_of l a t c model o ≡ ok op
  Emitted-operation_of o (emitted info x) = Emits-operation_of o info x

  -- For each of the six kinds, the analyzer makes an operation of an inscription exactly when the
  -- inscription and its transaction have what the kind needs, and it is the operation with the
  -- data of the transaction and these values: for a deployment the metadata, the maximum, the
  -- premint, the fee paid, the royalty within its bounds and a reserved tick only for its owner;
  -- for a mint the fee; for a transfer and a discount the receiver; for a listing the key, the
  -- redeem script of the send and the first output; for a send the first output, the buyer of the
  -- second, and the output that is spent.
  pub operation_of-accepted :
      (o : Op) (op : Operation) → (operation_of l a t c model o ≡ ok op) ↔ Emitted o op
  operation_of-accepted o op = (operation_of-Emitted o, Emitted-operation_of o)
