-- ===== src/Analyzer/Second.antt =====
-- Which part of a signature script `detect_krc721` of nexus/src/analyzer.rs reads.
use krc721_protocol.Prelude.{ℕ, ◌≡◌, refl, sym, ap, ◌∙◌, true, some, List, ◌∷◌}
use krc721_protocol.Analyzer.Result.{Result, ok, err, panic, ◌>>=◌}
use krc721_protocol.Analyzer.Headers.{detect_kspr_header}
use krc721_protocol.Analyzer.Parse.{parse_script, second_item}
use krc721_protocol.Analyzer.Source.{
  ContextTransaction, TransactionInput, signature_script, sender_pubkey_bytes, output_spk,
  output_amt, input_prev_txid, first_beneficiary, first_output_amt,
}
use krc721_protocol.Inscription.Codes.{Opcode}
use krc721_protocol.Analyzer.Arms.{
  Analyzer, Libraries, Scope, UserOperation, Op, analyze_deploy, analyze_mint, analyze_transfer,
  analyze_discount, analyze_list, analyze_send, common_of,
}
use krc721_protocol.Analyzer.Detect.{
  detect_krc721, analyze_items, redeem_push, operation_of, reveal_sender, scope_of, envelope_of,
  inscription_of,
}
use krc721_protocol.Analyzer.Reveals.{detect_krc721-found}

-- A transaction whose first input spends an output of `prev` with a script.
abbrev pub signed : List ℕ → ℕ → List TransactionInput → ContextTransaction → ContextTransaction
signed script prev inputs t = record t {
  tx = record t.tx {
    inputs = record { signature_script = script; previous_transaction_id = prev } ∷ inputs;
  };
}

bind_same :
    {A : Type 0} {B : Type 0} (m : Result A) {j k : A → Result B}
    → ((a : A) → j a ≡ k a)
    → (m >>= j) ≡ (m >>= k)
bind_same (ok a) e = e a
bind_same (err x) e = refl
bind_same panic e = refl

module _ (l : Libraries) (a : Analyzer) (t : ContextTransaction) (prev : ℕ)
    (inputs : List TransactionInput) (x y : List ℕ)
    (same : second_item (parse_script l.script x) ≡ second_item (parse_script l.script y)) where
  tx : ContextTransaction
  tx = signed x prev inputs t

  ty : ContextTransaction
  ty = signed y prev inputs t

  same_key : sender_pubkey_bytes l.script tx ≡ sender_pubkey_bytes l.script ty
  unfolding sender_pubkey_bytes signature_script tx ty
  same_key = rw same refl

  same_list :
      (c : Scope) (model : UserOperation)
      → analyze_list l a tx c model ≡ analyze_list l a ty c model
  unfolding analyze_list tx ty output_spk common_of
  same_list c model = rw same_key refl

  same_operation :
      (c : Scope) (model : UserOperation) (o : Op)
      → operation_of l a tx c model o ≡ operation_of l a ty c model o
  unfolding operation_of tx ty analyze_deploy analyze_mint analyze_transfer analyze_discount
      analyze_send common_of output_spk output_amt input_prev_txid first_beneficiary
      first_output_amt
  same_operation c model Op.deploy = refl
  same_operation c model Op.mint = refl
  same_operation c model Op.transfer = refl
  same_operation c model Op.discount = refl
  same_operation c model Op.list = same_list c model
  same_operation c model Op.send = refl

  same_scope :
      (ops : List Opcode) (model : UserOperation)
      → scope_of l a tx ops model ≡ scope_of l a ty ops model
  unfolding scope_of reveal_sender tx ty
  same_scope ops model = refl

  same_analysis :
      analyze_items l a tx (parse_script l.script x)
      ≡ analyze_items l a ty (parse_script l.script y)
  unfolding analyze_items redeem_push
  same_analysis = rw same (
      bind_same (redeem_push (parse_script l.script y)) λ push.
        bind_same (envelope_of l.script push) λ ops. bind_same (inscription_of l ops) λ model.
          rw (same_scope ops model)
            (bind_same (scope_of l a ty ops model) λ c. same_operation c model model.op))

  script_of : (s : List ℕ) → signature_script (signed s prev inputs t) ≡ some s
  unfolding signature_script
  script_of s = refl

  -- Of two signature scripts with the header and the same second opcode, on the same transaction,
  -- the analyzer makes the same result: it reads no other opcode, and does not ask whether the
  -- second is the last, which is the redeem script that the chain has run.
  pub detect_krc721-second :
      detect_kspr_header x ≡ true
      → detect_kspr_header y ≡ true
      → detect_krc721 l a (signed x prev inputs t) ≡ detect_krc721 l a (signed y prev inputs t)
  unfolding tx ty
  detect_krc721-second h k =
      detect_krc721-found l a (signed x prev inputs t) x (script_of x) h
      ∙ ap (λ m. m >>= λ o. ok (some o)) same_analysis
      ∙ sym (detect_krc721-found l a (signed y prev inputs t) y (script_of y) k)
