-- ===== src/Analyzer/Scoped.antt =====
-- What `detect_krc721` of nexus/src/analyzer.rs reads before it looks at the kind of the operation:
-- the sender, the addresses and the tick.
use Prim.Native.String.{String}
use mathlib.Core.Path.{subst}
use krc721_protocol.Prelude.{
  ◌-◌, ◌++◌, ◌≤◌, ◌≡◌, refl, ap, not, Option, none, some, List, get_or, ◌⊎◌, inl, inr, arith,
  Bool-cases, length, ◌==◌, [], ◌∷◌,
}
use krc721_protocol.Model.{Tick, ScriptPublicKey}
use krc721_protocol.Inscription.Codes.{Opcode}
use krc721_protocol.Inscription.Ticks.{Text, TickError, as_str, from_str}
use krc721_protocol.Inscription.Listing.{Address}
use krc721_protocol.Analyzer.Result.{ok, bind_ok, index, refuse, ok_inj, expect, expect-ok}
use krc721_protocol.Analyzer.Source.{ContextTransaction}
use krc721_protocol.Analyzer.Arms.{UserOperation, Analyzer, Scope, Libraries}
use krc721_protocol.Analyzer.Detect.{
  inscription_of, scope_of, reveal_sender, resolve, tick_or_error, on_network, pay_to,
  user_operation, pay_to_pub_key, pay_to_pub_key_ecdsa,
}

module _ (l : Libraries) (a : Analyzer) (t : ContextTransaction) where
  -- The sender is the owner of the key, under the signature check that follows it.
  pub data SenderOf (key check : Opcode) : ScriptPublicKey → Type 0 where
    schnorr :
        check.value ≡ l.script.op_check_sig
        → length key.get_data ≡ 32
        → SenderOf key check (record {
          version = l.pub_key_version;
          script = l.script.op_data32 ∷ key.get_data ++ l.script.op_check_sig ∷ [];
        })
    ecdsa :
        check.value ≡ l.script.op_check_sig_ecdsa
        → a.daa_ecdsa_fix ≤ t.accepting_block_daa_score
        → length key.get_data ≡ 33
        → SenderOf key check (record {
          version = l.pub_key_ecdsa_version;
          script = l.script.op_data33 ∷ key.get_data ++ l.script.op_check_sig_ecdsa ∷ [];
        })

  -- An address of the network, if one is given.
  pub data Resolved : Option String → Option ScriptPublicKey → Type 0 where
    absent : Resolved none none
    given :
        (text : String) (address : Address)
        → l.address_try_from text ≡ inr address
        → address.prefix ≡ a.address_prefix
        → Resolved (some text) (some (l.pay_to_address_script address))

  -- What an inscription and a key say before the kind of the operation is looked at.
  pub record Scoped (key check : Opcode) (model : UserOperation) (scope : Scope) : Type 0 where
    pub sender : SenderOf key check scope.sender
    pub to : Resolved model.to scope.to_param
    pub royalty_given : Option ScriptPublicKey
    pub royalty : Resolved model.royalty_to royalty_given
    pub royalty_to : scope.royalty_to ≡ get_or royalty_given scope.sender
    pub text : Text
    pub tick_text : as_str l.unicode model.tick ≡ some text
    pub tick : from_str l.unicode text ≡ inr scope.tick

  reveal_sender-SenderOf :
      (key check : Opcode) {spk : ScriptPublicKey}
      → reveal_sender l a t key check ≡ ok spk
      → SenderOf key check spk
  unfolding reveal_sender pay_to_pub_key pay_to_pub_key_ecdsa
  reveal_sender-SenderOf key check {spk} e =
      elim (Bool-cases (check.value == l.script.op_check_sig)) [
        | inl same ↦
            let script : ok (record {
              version = l.pub_key_version;
              script = l.script.op_data32 ∷ key.get_data ++ l.script.op_check_sig ∷ [];
            })
                ≡ ok spk =
              ground (arith, same, e) in
            rw (← ok_inj script) (schnorr (ground (arith, same)) (ground (arith, same, e)))
        | inr other ↦
            let script : ok (record {
              version = l.pub_key_ecdsa_version;
              script = l.script.op_data33 ∷ key.get_data ++ l.script.op_check_sig_ecdsa ∷ [];
            })
                ≡ ok spk =
              ground (arith, other, e) in
            rw (← ok_inj script) (
              ecdsa (ground (arith, other, e)) (ground (arith, other, e))
                (ground (arith, other, e)))
      ]

  on_network-Resolved :
      (field text : String) (r : String ⊎ Address) {x : Option Address}
      → l.address_try_from text ≡ r
      → on_network a.address_prefix field r ≡ ok x
      → Resolved (some text) (pay_to l x)
  on_network-Resolved field text (inl m) found e = ground (arith, e)
  on_network-Resolved field text (inr address) {x} found e =
      let same : some address ≡ x = ground (arith, e) in
      rw (← same) (given text address found (ground (arith, e)))

  resolve-Resolved :
      (field : String) (o : Option String) {x : Option Address}
      → resolve l a.address_prefix field o ≡ ok x
      → Resolved o (pay_to l x)
  unfolding resolve
  resolve-Resolved field none {x} e = rw (← ok_inj e) absent
  resolve-Resolved field (some text) e =
      on_network-Resolved field text (l.address_try_from text) refl e

  tick_or_error-ok : (r : TickError ⊎ Tick) {tick : Tick} → tick_or_error r ≡ ok tick → r ≡ inr tick
  tick_or_error-ok (inl e) h = ground (arith, h)
  tick_or_error-ok (inr x) h = ap (λ y. inr y) (ok_inj h)

  user_operation-ok :
      (r : String ⊎ UserOperation) {model : UserOperation}
      → user_operation r ≡ ok model
      → r ≡ inr model
  user_operation-ok (inl e) h = ground (arith, h)
  user_operation-ok (inr x) h = ap (λ y. inr y) (ok_inj h)

  pub inscription_of-content :
      (ops : List Opcode) {model : UserOperation}
      → inscription_of l ops ≡ ok model
      → (content : Opcode) × (index ops (length ops - 2) ≡ ok content)
        × (l.deserialize_user_operation content.get_data ≡ inr model)
  unfolding inscription_of
  inscription_of-content ops e =
      let (content, e1, f1) = bind_ok (index ops (length ops - 2)) (λ _. _) e in
      let (_, e2, f2) = bind_ok (refuse (not content.is_push_opcode) _) (λ _. _) f1 in
      (content, e1, user_operation-ok (l.deserialize_user_operation content.get_data) f2)

  pub scope_of-Scoped :
      (ops : List Opcode) (model : UserOperation) {c : Scope}
      → scope_of l a t ops model ≡ ok c
      → (key : Opcode) × (check : Opcode) × (index ops 0 ≡ ok key)
        × (index ops 1 ≡ ok check)
        × Scoped key check model c
  unfolding scope_of
  scope_of-Scoped ops model {c} e =
      let (key, e1, f1) = bind_ok (index ops 0) (λ _. _) e in
      let (check, e2, f2) = bind_ok (index ops 1) (λ _. _) f1 in
      let (to, e3, f3) = bind_ok (resolve l a.address_prefix "to" model.to) (λ _. _) f2 in
      let (royalty_to, e4, f4) =
        bind_ok (resolve l a.address_prefix "royalty_to" model.royalty_to) (λ _. _) f3 in
      let (sender, e5, f5) = bind_ok (reveal_sender l a t key check) (λ _. _) f4 in
      let (text, e6, f6) = bind_ok (expect (as_str l.unicode model.tick)) (λ _. _) f5 in
      let (tick, e7, f7) = bind_ok (tick_or_error (from_str l.unicode text)) (λ _. _) f6 in
      (
        key,
        check,
        e1,
        e2,
        subst (λ x. Scoped key check model x) (ok_inj f7)
            (record {
              sender = reveal_sender-SenderOf key check e5;
              to = resolve-Resolved "to" model.to e3;
              royalty_given = pay_to l royalty_to;
              royalty = resolve-Resolved "royalty_to" model.royalty_to e4;
              royalty_to = refl;
              text = text;
              tick_text = expect-ok (as_str l.unicode model.tick) e6;
              tick = tick_or_error-ok (from_str l.unicode text) e7;
            }),
      )
