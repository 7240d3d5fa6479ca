-- ===== src/Analyzer/Result.antt =====
-- `AnalyzerError` of nexus/src/analyzer.rs, and the results of its functions.
use Prim.Native.String.{String}
use krc721_protocol.Prelude.{
  ℕ, Option, none, some, List, [], ◌∷◌, zero, suc, ◌≡◌, ◌≢◌, refl, ap, arith, ◌⊎◌, inl, inr, Bool,
  true, false,
}
use krc721_protocol.Model.{Tick, ScriptPublicKey}
use krc721_protocol.Inscription.Ticks.{TickError}

-- The errors of other crates are their texts.
pub data AnalyzerError : Type 0 where
  tx_script : List ℕ → AnalyzerError
  insufficient_opcode_len : AnalyzerError
  empty_opcode_data : AnalyzerError
  opcode_is_not_push : AnalyzerError
  missing_krc721_header : AnalyzerError
  unsupported_envelope_length : AnalyzerError
  serde_with_path : String → AnalyzerError
  nft_inscription_model_field_value_parsing_error : String → String → AnalyzerError
  tick_error : TickError → AnalyzerError
  op_transfer_missing_value : String → AnalyzerError
  op_list_missing_value : String → AnalyzerError
  op_send_missing_value : String → AnalyzerError
  insufficient_mint_fee : ℕ → AnalyzerError
  insufficient_deploy_fee : ℕ → AnalyzerError
  op_deploy_missing_value : String → AnalyzerError
  unknown_sender_type : AnalyzerError
  invalid_redeem_envelope_format : String → AnalyzerError
  -- tick, expected deployer and deployer
  restricted_tick_deploy : Tick → ScriptPublicKey → ScriptPublicKey → AnalyzerError
  underflow_royalty_fee : AnalyzerError
  overflow_royalty_fee : AnalyzerError
  op_discount_missing_value : String → AnalyzerError
  premint_greater_than_max : ℕ → AnalyzerError
  max_supply_overflow : AnalyzerError
  restricted_metadata_protocol : List String → AnalyzerError
  -- `AddressError::InvalidAddress`
  address_error : AnalyzerError

-- A function returns a value or an error, or it panics: an index out of range, `assert_eq!` or
-- `expect`.
pub data Result {ℓ} (A : Type ℓ) : Type ℓ where
  ok : A → Result A
  err : AnalyzerError → Result A
  panic : Result A

infixl 5 ◌>>=◌
abbrev pub ◌>>=◌ {ℓ κ} : {A : Type ℓ} {B : Type κ} → Result A → (A → Result B) → Result B
ok a >>= k = k a
err e >>= k = err e
panic >>= k = panic

-- `ok_or`
abbrev pub ok_or {ℓ} : {A : Type ℓ} → Option A → AnalyzerError → Result A
ok_or none e = err e
ok_or (some a) e = ok a

-- A slice at an index.
abbrev pub index {ℓ} : {A : Type ℓ} → List A → ℕ → Result A
index [] i = panic
index (x ∷ xs) zero = ok x
index (x ∷ xs) (suc i) = index xs i

-- `if failed { return Err(..) }`
abbrev pub refuse : Bool → AnalyzerError → Result (Unit {0})
refuse true e = err e
refuse false e = ok tt

-- `expect`
abbrev pub expect {ℓ} : {A : Type ℓ} → Option A → Result A
expect none = panic
expect (some a) = ok a

-- What a chain of two steps that returns has returned on the way.
pub bind_ok {ℓ κ} :
    {A : Type ℓ} {B : Type κ} (m : Result A) (k : A → Result B) {b : B}
    → (m >>= k) ≡ ok b
    → (a : A) × (m ≡ ok a) × (k a ≡ ok b)
bind_ok (ok a) k e = (a, refl, e)
bind_ok (err x) k e = ground (arith, e)
bind_ok panic k e = ground (arith, e)

pub ok_inj {ℓ} : {A : Type ℓ} {a b : A} → ok a ≡ ok b → a ≡ b
ok_inj e = ground (arith, e)

pub ok_or-ok {ℓ} :
    {A : Type ℓ} (o : Option A) (e : AnalyzerError) {a : A} → ok_or o e ≡ ok a → o ≡ some a
ok_or-ok none e h = ground (arith, h)
ok_or-ok (some b) e h = ap (λ x. some x) (ok_inj h)

pub refuse-ok : (b : Bool) (e : AnalyzerError) {u : Unit {0}} → refuse b e ≡ ok u → b ≡ false
refuse-ok true e h = ground (arith, h)
refuse-ok false e h = refl

pub expect-ok {ℓ} : {A : Type ℓ} (o : Option A) {a : A} → expect o ≡ ok a → o ≡ some a
expect-ok none h = ground (arith, h)
expect-ok (some b) h = ap (λ x. some x) (ok_inj h)

-- A chain of two steps panics in the first or in the second.
pub bind_panic {ℓ κ} :
    {A : Type ℓ} {B : Type κ} (m : Result A) (k : A → Result B)
    → (m >>= k) ≡ panic
    → (m ≡ panic) ⊎ ((a : A) × (m ≡ ok a) × (k a ≡ panic))
bind_panic (ok a) k e = inr (a, refl, e)
bind_panic (err x) k e = ground (arith, e)
bind_panic panic k e = inl refl

pub no_panic_bind {ℓ κ} :
    {A : Type ℓ} {B : Type κ} (m : Result A) (k : A → Result B)
    → m ≢ panic
    → ((a : A) → k a ≢ panic)
    → (m >>= k) ≢ panic
no_panic_bind (ok a) k x y = y a
no_panic_bind (err e) k x y = λ h. ground (arith, h)
no_panic_bind panic k x y = absurd (x refl)

pub no_panic_refuse : (b : Bool) (e : AnalyzerError) → refuse b e ≢ panic
no_panic_refuse true e h = ground (arith, h)
no_panic_refuse false e h = ground (arith, h)

pub no_panic_ok_or {ℓ} : {A : Type ℓ} (o : Option A) (e : AnalyzerError) → ok_or o e ≢ panic
no_panic_ok_or none e h = ground (arith, h)
no_panic_ok_or (some x) e h = ground (arith, h)

pub no_panic_ok {ℓ} : {A : Type ℓ} (a : A) → ok a ≢ panic
no_panic_ok a h = ground (arith, h)

pub expect-panic {ℓ} : {A : Type ℓ} (o : Option A) → expect o ≡ panic → o ≡ none
expect-panic none h = refl
expect-panic (some x) h = ground (arith, h)
