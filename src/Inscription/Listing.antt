-- ===== src/Inscription/Listing.antt =====
-- `redeem_pubkey` of core/src/inscriptions/mod.rs and `compute_listing_p2sh` of
-- core/src/inscriptions/krc721.rs. The script builder and the addresses are those of the Kaspa
-- crates: parameters.
use Prim.Native.Char.{code}
use Prim.Native.String.{String}
use krc721_protocol.Prelude.{
  ℕ, zero, suc, ◌+◌, ◌/◌, ◌%◌, Option, none, some, List, [], ◌∷◌, ◌++◌, if◌then◌else◌, ltb, ◌≡◌,
  refl, arith,
}
use krc721_protocol.Model.{ScriptPublicKey}
use krc721_protocol.External.{External}
use krc721_protocol.Inscription.Codes.{Script, protocol_kspr_namespace}
use krc721_protocol.Inscription.Ticks.{Text, Unicode}

-- A network prefix is a number, and so is the version of an address.
pub record Address : Type 0 where
  pub prefix : ℕ
  pub version : ℕ
  pub payload : List ℕ

-- Each function of the builder takes the script so far, and returns the longer one or an error.
pub record Builder : Type 0 where
  pub add_data : List ℕ → List ℕ → Option (List ℕ)
  pub add_op : List ℕ → ℕ → Option (List ℕ)
  pub add_i64 : List ℕ → ℕ → Option (List ℕ)
  pub extract_script_pub_key_address : ScriptPublicKey → ℕ → Option Address

-- The code points of a text.
abbrev pub codes : String → List ℕ
codes String.[] = []
codes (String.◌∷◌ c s) = code c ∷ codes s

-- The decimal digits of a number, before those that are there. A `u64` has at most twenty.
unfoldable pub decimal_digits : ℕ → ℕ → List ℕ → List ℕ
decimal_digits zero n digits = digits
decimal_digits (suc more) n digits =
    let rest = decimal_digits more (n / 10) ((b'0' + n % 10) ∷ digits) in
    if ltb n 10 then (b'0' + n) ∷ digits else rest

abbrev pub to_decimal : ℕ → List ℕ
to_decimal n = decimal_digits 20 n []

infixl 5 ◌>>=◌
abbrev pub ◌>>=◌ {ℓ κ} : {A : Type ℓ} {B : Type κ} → Option A → (A → Option B) → Option B
none >>= k = none
some a >>= k = k a

unfoldable pub redeem_pubkey : Builder → Script → List ℕ → List ℕ → List ℕ → Option (List ℕ)
redeem_pubkey b s header redeem_script pubkey = do
  s1 ← b.add_data [] pubkey
  s2 ← b.add_op s1 s.op_check_sig
  s3 ← b.add_op s2 s.op_false
  s4 ← b.add_op s3 s.op_if
  s5 ← b.add_data s4 header
  s6 ← b.add_i64 s5 0
  s7 ← b.add_data s6 redeem_script
  b.add_op s7 s.op_end_if

-- The inscription of the send that can spend the listing.
unfoldable pub send_json : Unicode → Text → ℕ → List ℕ
unfolding decimal_digits
send_json u tick token_id =
    codes "{\"p\":\"krc-721\",\"op\":\"send\",\"tick\":\""
    ++ u.as_bytes (u.to_lowercase tick)
    ++ codes "\",\"tokenId\":\""
    ++ to_decimal token_id
    ++ codes "\"}"

-- None is the panic of one of the two `expect`.
unfoldable pub compute_listing_p2sh :
    External → Unicode → Builder → Script → List ℕ → Text → ℕ → ℕ → Option (Address × List ℕ)
compute_listing_p2sh ext u b s seller_pubkey tick token_id prefix = do
  script_sig ← redeem_pubkey b s protocol_kspr_namespace (send_json u tick token_id) seller_pubkey
  p2sh_addr ← b.extract_script_pub_key_address (ext.pay_to_script_hash_script script_sig) prefix
  some (p2sh_addr, script_sig)

-- What a chain of two options that has a value has had on the way.
pub bind_some {ℓ κ} :
    {A : Type ℓ} {B : Type κ} (m : Option A) (k : A → Option B) {y : B}
    → (m >>= k) ≡ some y
    → (x : A) × (m ≡ some x) × (k x ≡ some y)
bind_some none k e = ground (arith, e)
bind_some (some x) k e = (x, refl, e)
