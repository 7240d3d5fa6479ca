-- ===== src/Tests/Inscriptions.antt =====
-- The theorems on nexus/src/analyzer.rs at concrete inputs: a deployment, and a listing.
use krc721_protocol.Prelude.{
  ℕ, zero, suc, ◌+◌, ◌≡◌, ◌≤◌, refl, true, false, none, some, List, [], ◌∷◌, ◌++◌, length, inr, ◌↔◌,
  ◌*◌, ◌%◌, u64_modulus, arith, words_eq, add_u64, mul_u64,
}
use krc721_protocol.Model.{
  remote, DeployInfo, Operation, OperationInfo, RoyaltyDetails, has_incompatible_uri_prefix,
}
use krc721_protocol.External.{External}
use krc721_protocol.Inscription.Codes.{
  Opcode, kspr_fee_deploy, kspr_fee_mint, min_royalty_fee, max_royalty_fee,
}
use krc721_protocol.Inscription.Ticks.{
  from_str, as_str, checked_tick, all_alphanumeric, padded, big_endian, bytes_of, trim_nul,
}
use krc721_protocol.Inscription.Listing.{codes, compute_listing_p2sh, send_json, redeem_pubkey}
use krc721_protocol.Analyzer.Result.{ok, panic}
use krc721_protocol.Analyzer.Windows.{scan, window_find, FirstFromTen, window_find-FirstFromTen}
use krc721_protocol.Analyzer.Headers.{detect_kspr_header, detect_krc721_header}
use krc721_protocol.Analyzer.Parse.{
  parse_script, read_items, collect_opcodes, second_item, Reads, parse_script-Reads,
}
use krc721_protocol.Analyzer.Envelope.{
  validate_redeem_envelope, validate_common_opcodes, validate_optional_content,
  validate_mandatory_content, Envelope, validate_redeem_envelope-Envelope,
}
use krc721_protocol.Analyzer.Source.{ContextTransaction, signature_script}
use krc721_protocol.Analyzer.Arms.{
  UserOperation, Analyzer, Libraries, Op, Scope, common_of, restricted, total_deploy_fee,
  analyze_deploy,
}
use krc721_protocol.Analyzer.Detect.{
  detect_krc721, analyze_items, redeem_push, envelope_of, inscription_of, scope_of, reveal_sender,
  resolve, pay_to_pub_key, operation_of,
}
use krc721_protocol.Analyzer.Reveals.{Reveals, detect_krc721-Reveals}
use krc721_protocol.Analyzer.Emits.{Emitted, operation_of-accepted}
use krc721_protocol.Analyzer.Panics.{Panics}
use krc721_protocol.Analyzer.Second.{signed, detect_krc721-second}
use krc721_protocol.Analyzer.Handoff.{detect_krc721-process_deployment, detect_krc721-fees}
use krc721_protocol.Analyzer.Redeem.{Redeems, compute_listing_p2sh-Redeems}
use krc721_protocol.Db.{Db, empty_db}
use krc721_protocol.Partition.{get}
use krc721_protocol.Outcome
use krc721_protocol.Outcome.{accepted}
use krc721_protocol.Processor.Mint.{process_deployment, last_mint}
use krc721_protocol.Processor.Mint.Supply.{Supply}
use krc721_protocol.Processor.Mint.Premint.{Fresh, InSequence, registered, deployment_entry}
use krc721_protocol.Tests.Texts.{ascii, kas_tick, kas_upper}
use krc721_protocol.Tests.Utf8.{encode, encode_char, decode, read_byte}
use krc721_protocol.Tests.Scripts.{
  kaspa_script, kaspa_builder, kaspa_laws, read_next, read_code, read_push, read_long, push_bytes,
  long_push,
}

abbrev repeated : ℕ → List ℕ
repeated zero = []
repeated (suc n) = 7 ∷ repeated n

abbrev key : List ℕ
key = repeated 32

abbrev libraries : UserOperation → Libraries
libraries model = record {
  external = record {
    merge_set_limit = 248;
    pay_to_script_hash_script = λ script. record { version = 0; script = script };
  };
  unicode = ascii;
  builder = kaspa_builder;
  script = kaspa_script;
  deserialize_user_operation = λ bytes. inr model;
  address_try_from = λ text. inr (record { prefix = 1; version = 0; payload = 9 ∷ [] });
  pay_to_address_script = λ address. record { version = address.version; script = address.payload };
  pub_key_version = 0;
  pub_key_ecdsa_version = 0;
}

abbrev analyzer : Analyzer
analyzer = record {
  restricted_tokens = [];
  address_prefix = 1;
  restricted_protocols = "ipfs" ∷ [];
  daa_ecdsa_fix = 100;
}

-- A key, the signature check, and an envelope with a short text.
abbrev redeem_script : List ℕ → List ℕ → List ℕ
redeem_script pubkey json =
    length pubkey ∷ pubkey
    ++ 172 ∷ 0 ∷ 99 ∷ 4 ∷ b'k' ∷ b's' ∷ b'p' ∷ b'r' ∷ 0 ∷ length json ∷ json
    ++ 104 ∷ []

-- A signature of one byte, and the redeem script.
abbrev signature : List ℕ → List ℕ
signature redeem = 1 ∷ 5 ∷ 76 ∷ length redeem ∷ redeem

abbrev deploy_script : List ℕ
deploy_script =
    signature (redeem_script key (codes "{\"p\":\"krc-721\",\"op\":\"deploy\",\"tick\":\"kas\"}"))

abbrev deploy_model : UserOperation
deploy_model = record {
  op = Op.deploy;
  tick = kas_tick;
  token_id = none;
  metadata = some (remote "ipfs://k");
  max = some 10;
  to = none;
  royalty_to = some "kaspa:q";
  royalty_fee = some 50_000_000;
  daa_mint_start = none;
  discount_fee = none;
  premint = some 2;
}

abbrev transaction : List ℕ → ℕ → ContextTransaction
transaction script fee = record {
  tx = record {
    id = 77;
    inputs = record { signature_script = script; previous_transaction_id = 3 } ∷ [];
    outputs = [];
  };
  fee = fee;
  block_time = 1000;
  accepting_block_daa_score = 50;
  index_within_merged_block = 0;
}

abbrev deploy_info : DeployInfo
deploy_info = record {
  metadata = remote "ipfs://k";
  max = 10;
  deployer = record { version = 0; script = 32 ∷ key ++ 172 ∷ [] };
  royalty =
      some (record { beneficiary = record { version = 0; script = 9 ∷ [] }; fee = 50_000_000 });
  mint_start_daa = 0;
  premint = 2;
}

abbrev deploy_operation : Operation
deploy_operation = record {
  common = record {
    tick = kas_tick;
    tx_id = 77;
    block_time = 1000;
    sender = record { version = 0; script = 32 ∷ key ++ 172 ∷ [] };
    fee = 102_000_000_000;
    accepting_block_daa_score = 50;
  };
  info = OperationInfo.deploy deploy_info;
}

abbrev deploy_transaction : ContextTransaction
deploy_transaction = transaction deploy_script 102_000_000_000

deploy_found :
    detect_krc721 (libraries deploy_model) analyzer deploy_transaction ≡ ok (some deploy_operation)
unfolding detect_krc721 analyze_items redeem_push envelope_of inscription_of scope_of reveal_sender
    resolve pay_to_pub_key operation_of analyze_deploy signature_script detect_kspr_header
    detect_krc721_header window_find scan parse_script read_items collect_opcodes
    validate_redeem_envelope validate_common_opcodes validate_optional_content
    validate_mandatory_content restricted total_deploy_fee common_of from_str as_str checked_tick
    all_alphanumeric padded big_endian bytes_of trim_nul encode encode_char decode read_byte
    read_next read_code read_push read_long has_incompatible_uri_prefix words_eq add_u64 mul_u64
deploy_found = refl

detect_krc721-Reveals_example :
    (script : List ℕ) × (signature_script deploy_transaction ≡ some script)
    × (detect_kspr_header script ≡ true)
    × Reveals
        (libraries deploy_model)
        analyzer
        deploy_transaction
        (parse_script kaspa_script script)
        deploy_operation
detect_krc721-Reveals_example =
    detect_krc721-Reveals (libraries deploy_model) analyzer deploy_transaction deploy_operation
      deploy_found

kas_Fresh : Fresh kas_tick empty_db
unfolding get
kas_Fresh = record {
  unregistered = refl;
  no_mints = tt;
  no_ranges = refl;
  no_slots = λ i. refl;
  no_owners = λ id. refl;
}

detect_krc721-process_deployment_example :
    (db : Db) × (process_deployment 5000 deploy_operation.common deploy_info empty_db
      ≡ Outcome.ok (accepted, db))
    × (registered kas_tick db ≡ some (deployment_entry 5000 deploy_operation.common deploy_info))
    × (last_mint kas_tick db ≡ 2)
    × InSequence kas_tick 5000 deploy_info 2 db
    × Supply kas_tick deploy_info db
detect_krc721-process_deployment_example =
    detect_krc721-process_deployment (libraries deploy_model) analyzer deploy_transaction
      deploy_operation deploy_info 5000 empty_db deploy_found refl (omega arith) kas_Fresh

detect_krc721-fees_example :
    ((kspr_fee_deploy kaspa_script + 2 * kspr_fee_mint kaspa_script) % u64_modulus
      ≤ 102_000_000_000)
    × ((r : RoyaltyDetails)
        → deploy_info.royalty ≡ some r
        → (min_royalty_fee kaspa_script ≤ r.fee) × (r.fee ≤ max_royalty_fee kaspa_script))
detect_krc721-fees_example =
    detect_krc721-fees (libraries deploy_model) analyzer deploy_transaction deploy_operation
      deploy_info deploy_found refl

abbrev deploy_scope : Scope
deploy_scope = record {
  tick = kas_tick;
  sender = deploy_info.deployer;
  to_param = none;
  royalty_to = record { version = 0; script = 9 ∷ [] };
}

operation_of-accepted_example :
    (operation_of
        (libraries deploy_model)
        analyzer
        deploy_transaction
        deploy_scope
        deploy_model
        Op.deploy
      ≡ ok deploy_operation)
    ↔ Emitted
        (libraries deploy_model)
        analyzer
        deploy_transaction
        deploy_scope
        deploy_model
        Op.deploy
        deploy_operation
operation_of-accepted_example =
    operation_of-accepted (libraries deploy_model) analyzer deploy_transaction deploy_scope
      deploy_model Op.deploy deploy_operation

-- A key of five bytes under the signature check of a Schnorr key.
abbrev short_transaction : ContextTransaction
short_transaction =
    transaction
      (signature
        (redeem_script (repeated 5) (codes "{\"p\":\"krc-721\",\"op\":\"mint\",\"tick\":\"kas\"}")))
      102_000_000_000

short_panics : detect_krc721 (libraries deploy_model) analyzer short_transaction ≡ panic
unfolding detect_krc721 analyze_items redeem_push envelope_of inscription_of scope_of reveal_sender
    resolve pay_to_pub_key operation_of analyze_deploy signature_script detect_kspr_header
    detect_krc721_header window_find scan parse_script read_items collect_opcodes
    validate_redeem_envelope validate_common_opcodes validate_optional_content
    validate_mandatory_content restricted total_deploy_fee common_of from_str as_str checked_tick
    all_alphanumeric padded big_endian bytes_of trim_nul encode encode_char decode read_byte
    read_next read_code read_push read_long has_incompatible_uri_prefix words_eq add_u64 mul_u64
short_panics = refl

-- The script of the deployment, before and after a third push.
abbrev longer_script : List ℕ
longer_script = deploy_script ++ 1 ∷ 8 ∷ []

same_second :
    second_item (parse_script kaspa_script deploy_script)
    ≡ second_item (parse_script kaspa_script longer_script)
unfolding parse_script read_items read_next read_code read_push read_long
same_second = refl

has_header : detect_kspr_header deploy_script ≡ true
unfolding detect_kspr_header window_find scan words_eq
has_header = refl

longer_has_header : detect_kspr_header longer_script ≡ true
unfolding detect_kspr_header window_find scan words_eq
longer_has_header = refl

detect_krc721-second_example :
    detect_krc721 (libraries deploy_model) analyzer (signed deploy_script 3 [] deploy_transaction)
    ≡ detect_krc721 (libraries deploy_model) analyzer (signed longer_script 3 [] deploy_transaction)
detect_krc721-second_example =
    detect_krc721-second (libraries deploy_model) analyzer deploy_transaction 3 [] deploy_script
      longer_script same_second has_header longer_has_header

parse_script-Reads_example :
    Reads kaspa_script deploy_script (parse_script kaspa_script deploy_script)
parse_script-Reads_example = parse_script-Reads kaspa_script kaspa_laws.consumes deploy_script

abbrev opcode_of : ℕ → List ℕ → Opcode
opcode_of code bytes = record {
  value = code;
  is_empty = false;
  is_push_opcode = true;
  get_data = bytes;
}

abbrev envelope : List Opcode
envelope =
    opcode_of 32 key
    ∷ opcode_of 172 []
    ∷ opcode_of 0 []
    ∷ opcode_of 99 []
    ∷ opcode_of 4 (b'k' ∷ b's' ∷ b'p' ∷ b'r' ∷ [])
    ∷ opcode_of 0 []
    ∷ opcode_of 2 (1 ∷ 2 ∷ [])
    ∷ opcode_of 104 []
    ∷ []

validate_redeem_envelope-Envelope_example :
    (validate_redeem_envelope kaspa_script envelope ≡ ok tt) ↔ Envelope kaspa_script envelope
validate_redeem_envelope-Envelope_example = validate_redeem_envelope-Envelope kaspa_script envelope

window_find-FirstFromTen_example :
    FirstFromTen (99 ∷ 4 ∷ []) deploy_script (window_find deploy_script (99 ∷ 4 ∷ []))
window_find-FirstFromTen_example = window_find-FirstFromTen deploy_script 99 (4 ∷ [])

abbrev listing_script : List ℕ
listing_script =
    redeem_script key
      (codes "{\"p\":\"krc-721\",\"op\":\"send\",\"tick\":\"kas\",\"tokenId\":\"7\"}")

abbrev listing_external : External
listing_external = (libraries deploy_model).external

listing_built :
    compute_listing_p2sh listing_external ascii kaspa_builder kaspa_script key kas_upper 7 1
    ≡ some (record { prefix = 1; version = 0; payload = listing_script }, listing_script)
unfolding compute_listing_p2sh redeem_pubkey send_json encode encode_char push_bytes long_push
listing_built = refl

compute_listing_p2sh-Redeems_example :
    (ops : List Opcode) × (collect_opcodes (parse_script kaspa_script listing_script) ≡ ok ops)
    × Redeems kaspa_script key (send_json ascii kas_upper 7) ops
compute_listing_p2sh-Redeems_example =
    compute_listing_p2sh-Redeems kaspa_builder kaspa_script kaspa_laws listing_external ascii key
      kas_upper 7 1 (record { prefix = 1; version = 0; payload = listing_script }, listing_script)
      (omega arith) listing_built
