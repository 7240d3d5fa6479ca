-- ===== src/Inscription/Codes.antt =====
-- core/src/constants.rs: the fees and the headers of the protocol; and what the program takes from
-- the script crate of Kaspa (kaspa_txscript): the codes of the opcodes and the reader of the next
-- opcode of a script.
use krc721_protocol.Prelude.{ℕ, ◌*◌, ◌/◌, Bool, Option, List, [], ◌∷◌}

-- An opcode as `OpCodeImplementation` shows it.
pub record Opcode : Type 0 where
  pub value : ℕ
  pub is_empty : Bool
  pub is_push_opcode : Bool
  pub get_data : List ℕ

-- One item of `parse_script`, with the text of a `TxScriptError`.
pub data Item : Type 0 where
  opcode : Opcode → Item
  tx_script_error : List ℕ → Item

-- `deserialize_next_opcode` returns an item, if there is one, and leaves the rest of the script.
pub record Script : Type 0 where
  pub op_check_sig : ℕ
  pub op_check_sig_ecdsa : ℕ
  pub op_data32 : ℕ
  pub op_data33 : ℕ
  pub op_end_if : ℕ
  pub op_false : ℕ
  pub op_if : ℕ
  pub op_true : ℕ
  pub deserialize_next_opcode : List ℕ → Option (Item × List ℕ)
  pub sompi_per_kaspa : ℕ

-- The products are constants: one that does not fit 64 bits is refused by the compiler.
abbrev pub kspr_fee_deploy : Script → ℕ
kspr_fee_deploy s = 1000 * s.sompi_per_kaspa

abbrev pub kspr_fee_mint : Script → ℕ
kspr_fee_mint s = 10 * s.sompi_per_kaspa

abbrev pub min_royalty_fee : Script → ℕ
min_royalty_fee s = s.sompi_per_kaspa / 10

abbrev pub max_royalty_fee : Script → ℕ
max_royalty_fee s = 10_000_000 * s.sompi_per_kaspa

abbrev pub protocol_kspr_namespace : List ℕ
protocol_kspr_namespace = b'k' ∷ b's' ∷ b'p' ∷ b'r' ∷ []

abbrev pub kasplex_header_lc : List ℕ
kasplex_header_lc = b'k' ∷ b'a' ∷ b's' ∷ b'p' ∷ b'l' ∷ b'e' ∷ b'x' ∷ []

abbrev pub kasplex_header_uc : List ℕ
kasplex_header_uc = b'K' ∷ b'A' ∷ b'S' ∷ b'P' ∷ b'L' ∷ b'E' ∷ b'X' ∷ []

abbrev pub kspr_u8_strict : List ℕ
kspr_u8_strict = 0 ∷ 99 ∷ 4 ∷ b'k' ∷ b's' ∷ b'p' ∷ b'r' ∷ []

abbrev pub kspr_u8_strict_uc : List ℕ
kspr_u8_strict_uc = 0 ∷ 99 ∷ 4 ∷ b'K' ∷ b'S' ∷ b'P' ∷ b'R' ∷ []

-- The names of these four are the source's: `UC` is the header in lower case.
abbrev pub krc20_header_uc : List ℕ
krc20_header_uc = b'k' ∷ b'r' ∷ b'c' ∷ b'-' ∷ b'2' ∷ b'0' ∷ []

abbrev pub krc20_header_lc : List ℕ
krc20_header_lc = b'K' ∷ b'R' ∷ b'C' ∷ b'-' ∷ b'2' ∷ b'0' ∷ []

abbrev pub krc721_header_uc : List ℕ
krc721_header_uc = b'k' ∷ b'r' ∷ b'c' ∷ b'-' ∷ b'7' ∷ b'2' ∷ b'1' ∷ []

abbrev pub krc721_header_lc : List ℕ
krc721_header_lc = b'K' ∷ b'R' ∷ b'C' ∷ b'-' ∷ b'7' ∷ b'2' ∷ b'1' ∷ []
