-- ===== src/Processor/Mint/Conditions.antt =====
-- When `process_mint` of nexus/src/processor.rs accepts a mint after the premint.
use krc721_protocol.Prelude.{
  ◌+◌, ◌≤◌, ◌<◌, ◌≡◌, ◌↔◌, false, none, some, Option, get_or, arith, add_u64-lt, u64_max, refl,
}
use krc721_protocol.Model.{
  Tick, ScriptPublicKey, RoyaltyDetails, DeployInfo, MintInfo, OperationCommon,
}
use krc721_protocol.Keys.{spk_eq_sound, spk_eq_refl}
use krc721_protocol.Db.{Db}
use krc721_protocol.Processor.Mint.{last_fee, last_mint, royalty_error, mint_error}

-- The mint pays the royalty: at least the fee of the newest discount of its receiver, or that of the
-- collection if there is none, to the beneficiary of the collection.
abbrev pub RoyaltyPaid :
    Option RoyaltyDetails → Option RoyaltyDetails → ScriptPublicKey → Tick → Db → Type 0
RoyaltyPaid (some d) (some m) to tick db =
    (get_or (last_fee to tick db.vip) d.fee ≤ m.fee) × (d.beneficiary ≡ m.beneficiary)
RoyaltyPaid (some d) none to tick db = ⊥
RoyaltyPaid none r to tick db = Unit

-- The mint has begun, a token is left, and the royalty is paid.
abbrev pub MayMint : DeployInfo → OperationCommon → MintInfo → Db → Type 0
MayMint info common mint db =
    (info.mint_start_daa ≤ common.accepting_block_daa_score)
    × (last_mint common.tick db + 1 ≤ info.max)
    × RoyaltyPaid info.royalty mint.royalty mint.to common.tick db

royalty-RoyaltyPaid :
    (r m : Option RoyaltyDetails) (to : ScriptPublicKey) (tick : Tick) (db : Db)
    → (royalty_error r m to tick db ≡ none) ↔ RoyaltyPaid r m to tick db
unfolding royalty_error
royalty-RoyaltyPaid (some d) (some m) to tick db = (
  λ h. (ground arith, ground (arith, spk_eq_sound d.beneficiary m.beneficiary)),
  λ (enough, same). ground (arith, enough, same, spk_eq_refl m.beneficiary),
)
royalty-RoyaltyPaid (some d) none to tick db = (λ h. cc, λ h. absurd h)
royalty-RoyaltyPaid none m to tick db = (λ h. tt, λ h. refl)

-- After the premint, and with a sequence number that does not wrap, no test rejects a mint exactly
-- when minting has begun, a token is left, and, if the collection has a royalty, the mint pays its
-- beneficiary at least the fee of the newest discount of the receiver, or that of the collection
-- if there is none.
pub mint_error-MayMint :
    (info : DeployInfo) (common : OperationCommon) (mint : MintInfo) (db : Db)
    → info.premint ≤ last_mint common.tick db
    → last_mint common.tick db < u64_max
    → (mint_error info common mint false db ≡ none) ↔ MayMint info common mint db
unfolding mint_error
mint_error-MayMint info common mint db done small =
    let plain = add_u64-lt (last_mint common.tick db) 1 (omega (arith, small)) in
    let royalty = royalty-RoyaltyPaid info.royalty mint.royalty mint.to common.tick db in
    (
      λ h. (ground (arith, plain), ground (arith, plain), royalty.0 (ground (arith, plain))),
      λ (started, left, paid). ground (arith, plain, started, left, royalty.1 paid),
    )
