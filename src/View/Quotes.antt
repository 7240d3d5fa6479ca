-- ===== src/View/Quotes.antt =====
-- The fee that `krc721_royalty_fee` of nexus/src/nft_view.rs answers with, against what a mint in
-- nexus/src/processor.rs is rejected for.
use Prim.Native.String.{String}
use krc721_protocol.Prelude.{
  ◌≤◌, ◌≡◌, refl, ◌↔◌, true, none, some, List, arith, Option-cases, inl, inr, ℕ,
}
use krc721_protocol.Partition.{get}
use krc721_protocol.Model.{Tick, ScriptPublicKey, spk_eq, RoyaltyDetails}
use krc721_protocol.Keys.{number_key, ScoredDeployInfoWithCommon}
use krc721_protocol.Db.{Db}
use krc721_protocol.Processor.Mint.{royalty_error, last_fee}
use krc721_protocol.View.{krc721_royalty_fee, is_compatible}

-- The fee that the view quotes is what a mint has to pay at least, and to the beneficiary.
abbrev pub Quoted : ScriptPublicKey → Tick → List String → RoyaltyDetails → Db → Type 0
Quoted to tick restricted royalty db =
    (fee : ℕ) × (krc721_royalty_fee to tick restricted db ≡ some fee)
    × ((paid : RoyaltyDetails)
        → (royalty_error (some royalty) (some paid) to tick db ≡ none)
          ↔ ((fee ≤ paid.fee) × (spk_eq royalty.beneficiary paid.beneficiary ≡ true)))

-- For a registered collection with a royalty, which no restriction of protocols hides, the view
-- quotes a fee to an address, and a mint to that address that pays a royalty passes the test of
-- the royalty exactly if it pays at least that fee, and to the beneficiary.
pub krc721_royalty_fee-Quoted :
    (to : ScriptPublicKey) (tick : Tick) (restricted : List String) (d : ScoredDeployInfoWithCommon)
    (royalty : RoyaltyDetails) (db : Db)
    → get tick db.collection_registry ≡ some d
    → is_compatible restricted d.info ≡ true
    → d.info.info.royalty ≡ some royalty
    → Quoted to tick restricted royalty db
unfolding krc721_royalty_fee royalty_error
krc721_royalty_fee-Quoted to tick restricted d royalty db registered open_ has =
    elim (Option-cases (last_fee to tick db.vip)) [
      | inl e ↦ (
        royalty.fee,
        rw (krc721_royalty_fee, registered, open_, e, has) refl,
        λ paid. (λ h. ground (arith, e, h), λ h. ground (arith, e, h)),
      )
      | inr (fee, e) ↦ (
        fee,
        rw (krc721_royalty_fee, registered, open_, e) refl,
        λ paid. (λ h. ground (arith, e, h), λ h. ground (arith, e, h)),
      )
    ]
