-- ===== src/Analyzer/Deploys.antt =====
-- The deploy branch of `detect_krc721` of nexus/src/analyzer.rs, and what it lets through.
use krc721_protocol.Prelude.{
  ℕ, ◌≤◌, ◌≡◌, ◌≢◌, refl, sym, ap, ◌∙◌, false, Option, none, some, ◌==◌, ltb, get_or, ◌↔◌, inl, inr,
  u64_max, arith, Bool-cases,
}
use krc721_protocol.Model.{
  ScriptPublicKey, RoyaltyDetails, DeployInfo, Operation, OperationInfo,
  has_incompatible_uri_prefix,
}
use krc721_protocol.Keys.{spk_eq_sound, spk_eq_refl}
use krc721_protocol.Inscription.Codes.{Script, min_royalty_fee, max_royalty_fee}
use krc721_protocol.Analyzer.Result.{ok, bind_ok, ok_or, refuse, ok_inj, ok_or-ok, refuse-ok}
use krc721_protocol.Analyzer.Source.{ContextTransaction}
use krc721_protocol.Analyzer.Arms.{
  UserOperation, Analyzer, Scope, common_of, restricted, check_restricted, checked_royalty,
  total_deploy_fee, analyze_deploy,
}

-- A tick that is reserved is deployed by its owner.
pub data Reserved (sender : ScriptPublicKey) : Option ScriptPublicKey → Type 0 where
  free : Reserved sender none
  own : Reserved sender (some sender)

-- A royalty is between the bounds.
pub data Royalty (s : Script) (to : ScriptPublicKey)
    : Option ℕ → Option RoyaltyDetails → Type 0 where
  no_royalty : Royalty s to none none
  royalty :
      (fee : ℕ)
      → min_royalty_fee s ≤ fee
      → fee ≤ max_royalty_fee s
      → Royalty s to (some fee) (some (record { beneficiary = to; fee = fee }))

module _ (s : Script) (a : Analyzer) (t : ContextTransaction) (c : Scope)
    (model : UserOperation) where
  pub record MayDeploy (info : DeployInfo) : Type 0 where
    pub reserved : Reserved c.sender (restricted c.tick a.restricted_tokens)
    pub metadata_given : model.metadata ≡ some info.metadata
    pub uri : has_incompatible_uri_prefix info.metadata a.restricted_protocols ≡ false
    pub max_given : model.max ≡ some info.max
    pub max_fits : info.max ≢ u64_max
    pub premint_is : info.premint ≡ get_or model.premint 0
    pub premint_fits : info.premint ≤ info.max
    pub paid : total_deploy_fee s info.premint ≤ t.fee
    pub royalty_fits : Royalty s c.royalty_to model.royalty_fee info.royalty
    pub deployer_is : info.deployer ≡ get_or c.to_param c.sender
    pub mint_start : info.mint_start_daa ≡ get_or model.daa_mint_start 0

  check_restricted-Reserved :
      (o : Option ScriptPublicKey)
      → check_restricted c.tick c.sender o ≡ ok tt
      → Reserved c.sender o
  check_restricted-Reserved none e = free
  check_restricted-Reserved (some x) e =
      let same : x ≡ c.sender = ground (arith, e, spk_eq_sound x c.sender) in rw same own

  checked_royalty-Royalty :
      (o : Option ℕ) {r : Option RoyaltyDetails}
      → checked_royalty s c.royalty_to o ≡ ok r
      → Royalty s c.royalty_to o r
  checked_royalty-Royalty none e = let f = ok_inj e in rw (← f) no_royalty
  checked_royalty-Royalty (some fee) {r} e = elim (Bool-cases (ltb fee (min_royalty_fee s))) [
    | inl low ↦ ground (arith, low, e)
    | inr low ↦ elim (Bool-cases (ltb (max_royalty_fee s) fee)) [
      | inl high ↦ ground (arith, low, high, e)
      | inr high ↦
          let same : some (record { beneficiary = c.royalty_to; fee = fee }) ≡ r =
            ground (arith, low, high, e) in
          rw (← same) (royalty fee (ground (arith, low)) (ground (arith, high)))
    ]
  ]

  analyze_deploy-MayDeploy :
      {op : Operation}
      → analyze_deploy s a t c model ≡ ok op
      → (info : DeployInfo) × (op
          ≡ record { common = common_of t c; info = OperationInfo.deploy info })
        × MayDeploy info
  unfolding analyze_deploy
  analyze_deploy-MayDeploy e =
      let (_, e1, f1) =
        bind_ok (check_restricted c.tick c.sender (restricted c.tick a.restricted_tokens)) (λ _. _)
          e in
      let (metadata, e2, f2) = bind_ok (ok_or model.metadata _) (λ _. _) f1 in
      let (_, e3, f3) =
        bind_ok (refuse (has_incompatible_uri_prefix metadata a.restricted_protocols) _) (λ _. _)
          f2 in
      let (max, e4, f4) = bind_ok (ok_or model.max _) (λ _. _) f3 in
      let (_, e5, f5) = bind_ok (refuse (max == u64_max) _) (λ _. _) f4 in
      let premint = get_or model.premint 0 in
      let (_, e6, f6) = bind_ok (refuse (ltb max premint) _) (λ _. _) f5 in
      let (_, e7, f7) = bind_ok (refuse (ltb t.fee (total_deploy_fee s premint)) _) (λ _. _) f6 in
      let (fees, e8, f8) = bind_ok (checked_royalty s c.royalty_to model.royalty_fee) (λ _. _) f7 in
      (
        record {
          metadata = metadata;
          max = max;
          deployer = get_or c.to_param c.sender;
          royalty = fees;
          mint_start_daa = get_or model.daa_mint_start 0;
          premint = premint;
        },
        sym (ok_inj f8),
        record {
          reserved = check_restricted-Reserved _ e1;
          metadata_given = ok_or-ok model.metadata _ e2;
          uri = refuse-ok _ _ e3;
          max_given = ok_or-ok model.max _ e4;
          max_fits = ground (arith, refuse-ok (max == u64_max) _ e5);
          premint_is = refl;
          premint_fits = ground (arith, refuse-ok (ltb max premint) _ e6);
          paid = ground (arith, refuse-ok (ltb t.fee (total_deploy_fee s premint)) _ e7);
          royalty_fits = checked_royalty-Royalty model.royalty_fee e8;
          deployer_is = refl;
          mint_start = refl;
        },
      )

  Reserved-passes :
      (o : Option ScriptPublicKey)
      → Reserved c.sender o
      → check_restricted c.tick c.sender o ≡ ok tt
  Reserved-passes _ free = refl
  Reserved-passes _ own = ground (arith, spk_eq_refl c.sender)

  Royalty-passes :
      {o : Option ℕ} {r : Option RoyaltyDetails}
      → Royalty s c.royalty_to o r
      → checked_royalty s c.royalty_to o ≡ ok r
  Royalty-passes no_royalty = refl
  Royalty-passes (royalty fee low high) = ground (arith, low, high)

  MayDeploy-passes :
      (info : DeployInfo)
      → MayDeploy info
      → analyze_deploy s a t c model
        ≡ ok (record { common = common_of t c; info = OperationInfo.deploy info })
  unfolding analyze_deploy
  MayDeploy-passes info m =
      let e1 = Reserved-passes _ m.reserved in
      let e5 : (info.max == u64_max) ≡ false = ground (arith, m.max_fits) in
      let e6 : ltb info.max info.premint ≡ false = ground (arith, m.premint_fits) in
      let e7 : ltb t.fee (total_deploy_fee s info.premint) ≡ false = ground (arith, m.paid) in
      rw
        (
          e1,
          m.metadata_given,
          m.uri,
          m.max_given,
          e5,
          ← m.premint_is,
          e6,
          e7,
          Royalty-passes m.royalty_fits,
          ← m.deployer_is,
          ← m.mint_start,
        )
        refl

  pub analyze_deploy-accepted :
      (op : Operation)
      → (analyze_deploy s a t c model ≡ ok op) ↔ (
          (info : DeployInfo) × (op
            ≡ record { common = common_of t c; info = OperationInfo.deploy info })
          × MayDeploy info)
  analyze_deploy-accepted op =
      (analyze_deploy-MayDeploy, λ (info, e, m). MayDeploy-passes info m ∙ ap (λ o. ok o) (sym e))
