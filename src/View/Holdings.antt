-- ===== src/View/Holdings.antt =====
-- `krc721_address_nft_list` of nexus/src/nft_view.rs against the same list without what it keeps of
-- a collection from one token to the next.
use Prim.Native.String.{String}
use mathlib.Core.List.{append_assoc, append-nil}
use krc721_protocol.Prelude.{
  ℕ, zero, suc, ◌+◌, ◌≤◌, ◌≡◌, refl, sym, ap, ◌∙◌, ◌≢◌, ◌⊎◌, inl, inr, true, false, not, ◌==◌, none,
  some, List, [], ◌∷◌, ◌++◌, length, length-append, ltb, if◌then◌else◌, arith, Bool-cases,
}
use krc721_protocol.Partition.{get}
use krc721_protocol.Model.{ScriptPublicKey, tick_min}
use krc721_protocol.Keys.{number_key, AddressHoldingKey, ScoredDeployInfoWithCommon}
use krc721_protocol.Db.{Db}
use krc721_protocol.View.{
  done, take, AddressNftInfo, Progress, no_progress, push_nft, conditional_push, collect_nfts,
  split_last, krc721_address_nft_list, holdings_in, token_status, token_listing, is_compatible,
  IteratorArgs, TickTokenOffset,
}

-- The token as the collection describes it.
abbrev pub nft_of : Db → ScoredDeployInfoWithCommon → AddressHoldingKey → ℕ → AddressNftInfo
nft_of db d key mod_tx_score = record {
  tick = key.tick;
  tick_metadata = d.info.info.metadata;
  token_id = key.token_id;
  op_score_modified = mod_tx_score;
  status = token_status (token_listing key.tick key.token_id db);
}

-- One token, if its collection is registered and not restricted.
unfoldable pub nft_at : Db → List String → AddressHoldingKey → ℕ → List AddressNftInfo
nft_at db restricted key mod_tx_score = elim (get key.tick db.collection_registry) [
  | none ↦ []
  | some d ↦ if is_compatible restricted d.info then nft_of db d key mod_tx_score ∷ [] else []
]

abbrev pub nfts_of : Db → List String → List (AddressHoldingKey × ℕ) → List AddressNftInfo
nfts_of db restricted [] = []
nfts_of db restricted ((key, score) ∷ rest) =
    nft_at db restricted key score ++ nfts_of db restricted rest

-- The collection of each token is registered under its tick, which is not the default one.
abbrev pub Registered : Db → List (AddressHoldingKey × ℕ) → Type 0
Registered db [] = Unit
Registered db ((key, score) ∷ rest) =
    ((key.tick ≢ tick_min)
      × (d : ScoredDeployInfoWithCommon) × (get key.tick db.collection_registry ≡ some d)
      × (d.info.common.tick ≡ key.tick))
    × Registered db rest

-- What is kept is nothing yet, or what the collection says.
abbrev Cached : Db → List String → Progress → Type 0
Cached db restricted p =
    (p.last_tick ≡ tick_min)
    ⊎ ((d : ScoredDeployInfoWithCommon) × (get p.last_tick db.collection_registry ≡ some d)
        × (p.last_metadata ≡ d.info.info.metadata)
        × (p.last_incompatible ≡ not (is_compatible restricted d.info)))

module _ {ℓ} {A : Type ℓ} where
  take-whole : (n : ℕ) (xs : List A) → length xs ≤ n → take n xs ≡ xs
  take-whole zero [] h = refl
  take-whole (suc n) [] h = refl
  take-whole zero (x ∷ xs) h = absurd (omega (arith, h))
  take-whole (suc n) (x ∷ xs) h = ap (λ l. x ∷ l) (take-whole n xs (omega arith))

  take-front : (n : ℕ) (xs ys : List A) → length xs ≡ n → take n (xs ++ ys) ≡ xs
  take-front zero [] ys h = refl
  take-front (suc n) [] ys h = absurd (omega arith)
  take-front zero (x ∷ xs) ys h = absurd (omega arith)
  take-front (suc n) (x ∷ xs) ys h = ap (λ l. x ∷ l) (take-front n xs ys (omega arith))

module _ (db : Db) (restricted : List String) where
  module _ (key : AddressHoldingKey) (score : ℕ) (d : ScoredDeployInfoWithCommon)
      (here : get key.tick db.collection_registry ≡ some d) where
    nft_at-open :
        is_compatible restricted d.info ≡ true
        → nft_at db restricted key score ≡ nft_of db d key score ∷ []
    unfolding nft_at
    nft_at-open c = rw (nft_at, here, c) refl

    nft_at-hidden : is_compatible restricted d.info ≡ false → nft_at db restricted key score ≡ []
    unfolding nft_at
    nft_at-hidden c = rw (nft_at, here, c) refl

    -- What a step of the loop leaves.
    abbrev Pushed : Progress → Type 0
    Pushed p =
        (q : Progress) × (conditional_push db restricted key score p ≡ done q)
        × Cached db restricted q
        × (q.c ≡ p.c ++ nft_at db restricted key score)

    push_cached :
        (p : Progress)
        → p.last_tick ≡ key.tick
        → p.last_metadata ≡ d.info.info.metadata
        → p.last_incompatible ≡ not (is_compatible restricted d.info)
        → Pushed p
    unfolding conditional_push
    push_cached p same meta inc =
        let hit : (p.last_tick == key.tick) ≡ true = ground (arith, same) in
        let kept : Cached db restricted p =
          inr (d, ap (λ t. get t db.collection_registry) same ∙ here, meta, inc) in
        elim (Bool-cases (is_compatible restricted d.info)) [
          | inl c ↦
              let shown : p.last_incompatible ≡ false = inc ∙ ap not c in
              (
                push_nft db key score p,
                rw (conditional_push, hit, shown) refl,
                kept,
                rw (nft_at-open c, meta) refl,
              )
          | inr c ↦
              let hidden : p.last_incompatible ≡ true = inc ∙ ap not c in
              (
                p,
                rw (conditional_push, hit, hidden) refl,
                kept,
                rw (nft_at-hidden c) (sym (append-nil p.c)),
              )
        ]

    fresh : Progress → Progress
    fresh p = record p {
      last_tick = d.info.common.tick;
      last_metadata = d.info.info.metadata;
      last_incompatible = not (is_compatible restricted d.info);
    }

    push_fresh :
        (p : Progress)
        → (p.last_tick == key.tick) ≡ false
        → d.info.common.tick ≡ key.tick
        → Pushed p
    unfolding conditional_push fresh
    push_fresh p miss own =
        let kept : Cached db restricted (fresh p) =
          inr (d, ap (λ t. get t db.collection_registry) own ∙ here, refl, refl) in
        elim (Bool-cases (is_compatible restricted d.info)) [
          | inl c ↦ (
            push_nft db key score (fresh p),
            rw (conditional_push, miss, here, c) refl,
            kept,
            rw (nft_at-open c) refl,
          )
          | inr c ↦ (
            fresh p,
            rw (conditional_push, miss, here, c) refl,
            kept,
            rw (nft_at-hidden c) (sym (append-nil p.c)),
          )
        ]

    push :
        (p : Progress)
        → key.tick ≢ tick_min
        → d.info.common.tick ≡ key.tick
        → Cached db restricted p
        → Pushed p
    push p ne own cached = elim (Bool-cases (p.last_tick == key.tick)) [
      | inr miss ↦ push_fresh p miss own
      | inl hit ↦
          let same : p.last_tick ≡ key.tick = ground (arith, hit) in
          elim cached [
            | inl first ↦ absurd (ne (sym same ∙ first))
            | inr (d', e, meta, inc) ↦
                let one : d' ≡ d = ground (arith, here, e, same) in
                push_cached p same (meta ∙ ap (λ x. x.info.info.metadata) one)
                  (inc ∙ ap (λ x. not (is_compatible restricted x.info)) one)
          ]
    ]

    nft_at-length : length (nft_at db restricted key score) ≤ 1
    nft_at-length = elim (Bool-cases (is_compatible restricted d.info)) [
      | inl c ↦ rw (nft_at-open c) (omega arith)
      | inr c ↦ rw (nft_at-hidden c) (omega arith)
    ]

  collects :
      (limit : ℕ) (es : List (AddressHoldingKey × ℕ)) (p : Progress)
      → Registered db es
      → Cached db restricted p
      → length p.c ≤ limit
      → (q : Progress) × (collect_nfts db restricted limit es p ≡ done q)
        × (q.c ≡ take (limit + 1) (p.c ++ nfts_of db restricted es))
  unfolding collect_nfts
  collects limit [] p r cached room =
      (p, refl, sym (rw (append-nil p.c) (take-whole (limit + 1) p.c (omega (arith, room)))))
  collects limit ((key, score) ∷ rest) p ((ne, d, here, own), r) cached room =
      let (q, step, kept, c) = push key score d here p ne own cached in
      let found = nft_at db restricted key score in
      let all : p.c ++ (found ++ nfts_of db restricted rest) ≡ q.c ++ nfts_of db restricted rest =
        sym (append_assoc p.c found _) ∙ ap (λ l. l ++ nfts_of db restricted rest) (sym c) in
      let size : length q.c ≤ limit + 1 = omega (
        arith,
        room,
        ap (λ l. length l) c,
        length-append p.c found,
        nft_at-length key score d here,
      ) in
      elim (Bool-cases (ltb (length q.c) (limit + 1))) [
        | inl more ↦
            let (q', e, h) = collects limit rest q r kept (ground (arith, more)) in
            (q', rw (collect_nfts, step, more) e, h ∙ ap (λ l. take (limit + 1) l) (sym all))
        | inr full ↦ (
          q,
          rw (collect_nfts, step, full) refl,
          sym (
              ap (λ l. take (limit + 1) l) all
              ∙ take-front (limit + 1) q.c _ (ground (arith, full, size))),
        )
      ]

-- Where the collections of the tokens in the range of an address are registered under their ticks,
-- none of which is the default tick, the view makes no error and does not panic, and it gives the
-- tokens whose collection is not restricted, in the order of the range, each as its own collection
-- describes it, up to one more than the limit.
pub krc721_address_nft_list-nfts_of :
    (spk : ScriptPublicKey) (args : IteratorArgs TickTokenOffset) (restricted : List String)
    (db : Db)
    → Registered db (holdings_in spk args db)
    → krc721_address_nft_list spk args restricted db
      ≡ done (split_last (take (args.limit + 1) (nfts_of db restricted (holdings_in spk args db))))
unfolding krc721_address_nft_list
krc721_address_nft_list-nfts_of spk args restricted db r =
    let (q, e, c) =
      collects db restricted args.limit (holdings_in spk args db) no_progress r (inl refl)
        (omega arith) in
    rw (krc721_address_nft_list, e, c) refl
