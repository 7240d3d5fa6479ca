-- ===== src/View/Available.antt =====
-- The ranges that `krc721_available_token_id_ranges` of nexus/src/nft_view.rs answers with, against
-- the ids that nexus/src/processor/token_id.rs can still draw.
use mathlib.Core.Path.{subst}
use krc721_protocol.Prelude.{
  ℕ, ◌+◌, ◌-◌, ◌≤◌, ◌<◌, ◌≡◌, refl, sym, ap, ◌∙◌, ◌↔◌, ◌⊎◌, inl, inr, Bool, true, false, ◌&&◌, ◌||◌,
  Option, none, some, List, [], ◌∷◌, map, leb, ltb, ◌==◌, if◌then◌else◌, arith, Bool-cases,
  Option-cases, u64_max, words_lt, add_u64, sub_u64, add_u64-lt, sub_u64-le,
}
use krc721_protocol.Partition.{Partition, get, range_from, key_eq, first_where}
use krc721_protocol.Partition.Laws.{key_eq_sound, key_eq_refl}
use krc721_protocol.Partition.Order.{Sorted, above_least}
use krc721_protocol.Model.{Tick}
use krc721_protocol.Keys.{
  number_key, range_key_instance, range_key, RangeKey, MintHistoryKey, ScoredDeployInfoWithCommon,
}
use krc721_protocol.Db.{Db}
use krc721_protocol.TokenId.Slots.{slot, slots_len}
use krc721_protocol.TokenId.Ranges.{Available}
use krc721_protocol.TokenId.Mass.{mass, len-le-mass}
use krc721_protocol.TokenId.Pool.{Pool, pool_size, WellFormed}
use krc721_protocol.Processor.Mint.{last_mint, last_minted_token_seq_no}
use krc721_protocol.Processor.Mint.Supply.{Supply}
use krc721_protocol.View.{
  AvailableRange, AvailableRanges, fully_minted, available, to_available_range, ranges_of,
  ranges_left, krc721_available_token_id_ranges, last_minted_token_seq_no_rtx, range_before,
  TokenScoreSeqNo,
}

-- The id is in one of the ranges.
abbrev pub offered : List AvailableRange → ℕ → Bool
offered [] id = false
offered (r ∷ rs) id =
    (leb r.start_token_id id && ltb id (r.start_token_id + r.size)) || offered rs id

abbrev Slotted : Tick → Partition RangeKey (ℕ × ℕ) → Partition RangeKey (ℕ × ℕ) → Type 0
Slotted t m [] = Unit
Slotted t m ((k, v) ∷ r) = (get (range_key t k.index) m ≡ some v) × Slotted t m r

abbrev within : Tick → Partition RangeKey (ℕ × ℕ) → Partition RangeKey (ℕ × ℕ)
within t r = range_before (t ∷ u64_max ∷ []) (range_from (t ∷ 0 ∷ []) r)

-- The range of a tick has the entries of the tick, but for the last index that a key can have.
within-cons :
    (t : Tick) (k : RangeKey) (v : ℕ × ℕ) (r : Partition RangeKey (ℕ × ℕ))
    → within t ((k, v) ∷ r)
      ≡ (if (k.tick == t) && ltb k.index u64_max then (k, v) ∷ within t r else within t r)
unfolding range_from range_before words_lt
within-cons t k v r = elim (Bool-cases (words_lt (k.tick ∷ k.index ∷ []) (t ∷ 0 ∷ []))) [
  | inl below ↦ ground arith
  | inr from ↦ elim (Bool-cases (words_lt (k.tick ∷ k.index ∷ []) (t ∷ u64_max ∷ []))) [
    | inl upto ↦ ground arith
    | inr above ↦ ground arith
  ]
]

within-nil : (t : Tick) (m : Partition RangeKey (ℕ × ℕ)) → Slotted t m (within t [])
unfolding range_from range_before
within-nil t m = tt

-- These are the slots of the tick, as they stand in the partition.
within-Slotted :
    (t : Tick) (m r : Partition RangeKey (ℕ × ℕ))
    → Sorted r
    → ((j : RangeKey) (v : ℕ × ℕ) → get j r ≡ some v → get j m ≡ some v)
    → Slotted t m (within t r)
unfolding get
within-Slotted t m [] s sub = within-nil t m
within-Slotted t m ((k, v) ∷ r) (least, s) sub =
    let tail : (j : RangeKey) (w : ℕ × ℕ) → get j r ≡ some w → get j m ≡ some w =
      λ j w e. sub j w (ground (arith, above_least k j w r least e, e)) in
    let rest = within-Slotted t m r s tail in
    elim (Bool-cases ((k.tick == t) && ltb k.index u64_max)) [
      | inl e ↦
          let here : k.tick ≡ t = ground (arith, e) in
          let found : get k m ≡ some v = sub k v (ground (arith, key_eq_refl k)) in
          rw (within-cons t k v r, e)
            (ap (λ u. get (range_key u k.index) m) (sym here) ∙ found, rest)
      | inr e ↦ rw (within-cons t k v r, e) rest
    ]

Slotted-offered :
    (t : Tick) (db : Db) (r : Partition RangeKey (ℕ × ℕ)) (id : ℕ)
    → Slotted t db.available_ranges r
    → offered (map to_available_range r) id ≡ true
    → Available (slot t db) id
Slotted-offered t db [] id h e = cc
Slotted-offered t db ((k, (s, z)) ∷ r) id (here, h) e =
    elim (Bool-cases (leb s id && ltb id (s + z))) [
      | inl hit ↦ (k.index, s, z, here, ground arith, ground arith)
      | inr miss ↦ Slotted-offered t db r id h (ground (arith, e, miss))
    ]

slot-offered :
    (t : Tick) (i s z id : ℕ) (r : Partition RangeKey (ℕ × ℕ))
    → get (range_key t i) r ≡ some (s, z)
    → i < u64_max
    → s ≤ id
    → id < s + z
    → offered (map to_available_range (within t r)) id ≡ true
unfolding get
slot-offered t i s z id [] e small lo hi = cc
slot-offered t i s z id ((k, v) ∷ r) e small lo hi = elim (Bool-cases (key_eq (range_key t i) k)) [
  | inl same ↦
      let key : range_key t i ≡ k = key_eq_sound (range_key t i) k same in
      let value : v ≡ (s, z) = ground (arith, e, same) in
      let inside : ((k.tick == t) && ltb k.index u64_max) ≡ true =
        ground (arith, ap (λ (j : RangeKey). j.tick) key, ap (λ (j : RangeKey). j.index) key) in
      rw (within-cons t k v r, inside, value) (ground arith)
  | inr other ↦
      let rest = slot-offered t i s z id r (ground (arith, e, other)) small lo hi in
      elim (Bool-cases ((k.tick == t) && ltb k.index u64_max)) [
        | inl f ↦ rw (within-cons t k v r, f) (ground (arith, rest))
        | inr f ↦ rw (within-cons t k v r, f) rest
      ]
]

abbrev last_seq : Option TokenScoreSeqNo → ℕ
last_seq none = 0
last_seq (some l) = l.seq_no

last_mint-rtx : (t : Tick) (db : Db) → last_mint t db ≡ last_seq (last_minted_token_seq_no_rtx t db)
unfolding last_minted_token_seq_no last_minted_token_seq_no_rtx
last_mint-rtx t db =
    elim (Option-cases (first_where (λ (k : MintHistoryKey). k.tick == t) db.mint_history)) [
      | inl e ↦ rw (last_minted_token_seq_no, last_minted_token_seq_no_rtx, e) refl
      | inr (x, e) ↦ rw (last_minted_token_seq_no, last_minted_token_seq_no_rtx, e) refl
    ]

-- What the view says agrees with the ids that can be drawn: none is left, or the ranges hold those
-- that are.
abbrev pub LeftOf : Tick → ℕ → ℕ → Db → Option AvailableRanges → Type 0
LeftOf t max premint db answer =
    ((answer ≡ some fully_minted) × (pool_size t max premint db ≡ 0))
    ⊎ ((rs : List AvailableRange) × (answer ≡ some (available rs))
        × ((id : ℕ) → (offered rs id ≡ true) ↔ Pool t max premint db id))

Slotted-empty :
    (t : Tick) (m r : Partition RangeKey (ℕ × ℕ))
    → Slotted t m r
    → ((i : ℕ) → get (range_key t i) m ≡ none)
    → r ≡ []
Slotted-empty t m [] h free = refl
Slotted-empty t m ((k, v) ∷ r) (here, h) free = absurd (ground (arith, here, free k.index))

ranges_left-offered :
    (max premint : ℕ) (rs : List AvailableRange) (id : ℕ)
    → offered rs id ≡ true
    → ranges_left max premint rs ≡ available rs
unfolding ranges_left
ranges_left-offered max premint [] id h = cc
ranges_left-offered max premint (r ∷ rs) id h = refl

ranges_left-nil :
    (max premint : ℕ)
    → premint < max
    → ranges_left max premint []
      ≡ available (record { start_token_id = add_u64 premint 1; size = sub_u64 max premint } ∷ [])
unfolding ranges_left
ranges_left-nil max premint h = ground arith

module _ (t : Tick) (max premint : ℕ) (db : Db) (small : max < u64_max)
    (ids : WellFormed t max premint db) (s : Sorted db.available_ranges) where
  slotted : Slotted t db.available_ranges (ranges_of t db)
  slotted = within-Slotted t db.available_ranges db.available_ranges s (λ j v e. e)

  -- Before the first draw there are no ranges.
  undrawn : get t db.range_lengths ≡ none → ranges_of t db ≡ []
  undrawn e = Slotted-empty t db.available_ranges (ranges_of t db) slotted (λ i.
      elim (Option-cases (slot t db i)) [
        | inl f ↦ f
        | inr ((z, n), f) ↦ absurd (ground (arith, e, ids.ranges.bounds i z n f))
      ])

  -- After it, the ranges are those that a draw chooses from.
  drawn :
      (n : ℕ)
      → get t db.range_lengths ≡ some n
      → (id : ℕ)
      → (offered (map to_available_range (ranges_of t db)) id ≡ true) ↔ Pool t max premint db id
  drawn n e id = rw e (
    λ h. Slotted-offered t db (ranges_of t db) id slotted h,
    λ (i, start, size, here, lo, hi).
        slot-offered t i start size id db.available_ranges here
          (ground (
            arith,
            e,
            small,
            ids.ranges.bounds i start size here,
            ids.mass_bound,
            len-le-mass (1 + premint) (max + 1) (slots_len t db) (slot t db) ids.ranges,
          ))
          lo hi,
  )

  initial-LeftOf :
      (start size : ℕ)
      → start ≡ 1 + premint
      → size ≡ max - premint
      → premint < max
      → get t db.range_lengths ≡ none
      → LeftOf t max premint db
          (some (available (record { start_token_id = start; size = size } ∷ [])))
  initial-LeftOf start size a b more e =
      inr (_, refl, λ id. rw e (λ h. (ground arith, ground arith), λ h. ground arith))

  drawn-LeftOf :
      (n : ℕ)
      → get t db.range_lengths ≡ some n
      → 0 < pool_size t max premint db
      → LeftOf t max premint db
          (some (ranges_left max premint (map to_available_range (ranges_of t db))))
  unfolding mass
  drawn-LeftOf n e some_left =
      let slots : 0 < n = ground (arith, e, some_left) in
      elim (Option-cases (slot t db 0)) [
        | inl f ↦ absurd (ids.ranges.filled 0 (ground (arith, e, slots)) f)
        | inr ((start, size), f) ↦
            let hit : Pool t max premint db start =
              rw e (
                0,
                start,
                size,
                f,
                omega arith,
                ground (arith, ids.ranges.bounds 0 start size f),
              ) in
            let rs = map to_available_range (ranges_of t db) in
            let shown : ranges_left max premint rs ≡ available rs =
              ranges_left-offered max premint rs start ((drawn n e start).1 hit) in
            inr (rs, ap (λ r. some r) shown, drawn n e)
      ]

  left-LeftOf :
      0 < pool_size t max premint db
      → LeftOf t max premint db
          (some (ranges_left max premint (map to_available_range (ranges_of t db))))
  left-LeftOf some_left = elim (Option-cases (get t db.range_lengths)) [
    | inl e ↦
        let more : premint < max = ground (arith, e, some_left) in
        let shown : ranges_left max premint (map to_available_range (ranges_of t db))
            ≡ available
                (record { start_token_id = add_u64 premint 1; size = sub_u64 max premint } ∷ []) =
          rw (undrawn e) (ranges_left-nil max premint more) in
        subst (λ r. LeftOf t max premint db (some r)) (sym shown)
          (initial-LeftOf _ _ (ground (arith, add_u64-lt premint 1, small, more))
            (ground (arith, sub_u64-le max premint, small, more)) more e)
    | inr (n, e) ↦ drawn-LeftOf n e some_left
  ]

-- For a registered collection with a maximum below u64::MAX, whose supply is in balance, whose
-- ranges are sorted by their keys, and which has no ranges while it has no mints, the view says
-- that all is minted only if no id is left to draw, and otherwise its ranges hold just the ids
-- that can be drawn.
pub krc721_available_token_id_ranges-LeftOf :
    (t : Tick) (d : ScoredDeployInfoWithCommon) (db : Db)
    → get t db.collection_registry ≡ some d
    → d.info.info.max < u64_max
    → Supply t d.info.info db
    → Sorted db.available_ranges
    → (last_minted_token_seq_no_rtx t db ≡ none → get t db.range_lengths ≡ none)
    → LeftOf t d.info.info.max d.info.info.premint db (krc721_available_token_id_ranges t db)
unfolding krc721_available_token_id_ranges
krc721_available_token_id_ranges-LeftOf t d db registered small supply s unminted =
    elim (Option-cases (last_minted_token_seq_no_rtx t db)) [
      | inl e ↦
          let none_yet : last_mint t db ≡ 0 = last_mint-rtx t db ∙ ap (λ o. last_seq o) e in
          elim (Bool-cases (max == 0)) [
            | inl f ↦
                says (some fully_minted)
                  (rw (krc721_available_token_id_ranges, registered, e, f) refl)
                  (inl (refl, ground (arith, supply.balance, none_yet, f)))
            | inr f ↦
                says (some (available (record { start_token_id = 1; size = max } ∷ [])))
                  (rw (krc721_available_token_id_ranges, registered, e, f) refl)
                  (initial-LeftOf t max premint db small supply.ids s 1 max
                    (omega (arith, supply.premint_done, none_yet))
                    (omega (arith, supply.premint_done, none_yet))
                    (ground (arith, supply.premint_done, none_yet, f)) (unminted e))
          ]
      | inr (l, e) ↦
          let minted : last_mint t db ≡ l.seq_no = last_mint-rtx t db ∙ ap (λ o. last_seq o) e in
          elim (Bool-cases (l.seq_no == max)) [
            | inl f ↦
                says (some fully_minted)
                  (rw (krc721_available_token_id_ranges, registered, e, f) refl)
                  (inl (refl, ground (arith, supply.balance, minted, f)))
            | inr f ↦
                says (some (ranges_left max premint (map to_available_range (ranges_of t db))))
                  (rw (krc721_available_token_id_ranges, registered, e, f) refl)
                  (left-LeftOf t max premint db small supply.ids s
                    (ground (arith, supply.balance, minted, f)))
          ]
    ]
  where
    max : ℕ
    max = d.info.info.max

    premint : ℕ
    premint = d.info.info.premint

    says :
        (a : Option AvailableRanges)
        → krc721_available_token_id_ranges t db ≡ a
        → LeftOf t max premint db a
        → LeftOf t max premint db (krc721_available_token_id_ranges t db)
    says a e h = subst (LeftOf t max premint db) (sym e) h
