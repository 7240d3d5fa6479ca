-- ===== src/TokenId/Ranges.antt =====
-- Well-formed ranges of nexus/src/processor/token_id.rs: the slots of one tick are filled, lie
-- inside the ids of the collection, and do not overlap; and what a draw does to them.
use krc721_protocol.Prelude.{
  ℕ, ◌+◌, ◌-◌, ◌≤◌, ◌<◌, ◌≡◌, ◌≢◌, ◌⊎◌, inl, inr, ◌↔◌, Option, none, some, ◌==◌, ltb, ◌&&◌, arith,
  Bool-cases,
}
use krc721_protocol.TokenId.Slots.{drawn_len, drawn_slot}

abbrev pub Slots : Type 0
Slots = ℕ → Option (ℕ × ℕ)

-- Every slot below `n` is filled and no other; a range is not empty and lies in lo, …, hi - 1.
pub record Ranges (lo hi n : ℕ) (at : Slots) : Type 0 where
  pub filled : (i : ℕ) → i < n → at i ≢ none
  pub bounds : (i s z : ℕ) → at i ≡ some (s, z) → (i < n) × (0 < z) × (lo ≤ s) × (s + z ≤ hi)
  pub disjoint :
      (i j s z s' z' : ℕ)
      → at i ≡ some (s, z)
      → at j ≡ some (s', z')
      → i ≢ j
      → (s + z ≤ s') ⊎ (s' + z' ≤ s)

-- The id can still be drawn.
abbrev pub Available : Slots → ℕ → Type 0
Available at id = (i : ℕ) × (s : ℕ) × (z : ℕ) × (at i ≡ some (s, z)) × (s ≤ id) × (id < s + z)

module _ (lo hi n i start size off : ℕ) (at : Slots) (r : Ranges lo hi n at)
    (here : at i ≡ some (start, size)) (inside : off < size) where
  drawn-filled : (j : ℕ) → j < drawn_len n size off → drawn_slot n i start size off at j ≢ none
  drawn-filled j h = ground (arith, r.filled j, r.filled (n - 1), r.bounds i start size here)

  drawn-bounds :
      (j s z : ℕ)
      → drawn_slot n i start size off at j ≡ some (s, z)
      → (j < drawn_len n size off) × (0 < z) × (lo ≤ s) × (s + z ≤ hi)
  drawn-bounds j s z h =
      ground (arith, r.bounds j s z, r.bounds (n - 1) s z, r.bounds i start size here)

  drawn-disjoint :
      (j k s z s' z' : ℕ)
      → drawn_slot n i start size off at j ≡ some (s, z)
      → drawn_slot n i start size off at k ≡ some (s', z')
      → j ≢ k
      → (s + z ≤ s') ⊎ (s' + z' ≤ s)
  drawn-disjoint j k s z s' z' h h' ne = ground (
    arith,
    r.bounds i start size here,
    r.bounds j s z,
    r.bounds k s' z',
    r.disjoint j k s z s' z',
    r.disjoint i k start size s' z' here,
    r.disjoint j i s z start size,
    r.disjoint (n - 1) k s z s' z',
    r.disjoint j (n - 1) s z s' z',
  )

  -- A draw keeps the ranges well formed.
  pub drawn-Ranges : Ranges lo hi (drawn_len n size off) (drawn_slot n i start size off at)
  drawn-Ranges = record { filled = drawn-filled; bounds = drawn-bounds; disjoint = drawn-disjoint }

  -- Where a range after the draw comes from: it was there before, or it is a part of the range
  -- that was drawn from, on one side of the id.
  drawn_origin :
      (j s z : ℕ)
      → drawn_slot n i start size off at j ≡ some (s, z)
      → ((at j ≡ some (s, z)) × (j ≢ i))
        ⊎ (((at (n - 1) ≡ some (s, z)) × (n - 1 ≢ i))
            ⊎ ((start ≤ s) × (s + z ≤ start + size) × ((start + off < s) ⊎ (s + z ≤ start + off))))
  drawn_origin j s z h = ground (arith, r.bounds i start size here)

  drawn_other : (k s z id : ℕ) → at k ≡ some (s, z) → k ≢ i → s ≤ id → id < s + z → id ≢ start + off
  drawn_other k s z id e ne lo' hi' = ground (arith, r.disjoint k i s z start size e here ne)

  drawn-Available_only :
      (id : ℕ)
      → Available (drawn_slot n i start size off at) id
      → Available at id × (id ≢ start + off)
  drawn-Available_only id (j, s, z, e, l, h) = elim (drawn_origin j s z e) [
    | inl (same, ne) ↦ ((j, s, z, same, l, h), drawn_other j s z id same ne l h)
    | inr (inl (last, ne)) ↦ ((n - 1, s, z, last, l, h), drawn_other (n - 1) s z id last ne l h)
    | inr (inr (a, b, c)) ↦ ((i, start, size, here, omega arith, omega arith), ground arith)
  ]

  drawn-Available_beside :
      (id : ℕ)
      → start ≤ id
      → id < start + size
      → id ≢ start + off
      → Available (drawn_slot n i start size off at) id
  drawn-Available_beside id l h ne = elim (Bool-cases (off == 0)) [
    | inl first ↦ (i, start + 1, size - 1, ground arith, ground arith, ground arith)
    | inr later ↦ elim (Bool-cases (off == size - 1)) [
      | inl last ↦ (i, start, size - 1, ground arith, l, ground arith)
      | inr mid ↦ elim (Bool-cases (ltb id (start + off))) [
        | inl left ↦ (i, start, off, ground arith, l, ground arith)
        | inr right ↦ (
          n,
          start + off + 1,
          size - off - 1,
          ground (arith, r.bounds i start size here),
          ground arith,
          ground arith,
        )
      ]
    ]
  ]

  drawn-Available_others :
      (id : ℕ)
      → Available at id
      → id ≢ start + off
      → Available (drawn_slot n i start size off at) id
  drawn-Available_others id (k, s, z, e, l, h) ne = elim (Bool-cases (k == i)) [
    | inl same ↦ drawn-Available_beside id (ground arith) (ground arith) ne
    | inr other ↦ elim (Bool-cases ((off == 0) && ((size == 1) && (k == n - 1)))) [
      | inl moved ↦ (i, s, z, ground (arith, r.bounds k s z e), l, h)
      | inr stays ↦ (k, s, z, ground (arith, r.bounds k s z e), l, h)
    ]
  ]

  -- After the draw the same ids are available, but for the one that was drawn.
  pub drawn-Available :
      (id : ℕ)
      → Available (drawn_slot n i start size off at) id ↔ (Available at id × (id ≢ start + off))
  drawn-Available id = (drawn-Available_only id, λ h. drawn-Available_others id h.0 h.1)
