-- ===== src/TokenId/Mass.antt =====
-- The number of ids that the slots of one tick hold (nexus/src/processor/token_id.rs), and the
-- number of slots against it.
use krc721_protocol.Prelude.{
  ℕ, zero, suc, ◌+◌, ◌-◌, ◌≤◌, ◌<◌, ◌≡◌, refl, ◌≢◌, Option, Option-cases, none, some, ◌==◌,
  if◌then◌else◌, arith, Bool-cases, inl, inr, ap, ◌∙◌,
}
use krc721_protocol.TokenId.Slots.{drawn_len, drawn_slot}
use krc721_protocol.TokenId.Ranges.{Slots, Ranges}

abbrev pub size_of : Option (ℕ × ℕ) → ℕ
size_of none = 0
size_of (some (start, size)) = size

unfoldable pub mass : ℕ → Slots → ℕ
mass zero at = 0
mass (suc n) at = size_of (at n) + mass n at

abbrev pub put_slot : ℕ → Option (ℕ × ℕ) → Slots → Slots
put_slot i r at j = if j == i then r else at j

pub mass-same : (n : ℕ) (at at' : Slots) → ((j : ℕ) → j < n → at j ≡ at' j) → mass n at ≡ mass n at'
unfolding mass
mass-same zero at at' h = refl
mass-same (suc n) at at' h =
    ground (arith, h n (omega arith), mass-same n at at' (λ j k. h j (omega arith)))

mass-at :
    (m n : ℕ) (at at' : Slots) → m ≡ n → ((j : ℕ) → j < n → at j ≡ at' j) → mass m at ≡ mass n at'
mass-at m n at at' e h = ap (λ k. mass k at) e ∙ mass-same n at at' h

mass-put_above :
    (n i : ℕ) (r : Option (ℕ × ℕ)) (at : Slots) → n ≤ i → mass n (put_slot i r at) ≡ mass n at
mass-put_above n i r at h = mass-same n (put_slot i r at) at (λ j k. ground arith)

mass-put :
    (n i : ℕ) (r : Option (ℕ × ℕ)) (at : Slots)
    → i < n
    → mass n (put_slot i r at) + size_of (at i) ≡ mass n at + size_of r
unfolding mass
mass-put zero i r at h = absurd (omega arith)
mass-put (suc n) i r at h = elim (Bool-cases (n == i)) [
  | inl same ↦ ground (arith, mass-put_above n i r at)
  | inr other ↦ ground (arith, mass-put n i r at (ground arith))
]

-- No range is empty, so there are at most as many as ids.
le_mass : (n : ℕ) (at : Slots) → ((j : ℕ) → j < n → 0 < size_of (at j)) → n ≤ mass n at
unfolding mass
le_mass zero at h = omega arith
le_mass (suc n) at h = omega (arith, h n (omega arith), le_mass n at (λ j k. h j (omega arith)))

mass-pred : (n : ℕ) (at : Slots) → 0 < n → mass n at ≡ size_of (at (n - 1)) + mass (n - 1) at
unfolding mass
mass-pred zero at h = absurd (omega arith)
mass-pred (suc n) at h = ground arith

pub mass-suc : (n : ℕ) (at : Slots) → mass (n + 1) at ≡ size_of (at n) + mass n at
unfolding mass
mass-suc n at = ground arith

module _ (lo hi n : ℕ) (at : Slots) (r : Ranges lo hi n at) where
  size_pos : (j : ℕ) → j < n → 0 < size_of (at j)
  size_pos j h = elim (Option-cases (at j)) [
    | inl e ↦ absurd (r.filled j h e)
    | inr (p, e) ↦ ground (arith, r.bounds j p.0 p.1 e)
  ]

  pub len-le-mass : n ≤ mass n at
  len-le-mass = le_mass n at size_pos

  module _ (i start size off : ℕ) (here : at i ≡ some (start, size)) (inside : off < size) where
    mass-removed :
        off ≡ 0 → size ≡ 1 → mass (n - 1) (drawn_slot n i start size off at) + 1 ≡ mass n at
    mass-removed first one = elim (Bool-cases (i == n - 1)) [
      | inl last ↦ ground (
        arith,
        same,
        mass-put_above (n - 1) i (at (n - 1)) at,
        mass-pred n at,
        r.bounds i start size here,
      )
      | inr inner ↦ ground (
        arith,
        same,
        mass-put (n - 1) i (at (n - 1)) at,
        mass-pred n at,
        r.bounds i start size here,
      )
    ]
      where
        same :
            mass (n - 1) (drawn_slot n i start size off at)
            ≡ mass (n - 1) (put_slot i (at (n - 1)) at)
        same = mass-same (n - 1) _ _ (λ j k. ground arith)

    mass-shrunk : (s : ℕ) → mass n (put_slot i (some (s, size - 1)) at) + 1 ≡ mass n at
    mass-shrunk s = ground (arith, mass-put n i (some (s, size - 1)) at, r.bounds i start size here)

    mass-split :
        off ≢ 0 → off ≢ size - 1 → mass (n + 1) (drawn_slot n i start size off at) + 1 ≡ mass n at
    mass-split later mid = ground (
      arith,
      mass-suc n (drawn_slot n i start size off at),
      left,
      mass-put n i (some (start, off)) at,
      r.bounds i start size here,
    )
      where
        left :
            mass n (drawn_slot n i start size off at) ≡ mass n (put_slot i (some (start, off)) at)
        left = mass-same n _ _ (λ j k. ground arith)

    -- A draw takes one id out of the slots.
    pub mass-drawn : mass (drawn_len n size off) (drawn_slot n i start size off at) + 1 ≡ mass n at
    mass-drawn = elim (Bool-cases (off == 0)) [
      | inl first ↦ elim (Bool-cases (size == 1)) [
        | inl one ↦
            ap (λ m. m + 1) (mass-at _ (n - 1) _ _ (ground arith) (λ j k. refl))
            ∙ mass-removed (ground arith) (ground arith)
        | inr more ↦
            ap (λ m. m + 1)
              (mass-at _ n _ (put_slot i (some (start + 1, size - 1)) at) (ground arith)
                (λ j k. ground arith))
            ∙ mass-shrunk (start + 1)
      ]
      | inr later ↦ elim (Bool-cases (off == size - 1)) [
        | inl end ↦
            ap (λ m. m + 1)
              (mass-at _ n _ (put_slot i (some (start, size - 1)) at) (ground arith)
                (λ j k. ground arith))
            ∙ mass-shrunk start
        | inr mid ↦
            ap (λ m. m + 1) (mass-at _ (n + 1) _ _ (ground arith) (λ j k. refl))
            ∙ mass-split (ground arith) (ground arith)
      ]
    ]

pub mass_one : (at : Slots) → mass 1 at ≡ size_of (at 0)
unfolding mass
mass_one at = ground arith
