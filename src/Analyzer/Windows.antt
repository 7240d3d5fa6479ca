-- ===== src/Analyzer/Windows.antt =====
-- `window_find` of nexus/src/analyzer.rs: the first place of a needle in a haystack, from an offset
-- of ten bytes on.
use mathlib.Core.Option
use krc721_protocol.Prelude.{
  ℕ, zero, suc, ◌+◌, ◌-◌, ◌≤◌, ◌<◌, ◌≡◌, refl, sym, ap, ◌∙◌, Bool, true, Option, none, some, List,
  [], ◌∷◌, ◌++◌, leb, if◌then◌else◌, length, words_eq, words_eq_sound, words_eq_refl, arith,
  Bool-cases, inl, inr, if_of_false,
}

abbrev pub take {ℓ} : {A : Type ℓ} → ℕ → List A → List A
take zero xs = []
take (suc n) [] = []
take (suc n) (x ∷ xs) = x ∷ take n xs

abbrev pub drop {ℓ} : {A : Type ℓ} → ℕ → List A → List A
drop zero xs = xs
drop (suc n) [] = []
drop (suc n) (x ∷ xs) = drop n xs

-- The windows of a slice are the starts of its ends, where they are long enough.
unfoldable pub scan : List ℕ → ℕ → List ℕ → Option ℕ
scan needle position [] = none
scan needle position (b ∷ bs) =
    if words_eq (take (length needle) (b ∷ bs)) needle
    then some position
    else scan needle (position + 1) bs

unfoldable pub window_find : List ℕ → List ℕ → Option ℕ
window_find haystack needle =
    if leb (length haystack) 10
    then none
    else Option.map (λ position. position + 10) (scan needle 0 (drop 10 haystack))

-- The needle stands at a place of the haystack.
pub OccursAt : List ℕ → ℕ → List ℕ → Type 0
OccursAt needle p haystack = (rest : List ℕ) × (drop p haystack ≡ needle ++ rest)

take_append : (n rest : List ℕ) → take (length n) (n ++ rest) ≡ n
take_append [] rest = refl
take_append (c ∷ n) rest = ap (λ t. c ∷ t) (take_append n rest)

take-drop : (k : ℕ) (xs : List ℕ) → xs ≡ take k xs ++ drop k xs
take-drop zero xs = refl
take-drop (suc k) [] = refl
take-drop (suc k) (x ∷ xs) = ap (λ t. x ∷ t) (take-drop k xs)

abbrev starts : List ℕ → List ℕ → Bool
starts xs needle = words_eq (take (length needle) xs) needle

starts-OccursAt : (xs needle : List ℕ) → starts xs needle ≡ true → OccursAt needle 0 xs
unfolding OccursAt
starts-OccursAt xs needle h = (
  drop (length needle) xs,
  take-drop (length needle) xs
      ∙ ap (λ t. t ++ drop (length needle) xs) (words_eq_sound (take (length needle) xs) needle h),
)

OccursAt-starts : (xs needle : List ℕ) → OccursAt needle 0 xs → starts xs needle ≡ true
unfolding OccursAt
OccursAt-starts xs needle (rest, e) =
    let t = ap (λ ys. take (length needle) ys) e ∙ take_append needle rest in
    ap (λ ys. words_eq ys needle) t ∙ words_eq_refl needle

-- The first place of the needle, or none.
pub data FirstPlace (needle haystack : List ℕ) : Option ℕ → Type 0 where
  found :
      (p : ℕ)
      → OccursAt needle p haystack
      → ((q : ℕ) → q < p → ¬ OccursAt needle q haystack)
      → FirstPlace needle haystack (some p)
  absent : ((q : ℕ) → ¬ OccursAt needle q haystack) → FirstPlace needle haystack none

shift :
    (k : ℕ) (r : Option ℕ)
    → Option.map (λ p. p + (k + 1)) r ≡ Option.map (λ p. p + k) (Option.map (λ p. suc p) r)
shift k none = refl
shift k (some p) = ap (λ q. some q) (omega arith)

module _ (c : ℕ) (cs : List ℕ) where
  abbrev needle : List ℕ
  needle = c ∷ cs

  never_in_nothing : (q : ℕ) → ¬ OccursAt needle q []
  unfolding OccursAt
  never_in_nothing zero (rest, e) = ground (arith, e)
  never_in_nothing (suc q) (rest, e) = ground (arith, e)

  unless_before :
      (x : ℕ) (xs : List ℕ) (p : ℕ)
      → ¬ OccursAt needle 0 (x ∷ xs)
      → ((q : ℕ) → q < p → ¬ OccursAt needle q xs)
      → (q : ℕ) → q < suc p
      → ¬ OccursAt needle q (x ∷ xs)
  unfolding OccursAt
  unless_before x xs p h before zero l = h
  unless_before x xs p h before (suc q) l = before q (omega arith)

  never :
      (x : ℕ) (xs : List ℕ)
      → ¬ OccursAt needle 0 (x ∷ xs)
      → ((q : ℕ) → ¬ OccursAt needle q xs)
      → (q : ℕ) → ¬ OccursAt needle q (x ∷ xs)
  unfolding OccursAt
  never x xs h none_at zero = h
  never x xs h none_at (suc q) = none_at q

  later :
      (x : ℕ) (xs : List ℕ) (r : Option ℕ)
      → ¬ OccursAt needle 0 (x ∷ xs)
      → FirstPlace needle xs r
      → FirstPlace needle (x ∷ xs) (Option.map (λ p. suc p) r)
  unfolding OccursAt
  later x xs _ h (found p o before) = found (suc p) o (unless_before x xs p h before)
  later x xs _ h (absent none_at) = absent (never x xs h none_at)

  scan-FirstPlace :
      (k : ℕ) (xs : List ℕ)
      → (r : Option ℕ) × FirstPlace needle xs r × (scan needle k xs ≡ Option.map (λ p. p + k) r)
  unfolding scan
  scan-FirstPlace k [] = (none, absent never_in_nothing, refl)
  scan-FirstPlace k (x ∷ xs) = elim (Bool-cases (starts (x ∷ xs) needle)) [
    | inl e ↦ (
      some 0,
      found 0 (starts-OccursAt (x ∷ xs) needle e) (λ q l. absurd (omega arith)),
      rw e (ap (λ p. some p) (omega arith)),
    )
    | inr e ↦
        let (r, f, s) = scan-FirstPlace (k + 1) xs in
        (
          Option.map (λ p. suc p) r,
          later x xs r (λ o. ground (arith, e, OccursAt-starts (x ∷ xs) needle o)) f,
          if_of_false (some k) (scan needle (k + 1) xs) e ∙ s ∙ shift k r,
        )
  ]

-- The needle stands at a place from the tenth byte on, and at none between.
pub data FirstFromTen (needle haystack : List ℕ) : Option ℕ → Type 0 where
  place :
      (p : ℕ)
      → 10 ≤ p
      → OccursAt needle p haystack
      → ((q : ℕ) → 10 ≤ q → q < p → ¬ OccursAt needle q haystack)
      → FirstFromTen needle haystack (some p)
  nowhere : ((q : ℕ) → 10 ≤ q → ¬ OccursAt needle q haystack) → FirstFromTen needle haystack none

drop_nil : (k : ℕ) → drop {A = ℕ} k [] ≡ []
drop_nil zero = refl
drop_nil (suc k) = refl

drop_add : (m k : ℕ) (xs : List ℕ) → drop m (drop k xs) ≡ drop (k + m) xs
drop_add m zero xs = ap (λ j. drop j xs) (omega arith)
drop_add m (suc k) [] = drop_nil m ∙ sym (drop_nil (suc k + m))
drop_add m (suc k) (x ∷ xs) =
    let e : suc (k + m) ≡ suc k + m = omega arith in drop_add m k xs ∙ ap (λ j. drop j (x ∷ xs)) e

drop_short : (q : ℕ) (xs : List ℕ) → length xs ≤ q → drop q xs ≡ []
drop_short zero [] h = refl
drop_short zero (x ∷ xs) h = absurd (omega (arith, h))
drop_short (suc q) [] h = refl
drop_short (suc q) (x ∷ xs) h = drop_short q xs (omega arith)

module _ (haystack : List ℕ) (c : ℕ) (cs : List ℕ) where
  shifted : (p q : ℕ) → q ≡ 10 + p → drop p (drop 10 haystack) ≡ drop q haystack
  shifted p q e = drop_add p 10 haystack ∙ ap (λ j. drop j haystack) (sym e)

  OccursAt-drop :
      (p q : ℕ) → q ≡ 10 + p → OccursAt (c ∷ cs) p (drop 10 haystack) → OccursAt (c ∷ cs) q haystack
  unfolding OccursAt
  OccursAt-drop p q e (rest, o) = (rest, sym (shifted p q e) ∙ o)

  drop-OccursAt :
      (p q : ℕ) → q ≡ 10 + p → OccursAt (c ∷ cs) q haystack → OccursAt (c ∷ cs) p (drop 10 haystack)
  unfolding OccursAt
  drop-OccursAt p q e (rest, o) = (rest, shifted p q e ∙ o)

  from_ten :
      (r : Option ℕ)
      → FirstPlace (c ∷ cs) (drop 10 haystack) r
      → FirstFromTen (c ∷ cs) haystack (Option.map (λ p. p + 10) (Option.map (λ p. p + 0) r))
  from_ten _ (found p o before) =
      place (p + 0 + 10) (omega arith) (OccursAt-drop p (p + 0 + 10) (omega arith) o)
        (λ q l k x. before (q - 10) (omega arith) (drop-OccursAt (q - 10) q (omega arith) x))
  from_ten _ (absent none_at) =
      nowhere (λ q l x. none_at (q - 10) (drop-OccursAt (q - 10) q (omega arith) x))

  nothing_past_the_end : length haystack ≤ 10 → (q : ℕ) → 10 ≤ q → ¬ OccursAt (c ∷ cs) q haystack
  unfolding OccursAt
  nothing_past_the_end h q l (rest, o) = ground (arith, drop_short q haystack (omega arith), o)

  -- For a needle that is not empty the search finds the first place from the tenth byte on where
  -- the needle stands in the haystack, and finds none exactly if there is no such place.
  pub window_find-FirstFromTen : FirstFromTen (c ∷ cs) haystack (window_find haystack (c ∷ cs))
  unfolding window_find
  window_find-FirstFromTen = elim (Bool-cases (leb (length haystack) 10)) [
    | inl e ↦ rw e (nowhere (nothing_past_the_end (ground (arith, e))))
    | inr e ↦ let (r, f, s) = scan-FirstPlace c cs 0 (drop 10 haystack) in rw (e, s) (from_ten r f)
  ]
