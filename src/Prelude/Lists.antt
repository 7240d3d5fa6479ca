-- ===== src/Prelude/Lists.antt =====
-- Lists of numbers: their equality and their lexicographic order, with the laws of a total order.
use Prim.Native.Nat.{ℕ, suc, ◌+◌}
use mathlib.Core.Path.{◌≡◌, refl, ap}
use mathlib.Core.Bool.{Bool, true, false, ◌&&◌, ◌||◌}
use mathlib.Core.List.{List, [], ◌∷◌, ◌++◌}
use native.Mathlib.Omega.{arith}
use krc721_protocol.Prelude.Tests.{◌==◌, ltb, if◌then◌else◌, Bool-cases}
use mathlib.Core.Logic.{inl, inr}

abbrev pub length {ℓ} : {A : Type ℓ} → List A → ℕ
length [] = 0
length (x ∷ xs) = suc (length xs)

pub length-append {ℓ} : {A : Type ℓ} (xs ys : List A) → length (xs ++ ys) ≡ length xs + length ys
length-append [] ys = omega arith
length-append (x ∷ xs) ys = omega (arith, length-append xs ys)

abbrev pub filter_by {ℓ} : {A : Type ℓ} → (A → Bool) → List A → List A
filter_by p [] = []
filter_by p (x ∷ xs) = if p x then x ∷ filter_by p xs else filter_by p xs

unfoldable pub words_eq : List ℕ → List ℕ → Bool
words_eq [] [] = true
words_eq [] (b ∷ bs) = false
words_eq (a ∷ as') [] = false
words_eq (a ∷ as') (b ∷ bs) = (a == b) && words_eq as' bs

unfoldable pub words_lt : List ℕ → List ℕ → Bool
words_lt [] [] = false
words_lt [] (b ∷ bs) = true
words_lt (a ∷ as') [] = false
words_lt (a ∷ as') (b ∷ bs) = ltb a b || ((a == b) && words_lt as' bs)

pub words_eq_sound : (xs ys : List ℕ) → words_eq xs ys ≡ true → xs ≡ ys
unfolding words_eq
words_eq_sound [] [] h = refl
words_eq_sound [] (b ∷ bs) h = ground arith
words_eq_sound (a ∷ as') [] h = ground arith
words_eq_sound (a ∷ as') (b ∷ bs) h = ground (arith, words_eq_sound as' bs)

pub words_eq_refl : (xs : List ℕ) → words_eq xs xs ≡ true
unfolding words_eq
words_eq_refl [] = refl
words_eq_refl (a ∷ as') = ground (arith, words_eq_refl as')

pub words_lt_irrefl : (xs : List ℕ) → words_lt xs xs ≡ false
unfolding words_lt
words_lt_irrefl [] = refl
words_lt_irrefl (a ∷ as') = ground (arith, words_lt_irrefl as')

pub words_lt_trans :
    (xs ys zs : List ℕ) → words_lt xs ys ≡ true → words_lt ys zs ≡ true → words_lt xs zs ≡ true
unfolding words_lt
words_lt_trans [] [] zs h k = ground arith
words_lt_trans [] (b ∷ bs) [] h k = ground arith
words_lt_trans [] (b ∷ bs) (c ∷ cs) h k = refl
words_lt_trans (a ∷ as') [] zs h k = ground arith
words_lt_trans (a ∷ as') (b ∷ bs) [] h k = ground arith
words_lt_trans (a ∷ as') (b ∷ bs) (c ∷ cs) h k = ground (arith, words_lt_trans as' bs cs)

pub words_lt_total :
    (xs ys : List ℕ) → words_eq xs ys ≡ false → words_lt xs ys ≡ false → words_lt ys xs ≡ true
unfolding words_eq words_lt
words_lt_total [] [] h k = ground arith
words_lt_total [] (b ∷ bs) h k = ground arith
words_lt_total (a ∷ as') [] h k = refl
words_lt_total (a ∷ as') (b ∷ bs) h k = ground (arith, words_lt_total as' bs)

pub words_le_lt_trans :
    (xs ys zs : List ℕ) → words_lt ys xs ≡ false → words_lt ys zs ≡ true → words_lt xs zs ≡ true
words_le_lt_trans xs ys zs h k = elim (Bool-cases (words_eq ys xs)) [
  | inl e ↦
      ground (arith, k, words_eq_sound ys xs e, ap (λ l. words_lt l zs) (words_eq_sound ys xs e))
  | inr e ↦ words_lt_trans xs ys zs (words_lt_total ys xs e h) k
]

pub words_lt_asym : (xs ys : List ℕ) → words_lt xs ys ≡ true → words_lt ys xs ≡ false
words_lt_asym xs ys h = elim (Bool-cases (words_lt ys xs)) [
  | inl e ↦ absurd (ground (arith, words_lt_trans xs ys xs h e, words_lt_irrefl xs))
  | inr e ↦ e
]

-- Two texts that end in suffixes of one length are equal part by part.
pub append-eq {ℓ} :
    {A : Type ℓ} (xs ys us vs : List A)
    → length us ≡ length vs
    → xs ++ us ≡ ys ++ vs
    → (xs ≡ ys) × (us ≡ vs)
append-eq [] [] us vs h e = (refl, e)
append-eq [] (y ∷ ys) us vs h e = absurd (omega (arith, ap (λ l. length l) e, length-append ys vs))
append-eq (x ∷ xs) [] us vs h e = absurd (omega (arith, ap (λ l. length l) e, length-append xs us))
append-eq (x ∷ xs) (y ∷ ys) us vs h e = ground (arith, append-eq xs ys us vs)
