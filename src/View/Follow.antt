-- ===== src/View/Follow.antt =====
-- A reader that asks nexus/src/accessor.rs for one page after the other, each from the offset that
-- the page before it gave.
use mathlib.Core.List.{append_assoc}
use mathlib.Core.Path.{subst}
use krc721_protocol.Prelude.{
  ℕ, zero, suc, ◌+◌, ◌≤◌, ◌<◌, ◌≡◌, refl, sym, ap, ◌∙◌, ◌⊎◌, inl, inr, Option, none, some, List, [],
  ◌∷◌, ◌++◌, map, length, length-append, arith,
}
use krc721_protocol.View.{
  Answer, done, ◌>>=◌, Pagination, take, collect_loop, collect_split_last_result, process_iter,
  to_paginated, paginate,
}

module _ {ℓ κ} {A : Type ℓ} {O : Type κ} (ask : Option O → Answer (Pagination A O)) where
  -- All that the pages give, from an offset on; no more than so many pages are asked for.
  unfoldable pub follow : ℕ → Option O → Answer (List A)
  follow zero o = done []
  follow (suc n) o = ask o >>= (λ page. elim page.next_page_offset [
    | none ↦ done page.page_data
    | some next ↦ follow n (some next) >>= (λ rest. done (page.page_data ++ rest))
  ])

module _ {ℓ} {A : Type ℓ} where
  -- A list has no more than so many elements, or so many and one more behind them.
  abbrev pub Cut : ℕ → List A → Type ℓ
  Cut n ts =
      (length ts ≤ n)
      ⊎ ((xs : List A) × (t : A) × (ys : List A) × (ts ≡ xs ++ (t ∷ ys)) × (length xs ≡ n))

  pub cut : (n : ℕ) (ts : List A) → Cut n ts
  cut n [] = inl (omega arith)
  cut zero (t ∷ ts) = inr ([], t, ts, refl, refl)
  cut (suc n) (t ∷ ts) = elim (cut n ts) [
    | inl h ↦ inl (omega arith)
    | inr (xs, u, ys, e, h) ↦ inr (t ∷ xs, u, ys, ap (λ l. t ∷ l) e, omega arith)
  ]

  ends : (t : A) (ts : List A) → (xs : List A) × (u : A) × (t ∷ ts ≡ xs ++ (u ∷ []))
  ends t [] = ([], t, refl)
  ends t (s ∷ ts) = let (xs, u, e) = ends s ts in (t ∷ xs, u, ap (λ l. t ∷ l) e)

  take-map_short {κ} :
      {B : Type κ} (f : A → B) (n : ℕ) (ts : List A) → length ts ≤ n → take n (map f ts) ≡ map f ts
  take-map_short f zero [] h = refl
  take-map_short f (suc n) [] h = refl
  take-map_short f zero (t ∷ ts) h = absurd (omega (arith, h))
  take-map_short f (suc n) (t ∷ ts) h = ap (λ l. f t ∷ l) (take-map_short f n ts (omega arith))

  take-map_long {κ} :
      {B : Type κ} (f : A → B) (n : ℕ) (xs : List A) (t : A) (ys : List A)
      → length xs ≡ n
      → take (suc n) (map f (xs ++ (t ∷ ys))) ≡ map f (xs ++ (t ∷ []))
  take-map_long f zero [] t ys h = refl
  take-map_long f (suc n) [] t ys h = absurd (omega arith)
  take-map_long f zero (x ∷ xs) t ys h = absurd (omega arith)
  take-map_long f (suc n) (x ∷ xs) t ys h =
      ap (λ l. f x ∷ l) (take-map_long f n xs t ys (omega arith))

  collect_loop-done :
      (xs : List A) (t : A) (init : List A) (prev : A)
      → collect_loop (map done (xs ++ (t ∷ []))) init (some prev)
        ≡ done (some (init ++ (prev ∷ xs), t))
  unfolding collect_loop
  collect_loop-done [] t init prev = refl
  collect_loop-done (x ∷ xs) t init prev =
      collect_loop-done xs t (init ++ (prev ∷ [])) x
      ∙ ap (λ l. done (some (l, t))) (append_assoc init (prev ∷ []) (x ∷ xs))

  -- The collector splits a list without errors before its last element.
  collect_split_last_result-done :
      (xs : List A) (t : A)
      → collect_split_last_result (map done (xs ++ (t ∷ []))) ≡ done (some (xs, t))
  unfolding collect_loop
  collect_split_last_result-done [] t = refl
  collect_split_last_result-done (x ∷ xs) t = collect_loop-done xs t [] x

module _ {ℓ κ} {A : Type ℓ} {O : Type κ} (offset_of : A → O) (limit : ℕ) where
  closed :
      (xs : List A) (t : A)
      → length xs < limit
      → to_paginated (some (xs, t)) limit offset_of
        ≡ record { page_data = xs ++ (t ∷ []); next_page_offset = none }
  unfolding to_paginated
  closed xs t h = ground arith

  open_ended :
      (xs : List A) (t : A)
      → length xs ≡ limit
      → to_paginated (some (xs, t)) limit offset_of
        ≡ record { page_data = xs; next_page_offset = some (offset_of t) }
  unfolding to_paginated
  open_ended xs t h = ground arith

  closed_page_ends :
      (xs : List A) (u : A)
      → length xs < limit
      → paginate limit offset_of (collect_split_last_result (map done (xs ++ (u ∷ []))))
        ≡ done (record { page_data = xs ++ (u ∷ []); next_page_offset = none })
  closed_page_ends xs u h = rw (collect_split_last_result-done xs u, closed xs u h) refl

  closed_page :
      (ts : List A)
      → length ts ≤ limit
      → paginate limit offset_of (collect_split_last_result (map done ts))
        ≡ done (record { page_data = ts; next_page_offset = none })
  unfolding to_paginated collect_loop
  closed_page [] h = refl
  closed_page (t ∷ ts) h =
      let (xs, u, e) = ends t ts in
      let less : length xs < limit =
        omega (arith, h, ap (λ l. length l) e, length-append xs (u ∷ [])) in
      subst
        (λ l.
          paginate limit offset_of (collect_split_last_result (map done l))
          ≡ done (record { page_data = l; next_page_offset = none }))
        (sym e) (closed_page_ends xs u less)

module _ {ℓ κ ρ} {E : Type ℓ} {A : Type κ} {O : Type ρ} (f : E → Answer A) (offset_of : A → O)
    (es : List E) (ts : List A) (good : map f es ≡ map done ts) (limit : ℕ) where
  process_iter-done :
      process_iter es limit f ≡ collect_split_last_result (take (suc limit) (map done ts))
  unfolding process_iter
  process_iter-done = let one_more : limit + 1 ≡ suc limit = omega arith in rw (one_more, good) refl

  -- A page that holds all that there is.
  pub page-short :
      length ts ≤ limit
      → paginate limit offset_of (process_iter es limit f)
        ≡ done (record { page_data = ts; next_page_offset = none })
  page-short h =
      rw (process_iter-done, take-map_short (λ (t : A). done t) (suc limit) ts (omega arith))
        (closed_page offset_of limit ts h)

  -- A page with more behind it: it is full, and goes on at the first element that it leaves out.
  pub page-long :
      (xs : List A) (t : A) (ys : List A)
      → ts ≡ xs ++ (t ∷ ys)
      → length xs ≡ limit
      → paginate limit offset_of (process_iter es limit f)
        ≡ done (record { page_data = xs; next_page_offset = some (offset_of t) })
  page-long xs t ys e h =
      rw
        (
          process_iter-done,
          e,
          take-map_long (λ (a : A). done a) limit xs t ys h,
          collect_split_last_result-done xs t,
          open_ended offset_of limit xs t h,
        )
        refl

-- The pages of a view whose entries make no errors: what it shows from each offset, and that it
-- shows the same from the offset of an element as it showed behind it.
pub record Paged {ℓ κ} {A : Type ℓ} {O : Type κ} (offset_of : A → O) (limit : ℕ)
    (ask : Option O → Answer (Pagination A O)) (shows : Option O → List A) : Type (ℓ ⊔ κ) where
  pub short :
      (o : Option O)
      → length (shows o) ≤ limit
      → ask o ≡ done (record { page_data = shows o; next_page_offset = none })
  pub long :
      (o : Option O) (xs : List A) (t : A) (ys : List A)
      → shows o ≡ xs ++ (t ∷ ys)
      → length xs ≡ limit
      → ask o ≡ done (record { page_data = xs; next_page_offset = some (offset_of t) })
  pub resumes :
      (o : Option O) (xs : List A) (t : A) (ys : List A)
      → shows o ≡ xs ++ (t ∷ ys)
      → shows (some (offset_of t)) ≡ t ∷ ys

module _ {ℓ κ} {A : Type ℓ} {O : Type κ} (offset_of : A → O) (limit : ℕ)
    (ask : Option O → Answer (Pagination A O)) (shows : Option O → List A)
    (paged : Paged offset_of limit ask shows) (some_room : 0 < limit) where
  -- The pages, one after the other, give all that the view shows, each element once and in order.
  pub follow-shows : (n : ℕ) (o : Option O) → length (shows o) < n → follow ask n o ≡ done (shows o)
  unfolding follow
  follow-shows zero o h = absurd (omega (arith, h))
  follow-shows (suc n) o h = elim (cut limit (shows o)) [
    | inl short ↦ rw (paged.short o short) refl
    | inr (xs, t, ys, e, full) ↦
        let behind : shows (some (offset_of t)) ≡ t ∷ ys = paged.resumes o xs t ys e in
        let fewer : length (shows (some (offset_of t))) < n =
          omega (
            arith,
            h,
            ap (λ l. length l) e,
            ap (λ l. length l) behind,
            length-append xs (t ∷ ys),
          ) in
        rw (paged.long o xs t ys e full, follow-shows n (some (offset_of t)) fewer, behind, e) refl
  ]
