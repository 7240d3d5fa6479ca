-- ===== src/View/Pages.antt =====
-- Pages: `process_iter` of nexus/src/nft_view.rs, the collector of nexus/src/utils.rs below it, and
-- `to_paginated` and `resolve_u64_iter_args` of nexus/src/accessor.rs above it.
use krc721_protocol.Prelude.{
  ℕ, zero, suc, ◌+◌, Option, none, some, List, [], ◌∷◌, ◌++◌, map, length, ltb, if◌then◌else◌,
  get_or, u64_max, words_lt,
}
use krc721_protocol.Partition.{Partition, Key}
use krc721_protocol.View.Answers.{Answer, done, failed, ◌>>=◌}

pub data Direction : Type 0 where
  forward : Direction
  backward : Direction

-- `IteratorArgs` of the views
pub record IteratorArgs {ℓ} (O : Type ℓ) : Type ℓ where
  pub offset : O
  pub direction : Direction
  pub limit : ℕ

-- `IteratorArgs` of a request
pub record RequestArgs {ℓ} (O : Type ℓ) : Type ℓ where
  pub offset : Option O
  pub direction : Option Direction
  pub limit : Option ℕ

pub record Pagination {ℓ κ} (V : Type ℓ) (O : Type κ) : Type (ℓ ⊔ κ) where
  pub page_data : List V
  pub next_page_offset : Option O

abbrev pub max_iterator_limit : ℕ
max_iterator_limit = 50

abbrev pub take {ℓ} : {A : Type ℓ} → ℕ → List A → List A
take zero xs = []
take (suc n) [] = []
take (suc n) (x ∷ xs) = x ∷ take n xs

-- The loop of `ResultSplitLastCollector::from_iter`, with its two variables.
unfoldable pub collect_loop {ℓ} :
    {A : Type ℓ} → List (Answer A) → List A → Option A → Answer (Option (List A × A))
collect_loop [] init none = done none
collect_loop [] init (some last) = done (some (init, last))
collect_loop (failed e ∷ rs) init last = failed e
collect_loop (done v ∷ rs) init none = collect_loop rs init (some v)
collect_loop (done v ∷ rs) init (some prev) = collect_loop rs (init ++ (prev ∷ [])) (some v)

-- `collect_split_last_result`
abbrev pub collect_split_last_result {ℓ} :
    {A : Type ℓ} → List (Answer A) → Answer (Option (List A × A))
collect_split_last_result rs = collect_loop rs [] none

-- `DbView::process_iter`
unfoldable pub process_iter {ℓ κ} :
    {E : Type ℓ} {A : Type κ} → List E → ℕ → (E → Answer A) → Answer (Option (List A × A))
process_iter entries limit f = collect_split_last_result (take (limit + 1) (map f entries))

-- `to_paginated`
unfoldable pub to_paginated {ℓ κ} :
    {V : Type ℓ} {O : Type κ} → Option (List V × V) → ℕ → (V → O) → Pagination V O
to_paginated none limit convert = record { page_data = []; next_page_offset = none }
to_paginated (some (container, last)) limit convert =
    if ltb (length container) limit
    then record { page_data = container ++ (last ∷ []); next_page_offset = none }
    else record { page_data = container; next_page_offset = some (convert last) }

-- `resolve_u64_iter_args`
unfoldable pub resolve_u64_iter_args : RequestArgs ℕ → IteratorArgs ℕ
resolve_u64_iter_args r =
    let direction = get_or r.direction forward in
    let limit = get_or r.limit max_iterator_limit in
    record {
      offset = get_or r.offset (elim direction [ forward ↦ 0 | backward ↦ u64_max ]);
      direction = direction;
      limit = if ltb max_iterator_limit limit then max_iterator_limit else limit;
    }

-- What the accessor does with the answer of a view.
abbrev pub paginate {ℓ κ} :
    {V : Type ℓ} {O : Type κ} → ℕ → (V → O) → Answer (Option (List V × V)) → Answer (Pagination V O)
paginate limit convert answer =
    answer >>= (λ split_last. done (to_paginated split_last limit convert))

module _ {ℓ κ} {K : Type ℓ} {V : Type κ} ⦃key : Key K⦄ where
  -- `..=end`
  unfoldable pub range_to : List ℕ → Partition K V → Partition K V
  range_to end [] = []
  range_to end ((j, w) ∷ m) =
      let rest = range_to end m in if words_lt end (key.owned_key j) then rest else (j, w) ∷ rest

  -- `..end`
  unfoldable pub range_before : List ℕ → Partition K V → Partition K V
  range_before end [] = []
  range_before end ((j, w) ∷ m) =
      let rest = range_before end m in
      if words_lt (key.owned_key j) end then (j, w) ∷ rest else rest
