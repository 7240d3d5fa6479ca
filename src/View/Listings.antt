-- ===== src/View/Listings.antt =====
-- The listings that `krc721_active_listings` of nexus/src/nft_view.rs shows, against the tables of
-- listings that nexus/src/processor.rs keeps.
use mathlib.Core.Path.{subst}
use mathlib.Core.List.{reverse_aux}
use krc721_protocol.Partition.Order.{All, All-map}
use krc721_protocol.View.Ranges.{All-range_from, All-range_to}
use krc721_protocol.Prelude.{
  ℕ, ◌≡◌, refl, sym, ◌∙◌, true, none, some, List, [], ◌∷◌, ◌++◌, map, arith, is_some, Option-cases,
  inl, inr,
}
use krc721_protocol.Partition.{Partition, Key, get}
use krc721_protocol.Partition.Laws.{key_eq_refl}
use krc721_protocol.Model.{Tick}
use krc721_protocol.Keys.{
  number_key, listing_by_tick_key_instance, ownership_key_instance, ListingByTickKey, ListingValue,
}
use krc721_protocol.Db.{Db}
use krc721_protocol.Processor.Market.Index.{Indexed, listing}
use krc721_protocol.View.{
  Answer, done, Pagination, RequestArgs, ListingEntry, listing_entry, krc721_active_listings,
  resolve_u64_iter_args, Direction, forward, backward, process_iter, paginate, to_paginated,
  listings_in,
}
use krc721_protocol.View.Requests.{active_listings}
use krc721_protocol.View.Follow.{cut, page-short, page-long}

-- The token of the key is listed.
abbrev IsListed : Db → ListingByTickKey → Type 0
IsListed db k = is_some (listing k.tick k.token_id db) ≡ true

module _ {ℓ κ ρ} {K : Type ℓ} {V : Type κ} (P : K → Type ρ) where
  All-reverse_aux : (m r : Partition K V) → All P m → All P r → All P (reverse_aux m r)
  All-reverse_aux [] r h g = g
  All-reverse_aux ((k, v) ∷ m) r (p, h) g = All-reverse_aux m ((k, v) ∷ r) h (p, g)

-- The keys of a partition are those that it has values for.
stored : {K V : Type 0} ⦃key : Key K⦄ (m : Partition K V) → All (λ k. is_some (get k m) ≡ true) m
unfolding get
stored [] = tt
stored ((j, w) ∷ m) = (
  ground (arith, key_eq_refl j),
  All-map (λ k. is_some (get k m) ≡ true) (λ k. is_some (get k ((j, w) ∷ m)) ≡ true) m
      (λ k h. ground (arith, h)) (stored m),
)

module _ (db : Db) (ix : Indexed db) where
  All-IsListed : All (IsListed db) db.listings_by_tick
  All-IsListed =
      All-map (λ k. is_some (get k db.listings_by_tick) ≡ true) (IsListed db) db.listings_by_tick
        (λ k h. sym (ix.by_tick k.tick k.token_id) ∙ h) (stored db.listings_by_tick)

  listings_in-IsListed :
      (d : Direction) (t : Tick) (o : ℕ) → All (IsListed db) (listings_in d t o db)
  listings_in-IsListed forward t o =
      All-range_to (IsListed db) _ _ (All-range_from (IsListed db) _ _ All-IsListed)
  listings_in-IsListed backward t o =
      All-reverse_aux (IsListed db) _ []
        (All-range_to (IsListed db) _ _ (All-range_from (IsListed db) _ _ All-IsListed)) tt

-- The entry of a page is the listing of its token.
abbrev pub Shown : Db → ListingEntry → Type 0
Shown db e =
    (l : ListingValue) × (listing e.tick e.token_id db ≡ some l)
    × (e.seller ≡ l.seller)
    × (e.listing_tx_id ≡ l.listing_tx_id)
    × (e.redeem_script ≡ l.redeem_script)
    × (e.op_score ≡ l.op_score)

abbrev pub AllShown : Db → List ListingEntry → Type 0
AllShown db [] = Unit
AllShown db (e ∷ es) = Shown db e × AllShown db es

abbrev show : Db → ListingByTickKey × (Unit {0}) → Answer ListingEntry
show db e = listing_entry db e.0.tick e.0.token_id

shows-AllShown :
    (db : Db) (m : Partition ListingByTickKey (Unit {0}))
    → All (IsListed db) m
    → (ts : List ListingEntry) × (map (show db) m ≡ map done ts) × AllShown db ts
unfolding listing_entry
shows-AllShown db [] h = ([], refl, tt)
shows-AllShown db ((k, u) ∷ m) (here, h) = elim (Option-cases (listing k.tick k.token_id db)) [
  | inl e ↦ absurd (ground (arith, here, e))
  | inr (l, e) ↦
      let (ts, same, shown) = shows-AllShown db m h in
      let entry : ListingEntry = record {
        tick = k.tick;
        token_id = k.token_id;
        seller = l.seller;
        listing_tx_id = l.listing_tx_id;
        redeem_script = l.redeem_script;
        op_score = l.op_score;
      } in
      let first : show db (k, u) ≡ done entry = rw (listing_entry, e) refl in
      (entry ∷ ts, rw (first, same) refl, ((l, e, refl, refl, refl, refl), shown))
]

AllShown-front : (db : Db) (xs ys : List ListingEntry) → AllShown db (xs ++ ys) → AllShown db xs
AllShown-front db [] ys h = tt
AllShown-front db (x ∷ xs) ys (s, h) = (s, AllShown-front db xs ys h)

-- A page of listings that are all there.
unfoldable pub Page : Db → Answer (Pagination ListingEntry ℕ) → Type 0
Page db answer =
    (page : Pagination ListingEntry ℕ) × (answer ≡ done page) × AllShown db page.page_data

pages-Page :
    (db : Db) (m : Partition ListingByTickKey (Unit {0})) (limit : ℕ)
    → All (IsListed db) m
    → Page db (paginate limit (λ last. last.op_score) (process_iter m limit (show db)))
unfolding Page
pages-Page db m limit h =
    let (ts, same, shown) = shows-AllShown db m h in
    elim (cut limit ts) [
      | inl short ↦ (_, page-short (show db) (λ last. last.op_score) m ts same limit short, shown)
      | inr (xs, t, ys, e, full) ↦ (
        _,
        page-long (show db) (λ last. last.op_score) m ts same limit xs t ys e full,
        AllShown-front db xs (t ∷ ys) (subst (AllShown db) e shown),
      )
    ]

-- Where the tables of listings agree, the page of the active listings of any collection comes
-- without an error, for all arguments, and each of its entries is the listing of its token.
pub active_listings-Page :
    (tick : Tick) (r : RequestArgs ℕ) (db : Db) → Indexed db → Page db (active_listings tick r db)
unfolding active_listings krc721_active_listings Page to_paginated
active_listings-Page tick r db ix = elim (Option-cases (get tick db.collection_registry)) [
  | inl e ↦ (
    record { page_data = []; next_page_offset = none },
    rw (active_listings, krc721_active_listings, e) refl,
    tt,
  )
  | inr (d, e) ↦
      let args = resolve_u64_iter_args r in
      let (page, same, shown) =
        pages-Page db (listings_in args.direction tick args.offset db) args.limit
          (listings_in-IsListed db ix args.direction tick args.offset) in
      (page, rw (active_listings, krc721_active_listings, e) same, shown)
]
