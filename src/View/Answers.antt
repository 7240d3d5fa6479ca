-- ===== src/View/Answers.antt =====
-- What a view of nexus/src/nft_view.rs returns: a value, an error, or a panic.
-- Errors of the storage engine do not occur here.
use krc721_protocol.Prelude.{Option, none, some}

pub data ViewError : Type 0 where
  -- `Error::custom("listing index inconsistency")`
  listing_index_inconsistency : ViewError
  -- `expect` and `unwrap`
  view_panic : ViewError

pub data Answer {ℓ} (A : Type ℓ) : Type ℓ where
  done : A → Answer A
  failed : ViewError → Answer A

infixl 5 ◌>>=◌
abbrev pub ◌>>=◌ {ℓ κ} : {A : Type ℓ} {B : Type κ} → Answer A → (A → Answer B) → Answer B
done a >>= f = f a
failed e >>= f = failed e

-- `ok_or`, `expect` and `unwrap`
abbrev pub or_fail {ℓ} : {A : Type ℓ} → ViewError → Option A → Answer A
or_fail e none = failed e
or_fail e (some a) = done a
