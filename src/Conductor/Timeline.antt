-- ===== src/Conductor/Timeline.antt =====
-- The bounded timelines of webui/src/stores/conductorStore.ts: `mergeTimeline`, `appendActivity` and
-- the merge of `hydrateActivity`. A Map from the items' ids is the list of its values in their order.
pub mod Laws
use ga_hub.Prelude.{
  ℕ, String, Bool, List, [], ◌∷◌, ◌++◌, any, take_last, sort_by, if◌then◌else◌, ◌==◌,
}

module _ {ℓ} {A : Type ℓ} (id_of : A → String) where
  abbrev pub same_id : A → A → Bool
  same_id x y = id_of x == id_of y

  -- `byId.has`, and `some((existing) => existing.id === event.id)`.
  abbrev pub has_id : A → List A → Bool
  has_id x items = any (same_id x) items

  -- `byId.set`: a key that is there keeps its place.
  unfoldable pub set_by_id : A → List A → List A
  set_by_id x [] = x ∷ []
  set_by_id x (y ∷ items) =
      let rest = set_by_id x items in if same_id x y then x ∷ items else y ∷ rest

  -- `new Map(items.map((item) => [item.id, item]))`, from the values `by_id` on.
  unfoldable pub from_items : List A → List A → List A
  unfolding set_by_id
  from_items by_id [] = by_id
  from_items by_id (x ∷ items) = from_items (set_by_id x by_id) items

  -- The loop that adds what is not there.
  unfoldable pub add_missing : List A → List A → List A
  unfolding set_by_id
  add_missing by_id [] = by_id
  add_missing by_id (x ∷ items) =
      add_missing (if has_id x by_id then by_id else set_by_id x by_id) items

module _ {ℓ} {A : Type ℓ} (id_of : A → String) (at_of : A → ℕ) where
  -- `mergeTimeline`. The source gives back `current` itself where the result has its very items.
  unfoldable pub merge_timeline : List A → List A → ℕ → List A
  unfolding from_items add_missing
  merge_timeline current incoming limit =
      take_last limit (sort_by at_of (add_missing id_of (from_items id_of [] current) incoming))

  -- The rows after `appendActivity`.
  unfoldable pub append_row : ℕ → List A → A → List A
  append_row limit rows x =
      if has_id id_of x rows then rows else take_last limit (sort_by at_of (rows ++ x ∷ []))
