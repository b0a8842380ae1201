-- ===== src/Conductor/Timeline/Laws.antt =====
-- About the timelines of webui/src/stores/conductorStore.ts.
use ga_hub.Prelude.{
  ℕ, ◌≤◌, ◌≡◌, refl, ◌∙◌, String, true, false, ◌||◌, List, [], ◌∷◌, ◌++◌, any, take_last, length,
  Distinct, Distinct-drop, ◌-◌, sort_by, Ascends, Ascends-drop, sort_by-Ascends, sort_by-Distinct,
  any-append, length-take_last-le, Bool-cases, inl, inr, arith, ◌==◌, eq_iff, ap,
}
use ga_hub.Conductor.Timeline.{
  same_id, has_id, set_by_id, from_items, add_missing, merge_timeline, append_row,
}

module _ {ℓ} {A : Type ℓ} (id_of : A → String) where
  same_id_comm : (x y : A) → same_id id_of x y ≡ same_id id_of y x
  same_id_comm x y = ground (arith, eq_iff (id_of x) (id_of y), eq_iff (id_of y) (id_of x))

  same_id_left : (x y z : A) → same_id id_of x y ≡ true → same_id id_of z x ≡ same_id id_of z y
  same_id_left x y z h = ap (λ i. id_of z == i) ((eq_iff (id_of x) (id_of y)).0 h)

  has_id-set_by_id :
      (z x : A) (items : List A)
      → has_id id_of z (set_by_id id_of x items) ≡ (same_id id_of z x || has_id id_of z items)
  unfolding set_by_id
  has_id-set_by_id z x [] = refl
  has_id-set_by_id z x (y ∷ items) = elim (Bool-cases (same_id id_of x y)) [
    | inl e ↦ rw e (ground (arith, same_id_left x y z e))
    | inr e ↦ rw e (ground (arith, has_id-set_by_id z x items))
  ]

  pub set_by_id-Distinct :
      (x : A) (items : List A)
      → Distinct (same_id id_of) items
      → Distinct (same_id id_of) (set_by_id id_of x items)
  unfolding set_by_id
  set_by_id-Distinct x [] d = (refl, tt)
  set_by_id-Distinct x (y ∷ items) (h, d) = elim (Bool-cases (same_id id_of x y)) [
    | inl e ↦
        rw e (ap (λ i. any (λ z. i == id_of z) items) ((eq_iff (id_of x) (id_of y)).0 e) ∙ h, d)
    | inr e ↦ rw e (
      ground (arith, e, h, same_id_comm x y, has_id-set_by_id y x items),
      set_by_id-Distinct x items d,
    )
  ]

  pub from_items-Distinct :
      (by_id items : List A)
      → Distinct (same_id id_of) by_id
      → Distinct (same_id id_of) (from_items id_of by_id items)
  unfolding from_items
  from_items-Distinct by_id [] d = d
  from_items-Distinct by_id (x ∷ items) d =
      from_items-Distinct (set_by_id id_of x by_id) items (set_by_id-Distinct x by_id d)

  add_missing-Distinct :
      (by_id items : List A)
      → Distinct (same_id id_of) by_id
      → Distinct (same_id id_of) (add_missing id_of by_id items)
  unfolding add_missing
  add_missing-Distinct by_id [] d = d
  add_missing-Distinct by_id (x ∷ items) d = elim (Bool-cases (has_id id_of x by_id)) [
    | inl e ↦ rw e (add_missing-Distinct by_id items d)
    | inr e ↦
        rw e (add_missing-Distinct (set_by_id id_of x by_id) items (set_by_id-Distinct x by_id d))
  ]

  snoc-Distinct :
      (rows : List A) (x : A)
      → has_id id_of x rows ≡ false
      → Distinct (same_id id_of) rows
      → Distinct (same_id id_of) (rows ++ x ∷ [])
  snoc-Distinct [] x h d = (refl, tt)
  snoc-Distinct (y ∷ rows) x h (k, d) = (
    ground (arith, h, k, same_id_comm x y, any-append (same_id id_of y) rows (x ∷ [])),
    snoc-Distinct rows x (ground (arith, h)) d,
  )

module _ {ℓ} {A : Type ℓ} (id_of : A → String) (at_of : A → ℕ) where
  -- The ids are distinct, the times ascend and the bound is kept.
  abbrev pub IsTimeline : ℕ → List A → Type 0
  IsTimeline limit items =
      Distinct (same_id id_of) items × Ascends at_of items × (length items ≤ limit)

  -- What a sorted list keeps of its end is a timeline, when no id occurs twice.
  pub bounded-IsTimeline :
      (limit : ℕ) (items : List A)
      → Distinct (same_id id_of) items
      → IsTimeline limit (take_last limit (sort_by at_of items))
  bounded-IsTimeline limit items d =
      let sorted = sort_by at_of items in
      let n = length sorted - limit in
      (
        Distinct-drop (same_id id_of) n sorted
            (sort_by-Distinct at_of (same_id id_of) (same_id_comm id_of) items d),
        Ascends-drop at_of n sorted (sort_by-Ascends at_of items),
        length-take_last-le limit sorted,
      )

  pub merge_timeline-IsTimeline :
      (current incoming : List A) (limit : ℕ)
      → IsTimeline limit (merge_timeline id_of at_of current incoming limit)
  unfolding merge_timeline
  merge_timeline-IsTimeline current incoming limit =
      bounded-IsTimeline limit (add_missing id_of (from_items id_of [] current) incoming) (
        add_missing-Distinct id_of (from_items id_of [] current) incoming
          (from_items-Distinct id_of [] current tt))

  pub append_row-IsTimeline :
      (limit : ℕ) (rows : List A) (x : A)
      → IsTimeline limit rows
      → IsTimeline limit (append_row id_of at_of limit rows x)
  unfolding append_row
  append_row-IsTimeline limit rows x t = elim (Bool-cases (has_id id_of x rows)) [
    | inl e ↦ rw e t
    | inr e ↦ rw e (bounded-IsTimeline limit (rows ++ x ∷ []) (snoc-Distinct id_of rows x e t.0))
  ]
