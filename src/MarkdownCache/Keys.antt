-- ===== src/MarkdownCache/Keys.antt =====
-- About the keys of webui/src/utils/markdownRenderCache.ts.
use ga_hub.Prelude.{
  ℕ, suc, ◌+◌, ◌-◌, ◌≤◌, ◌≡◌, refl, sym, ap, ◌∙◌, eq_iff, ◌⧺◌, String, true, false, ◌||◌, Option,
  none, some, List, [], ◌∷◌, ◌++◌, length, arith, Bool-cases, Option-cases, inl, inr, ltb, ◌==◌,
  eq_refl, utf16_length,
}
use ga_hub.MarkdownCache.{
  CacheEntry, Cache, max_entries, max_source_characters, max_single_entry_characters, lookup_entry,
  delete_entry, trim, key_of, render_markdown_tree,
}
use ga_hub.MarkdownCache.Laws.{IsBounded, total, counted_more}

module _ {Tree : Type 0} where
  -- No two entries have the same key, as in a Map.
  abbrev pub DistinctKeys : List (String × CacheEntry Tree) → Type 0
  DistinctKeys [] = Unit
  DistinctKeys ((k, e) ∷ entries) = (lookup_entry k entries ≡ none) × DistinctKeys entries

  lookup_entry-snoc :
      (key : String) (entries : List (String × CacheEntry Tree)) (e : CacheEntry Tree)
      → lookup_entry key entries ≡ none
      → lookup_entry key (entries ++ (key, e) ∷ []) ≡ some e
  unfolding lookup_entry
  lookup_entry-snoc key [] e h = rw (eq_refl key) refl
  lookup_entry-snoc key ((k, f) ∷ entries) e h = elim (Bool-cases (k == key)) [
    | inl same ↦ absurd (ground (arith, same, h))
    | inr other ↦ rw other (lookup_entry-snoc key entries e (ground (arith, other, h)))
  ]

  lookup_entry-delete_entry :
      (key : String) (entries : List (String × CacheEntry Tree))
      → DistinctKeys entries
      → lookup_entry key (delete_entry key entries) ≡ none
  unfolding lookup_entry delete_entry
  lookup_entry-delete_entry key [] d = refl
  lookup_entry-delete_entry key ((k, f) ∷ entries) (new, d) = elim (Bool-cases (k == key)) [
    | inl same ↦ rw same (ap (λ j. lookup_entry j entries) (sym ((eq_iff k key).0 same)) ∙ new)
    | inr other ↦ rw (other, other) (lookup_entry-delete_entry key entries d)
  ]

  lookup_entry-rest :
      (key k : String) (f : CacheEntry Tree) (entries : List (String × CacheEntry Tree))
      → lookup_entry key ((k, f) ∷ entries) ≡ none
      → lookup_entry key entries ≡ none
  unfolding lookup_entry
  lookup_entry-rest key k f entries new = elim (Bool-cases (k == key)) [
    | inl same ↦ absurd (ground (arith, same, new))
    | inr other ↦ ground (arith, other, new)
  ]

  -- Trimming never drops the newest entry, if that is within the limit by itself.
  lookup_entry-trim :
      (key : String) (entries : List (String × CacheEntry Tree)) (e : CacheEntry Tree)
      (characters : ℕ)
      → characters ≡ total (entries ++ (key, e) ∷ [])
      → e.characters ≤ max_source_characters
      → lookup_entry key entries ≡ none
      → lookup_entry key (trim (entries ++ (key, e) ∷ []) characters).entries ≡ some e
  unfolding trim lookup_entry
  lookup_entry-trim key [] e characters h fits new =
      let small : ltb max_source_characters characters ≡ false = ground (arith, h, fits) in
      rw small (rw (eq_refl key) refl)
  lookup_entry-trim key ((k, f) ∷ entries) e characters h fits new =
      elim (Bool-cases (
        ltb max_entries (suc (length (entries ++ (key, e) ∷ [])))
        || ltb max_source_characters characters)) [
          | inl over ↦ rw over (
              lookup_entry-trim key entries e (characters - f.characters) (omega (arith, h)) fits
                (lookup_entry-rest key k f entries new))
          | inr within ↦ rw within (lookup_entry-snoc key ((k, f) ∷ entries) e new)
        ]

  lookup_entry-other :
      (k key : String) (entries : List (String × CacheEntry Tree)) (e : CacheEntry Tree)
      → (key == k) ≡ false
      → lookup_entry k entries ≡ none
      → lookup_entry k (entries ++ (key, e) ∷ []) ≡ none
  unfolding lookup_entry
  lookup_entry-other k key [] e other h = rw other refl
  lookup_entry-other k key ((j, f) ∷ entries) e other h = elim (Bool-cases (j == k)) [
    | inl same ↦ absurd (ground (arith, same, h))
    | inr apart ↦ rw apart (lookup_entry-other k key entries e other (ground (arith, apart, h)))
  ]

  snoc-DistinctKeys :
      (key : String) (entries : List (String × CacheEntry Tree)) (e : CacheEntry Tree)
      → lookup_entry key entries ≡ none
      → DistinctKeys entries
      → DistinctKeys (entries ++ (key, e) ∷ [])
  unfolding lookup_entry
  snoc-DistinctKeys key [] e h d = (refl, tt)
  snoc-DistinctKeys key ((k, f) ∷ entries) e h (new, d) = elim (Bool-cases (k == key)) [
    | inl same ↦ absurd (ground (arith, same, h))
    | inr apart ↦
        let other : (key == k) ≡ false = ground (arith, apart, eq_iff k key, eq_iff key k) in
        (
          lookup_entry-other k key entries e other new,
          snoc-DistinctKeys key entries e (ground (arith, apart, h)) d,
        )
  ]

  delete_entry_absent :
      (k key : String) (entries : List (String × CacheEntry Tree))
      → lookup_entry k entries ≡ none
      → lookup_entry k (delete_entry key entries) ≡ none
  unfolding lookup_entry delete_entry
  delete_entry_absent k key [] h = refl
  delete_entry_absent k key ((j, f) ∷ entries) h = elim (Bool-cases (j == k)) [
    | inl same ↦ absurd (ground (arith, same, h))
    | inr apart ↦
        let rest : lookup_entry k entries ≡ none = ground (arith, apart, h) in
        elim (Bool-cases (j == key)) [
          | inl gone ↦ rw gone rest
          | inr kept ↦ rw (kept, apart) (delete_entry_absent k key entries rest)
        ]
  ]

  delete_entry-DistinctKeys :
      (key : String) (entries : List (String × CacheEntry Tree))
      → DistinctKeys entries
      → DistinctKeys (delete_entry key entries)
  unfolding delete_entry
  delete_entry-DistinctKeys key [] d = tt
  delete_entry-DistinctKeys key ((k, f) ∷ entries) (new, d) = elim (Bool-cases (k == key)) [
    | inl gone ↦ rw gone d
    | inr kept ↦
        rw kept (delete_entry_absent k key entries new, delete_entry-DistinctKeys key entries d)
  ]

  trim-DistinctKeys :
      (entries : List (String × CacheEntry Tree)) (characters : ℕ)
      → DistinctKeys entries
      → DistinctKeys (trim entries characters).entries
  unfolding trim
  trim-DistinctKeys [] characters d = tt
  trim-DistinctKeys ((k, e) ∷ entries) characters (new, d) =
      elim (Bool-cases
        (ltb max_entries (length ((k, e) ∷ entries)) || ltb max_source_characters characters)) [
          | inl over ↦ rw over (trim-DistinctKeys entries (characters - e.characters) d)
          | inr within ↦ rw within (new, d)
        ]

  -- The tree of an entry, or the freshly rendered one.
  abbrev pub tree_or : Tree → Option (CacheEntry Tree) → Tree
  tree_or rendered none = rendered
  tree_or rendered (some e) = e.tree

  -- A message that may be cached and has at most 180000 characters is shown by the tree that the cache
  -- has under its namespace and source joined by the unit 0, or by a freshly rendered one if there is
  -- none, and afterwards the cache has under that key the tree that is shown, when the cache is within its
  -- limits and no two entries have the same key. No two have the same key afterwards.
  pub render_markdown_tree_kept :
      (namespace source : String) (rendered : Tree) (c : Cache Tree)
      → IsBounded c
      → DistinctKeys c.entries
      → ltb max_single_entry_characters (utf16_length source) ≡ false
      → let key = namespace ⧺ "\0" ⧺ source in
        let (shown, after) = render_markdown_tree namespace source rendered true c in
        (shown ≡ tree_or rendered (lookup_entry key c.entries))
        × (e : CacheEntry Tree) × (lookup_entry key after.entries ≡ some e)
        × (e.tree ≡ shown)
        × DistinctKeys after.entries
  unfolding render_markdown_tree
  render_markdown_tree_kept namespace source rendered c b d small =
      let key = key_of namespace source in
      let fresh : CacheEntry Tree = record { tree = rendered; characters = utf16_length source } in
      simp small (elim (Option-cases (lookup_entry key c.entries)) [
        | inl missing ↦ simp missing (
          refl,
          fresh,
          lookup_entry-trim key c.entries fresh (c.cached_characters + utf16_length source)
              (counted_more key fresh c b) (ground (arith, small)) missing,
          refl,
          trim-DistinctKeys (c.entries ++ (key, fresh) ∷ [])
              (c.cached_characters + utf16_length source)
              (snoc-DistinctKeys key c.entries fresh missing d),
        )
        | inr (cached, found) ↦ simp found (
          refl,
          cached,
          lookup_entry-snoc key (delete_entry key c.entries) cached
              (lookup_entry-delete_entry key c.entries d),
          refl,
          snoc-DistinctKeys key (delete_entry key c.entries) cached
              (lookup_entry-delete_entry key c.entries d)
              (delete_entry-DistinctKeys key c.entries d),
        )
      ])
