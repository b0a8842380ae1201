-- ===== src/MarkdownCache/Laws.antt =====
-- About renderMarkdownTree and its trimming, of webui/src/utils/markdownRenderCache.ts.
use ga_hub.Prelude.{
  ℕ, ◌+◌, ◌-◌, ◌≤◌, ◌≡◌, refl, ap, String, Bool, not, ◌||◌, Option, none, some, List, [], ◌∷◌, ◌++◌,
  length, length-append, arith, Bool-cases, Option-cases, inl, inr, ltb, ◌==◌, utf16_length,
}
use ga_hub.MarkdownCache.{
  CacheEntry, Cache, max_entries, max_source_characters, max_single_entry_characters, lookup_entry,
  delete_entry, trim, key_of, render_markdown_tree,
}

module _ {Tree : Type 0} where
  abbrev pub total : List (String × CacheEntry Tree) → ℕ
  total [] = 0
  total ((k, e) ∷ entries) = e.characters + total entries

  -- The count of characters is that of the entries, and both limits hold.
  pub record IsBounded (c : Cache Tree) : Type 0 where
    pub counted : c.cached_characters ≡ total c.entries
    pub few : length c.entries ≤ max_entries
    pub small : c.cached_characters ≤ max_source_characters

  total-append : (a b : List (String × CacheEntry Tree)) → total (a ++ b) ≡ total a + total b
  total-append [] b = omega arith
  total-append (e ∷ a) b = omega (arith, total-append a b)

  trim-IsBounded :
      (entries : List (String × CacheEntry Tree)) (characters : ℕ)
      → characters ≡ total entries
      → IsBounded (trim entries characters)
  unfolding trim
  trim-IsBounded [] characters h = record {
    counted = h;
    few = omega arith;
    small = omega (arith, h);
  }
  trim-IsBounded ((k, e) ∷ entries) characters h =
      elim (Bool-cases
        (ltb max_entries (length ((k, e) ∷ entries)) || ltb max_source_characters characters)) [
          | inl over ↦
              rw over (trim-IsBounded entries (characters - e.characters) (omega (arith, h)))
          | inr within ↦
              rw within (record {
                counted = h;
                few = ground (arith, within);
                small = ground (arith, within);
              })
        ]

  abbrev characters_of : Option (CacheEntry Tree) → ℕ
  characters_of none = 0
  characters_of (some e) = e.characters

  abbrev count_of : Option (CacheEntry Tree) → ℕ
  count_of none = 0
  count_of (some e) = 1

  total-delete_entry :
      (key : String) (entries : List (String × CacheEntry Tree))
      → (characters_of (lookup_entry key entries) + total (delete_entry key entries)
          ≡ total entries)
        × (count_of (lookup_entry key entries) + length (delete_entry key entries) ≡ length entries)
  unfolding lookup_entry delete_entry
  total-delete_entry key [] = (refl, refl)
  total-delete_entry key ((k, f) ∷ entries) =
      let (t, n) = total-delete_entry key entries in
      elim (Bool-cases (k == key)) [
        | inl same ↦ rw same (refl, omega arith)
        | inr other ↦ rw other (omega (arith, t), omega (arith, n))
      ]

  pub counted_more :
      (key : String) (e : CacheEntry Tree) (c : Cache Tree)
      → IsBounded c
      → c.cached_characters + e.characters ≡ total (c.entries ++ (key, e) ∷ [])
  counted_more key e c b = omega (arith, b.counted, total-append c.entries ((key, e) ∷ []))

  -- An entry that is found becomes the newest.
  touch-IsBounded :
      (key : String) (cached : CacheEntry Tree) (c : Cache Tree)
      → lookup_entry key c.entries ≡ some cached
      → IsBounded c
      → IsBounded (record c { entries = delete_entry key c.entries ++ (key, cached) ∷ [] })
  touch-IsBounded key cached c found b =
      let (t, n) = total-delete_entry key c.entries in
      record {
        counted = omega (
          arith,
          b.counted,
          t,
          ap characters_of found,
          total-append (delete_entry key c.entries) ((key, cached) ∷ []),
        );
        few = omega (
          arith,
          b.few,
          n,
          ap count_of found,
          length-append (delete_entry key c.entries) ((key, cached) ∷ []),
        );
        small = b.small;
      }

  -- Rendering a message keeps the cache within 48 entries and 1500000 characters, and its count of
  -- characters true.
  pub render_markdown_tree-IsBounded :
      (namespace source : String) (rendered : Tree) (cacheable : Bool) (c : Cache Tree)
      → IsBounded c
      → IsBounded (render_markdown_tree namespace source rendered cacheable c).1
  unfolding render_markdown_tree
  render_markdown_tree-IsBounded namespace source rendered cacheable c b =
      elim (Bool-cases (not cacheable || ltb max_single_entry_characters (utf16_length source))) [
        | inl skipped ↦ simp skipped b
        | inr taken ↦
            simp taken (elim (Option-cases (lookup_entry (key_of namespace source) c.entries)) [
              | inl missing ↦ simp missing (
                  trim-IsBounded
                    (c.entries
                      ++ (
                        key_of namespace source,
                        record { tree = rendered; characters = utf16_length source },
                      )
                        ∷ [])
                    (c.cached_characters + utf16_length source)
                    (counted_more (key_of namespace source)
                      (record { tree = rendered; characters = utf16_length source }) c b))
              | inr (cached, found) ↦
                  simp found (touch-IsBounded (key_of namespace source) cached c found b)
            ])
      ]
