-- ===== src/MarkdownCache.antt =====
-- webui/src/utils/markdownRenderCache.ts: the rendered trees of finished messages, the least recently
-- used first. A Map is a list of its entries in insertion order. The tree that react-markdown makes
-- of the options is an argument, and so is its type.
pub mod Laws
pub mod Keys
use ga_hub.Prelude.{
  ℕ, ◌+◌, ◌-◌, String, Bool, true, false, not, ◌||◌, Option, none, some, List, [], ◌∷◌, ◌++◌,
  length, if◌then◌else◌, ltb, ◌==◌, ◌⧺◌, utf16_length,
}

abbrev pub max_entries : ℕ
max_entries = 48

abbrev pub max_source_characters : ℕ
max_source_characters = 1500000

abbrev pub max_single_entry_characters : ℕ
max_single_entry_characters = 180000

module _ (Tree : Type 0) where
  pub record CacheEntry : Type 0 where
    pub tree : Tree
    pub characters : ℕ

  -- `cache` and `cachedCharacters`.
  pub record Cache : Type 0 where
    pub entries : List (String × CacheEntry)
    pub cached_characters : ℕ

abbrev pub key_of : String → String → String
key_of namespace source = namespace ⧺ "\0" ⧺ source

module _ {Tree : Type 0} where
  unfoldable pub lookup_entry : String → List (String × CacheEntry Tree) → Option (CacheEntry Tree)
  lookup_entry key [] = none
  lookup_entry key ((k, e) ∷ entries) = if k == key then some e else lookup_entry key entries

  -- `cache.delete(key)`.
  unfoldable pub delete_entry :
      String → List (String × CacheEntry Tree) → List (String × CacheEntry Tree)
  delete_entry key [] = []
  delete_entry key ((k, e) ∷ entries) =
      let rest = delete_entry key entries in if k == key then entries else (k, e) ∷ rest

  -- `trimMarkdownRenderCache`: the oldest entries go until the rest is within both limits.
  unfoldable pub trim : List (String × CacheEntry Tree) → ℕ → Cache Tree
  trim [] characters = record { entries = []; cached_characters = characters }
  trim ((k, e) ∷ entries) characters =
      let trimmed = trim entries (characters - e.characters) in
      if ltb max_entries (length ((k, e) ∷ entries)) || ltb max_source_characters characters
      then trimmed
      else record { entries = (k, e) ∷ entries; cached_characters = characters }

  -- `renderMarkdownTree`; `rendered` is `Markdown(options)`.
  unfoldable pub render_markdown_tree :
      String → String → Tree → Bool → Cache Tree → Tree × Cache Tree
  unfolding lookup_entry delete_entry trim
  render_markdown_tree namespace source rendered cacheable c =
      let key = key_of namespace source in
      let size = utf16_length source in
      let e : CacheEntry Tree = record { tree = rendered; characters = size } in
      if not cacheable || ltb max_single_entry_characters size
      then (rendered, c)
      else elim (lookup_entry key c.entries) [
        | some cached ↦
            (cached.tree, record c { entries = delete_entry key c.entries ++ (key, cached) ∷ [] })
        | none ↦ (rendered, trim (c.entries ++ (key, e) ∷ []) (c.cached_characters + size))
      ]

  unfoldable pub clear_markdown_render_cache : Cache Tree
  clear_markdown_render_cache = record { entries = []; cached_characters = 0 }

  unfoldable pub markdown_render_cache_stats : Cache Tree → ℕ × ℕ
  markdown_render_cache_stats c = (length c.entries, c.cached_characters)
