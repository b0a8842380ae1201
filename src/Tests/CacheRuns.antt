-- ===== src/Tests/CacheRuns.antt =====
-- Runs of webui/src/utils/markdownRenderCache.ts, with texts for the trees.
use ga_hub.Prelude.{String, some, ◌⧺◌, ◌≡◌, refl, true, [], ◌∷◌, arith}
use ga_hub.MarkdownCache.{Cache, CacheEntry, lookup_entry, key_of, render_markdown_tree}
use ga_hub.MarkdownCache.Laws.{IsBounded, render_markdown_tree-IsBounded}
use ga_hub.MarkdownCache.Keys.{DistinctKeys, tree_or, render_markdown_tree_kept}

abbrev one_tree : Cache String
one_tree = record {
  entries = (key_of "chat" "**a**", record { tree = "<b>a</b>"; characters = 5 }) ∷ [];
  cached_characters = 5;
}

one_tree-IsBounded : IsBounded one_tree
one_tree-IsBounded = record { counted = refl; few = omega arith; small = omega arith }

render_markdown_tree-IsBounded_example :
    IsBounded (render_markdown_tree "chat" "_b_" "<i>b</i>" true one_tree).1
render_markdown_tree-IsBounded_example =
    render_markdown_tree-IsBounded "chat" "_b_" "<i>b</i>" true one_tree one_tree-IsBounded

render_markdown_tree_kept_example :
    let key = "chat" ⧺ "\0" ⧺ "_b_" in
    let (shown, after) = render_markdown_tree "chat" "_b_" "<i>b</i>" true one_tree in
    (shown ≡ tree_or "<i>b</i>" (lookup_entry key one_tree.entries))
    × (e : CacheEntry String) × (lookup_entry key after.entries ≡ some e)
    × (e.tree ≡ shown)
    × DistinctKeys after.entries
unfolding lookup_entry
render_markdown_tree_kept_example =
    render_markdown_tree_kept "chat" "_b_" "<i>b</i>" one_tree one_tree-IsBounded (refl, tt) refl
