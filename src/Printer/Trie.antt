-- ===== src/Printer/Trie.antt =====
-- pkg/helpers/printer/trie.go: the segmenter, and the trie with its loops over the segments.
pub mod Segments
pub mod Paths
pub mod Laws
pub mod Bounds
pub mod Walk
use clusteradm.Base.{
  ℕ, zero, suc, ◌+◌, ◌-◌, Bool, true, false, ◌||◌, Option, none, some, List, [], ◌∷◌, ◌++◌, length,
  take, drop, Bytes, bytes_eq, ltb, ◌==◌, if◌then◌else◌,
}

-- `strings.IndexRune(s, '.')`, with `none` for -1.
unfoldable pub index_dot : Bytes → Option ℕ
index_dot [] = none
index_dot (c ∷ s) =
    if c == b'.' then some 0 else elim (index_dot s) [ none ↦ none | some i ↦ some (suc i) ]

-- A segment and the index where the next one starts; an index is `none` for Go's -1.
abbrev pub Segmented : Type 0
Segmented = Bytes × Option ℕ

abbrev pub Segmenter : Type 0
Segmenter = Bytes → Option ℕ → Segmented

unfoldable pub default_segmenter : Segmenter
unfolding index_dot
default_segmenter path none = ([], none)
default_segmenter path (some start) =
    if length path == 0 || ltb (length path - 1) start
    then ([], none)
    else elim (index_dot (drop (start + 1) path)) [
      | none ↦ (drop start path, none)
      | some end ↦ (take (end + 1) (drop start path), some (start + end + 1))
    ]

mutual
  -- A node: its value (`none` for nil) and its children (`end` for a nil or an empty map).
  pub data Trie {ℓ} (V : Type ℓ) : Type ℓ where
    node : Option V → Children V → Trie V

  pub data Children {ℓ} (V : Type ℓ) : Type ℓ where
    end : Children V
    child : Bytes → Trie V → Children V → Children V

module _ {ℓ} {V : Type ℓ} where
  abbrev pub value : Trie V → Option V
  value (node v cs) = v

  abbrev pub children : Trie V → Children V
  children (node v cs) = cs

  -- `trie.children[part]`
  unfoldable pub lookup_child : Bytes → Children V → Option (Trie V)
  lookup_child part end = none
  lookup_child part (child k t cs) = if bytes_eq k part then some t else lookup_child part cs

  -- `trie.children[part] = t`
  unfoldable pub set_child : Bytes → Trie V → Children V → Children V
  set_child part t end = child part t end
  set_child part t (child k u cs) =
      if bytes_eq k part then child k t cs else child k u (set_child part t cs)

  -- `newTrie`
  abbrev pub new_trie : Trie V
  new_trie = node none end

  -- The child that the loop of `Put` goes on with, made if it is not there.
  abbrev pub child_or_new : Option (Trie V) → Trie V
  child_or_new none = new_trie
  child_or_new (some t) = t

  module _ (segmenter : Segmenter) (key : Bytes) where
    -- The loop of `Get`, over the segment at hand and the next index; `none` is out of fuel.
    unfoldable pub get_loop : ℕ → Segmented → Trie V → Option (Option V)
    get_loop zero st t = none
    get_loop (suc fuel) ([], i) t = some (value t)
    get_loop (suc fuel) (c ∷ cs, i) t = elim (lookup_child (c ∷ cs) (children t)) [
      | none ↦ some none
      | some u ↦ get_loop fuel (segmenter key i) u
    ]

    -- The loop of `Put` and the write after it: the changed trie, and whether the value is new.
    unfoldable pub put_loop : ℕ → Segmented → Option V → Trie V → Option (Trie V × Bool)
    put_loop zero st v t = none
    put_loop (suc fuel) ([], i) v (node old cs) =
        some (node v cs, elim old [ none ↦ true | some _ ↦ false ])
    put_loop (suc fuel) (c ∷ part, i) v (node old cs) =
        elim (put_loop fuel (segmenter key i) v (child_or_new (lookup_child (c ∷ part) cs))) [
          | none ↦ none
          | some (u, fresh) ↦ some (node old (set_child (c ∷ part) u cs), fresh)
        ]

-- Fuel for the loops over a key: at most one segment for each byte, and the last test.
abbrev pub enough : Bytes → ℕ
enough key = suc (suc (length key))

module _ {ℓ} {V : Type ℓ} (segmenter : Segmenter) where
  -- `Trie.Get`
  unfoldable pub get : Bytes → Trie V → Option (Option V)
  unfolding get_loop lookup_child
  get key t = get_loop segmenter key (enough key) (segmenter key (some 0)) t

  -- `Trie.Put`
  unfoldable pub put : Bytes → Option V → Trie V → Option (Trie V × Bool)
  unfolding put_loop lookup_child set_child
  put key v t = put_loop segmenter key (enough key) (segmenter key (some 0)) v t

-- `Trie.iter` with a callback that keeps a state and may fail; it stops at the first error.
module _ {ℓ} {V S E : Type ℓ} (it : Bytes → V → S → Option E × S) where
  abbrev visit : Bytes → Option V → S → Option E × S
  visit key none s = (none, s)
  visit key (some v) s = it key v s

  unfoldable mutual
    pub iter : Bytes → Trie V → S → Option E × S
    iter key (node v cs) s =
        let (e, s') = visit key v s in
        elim e [ some err ↦ (some err, s') | none ↦ iter_children key cs s' ]

    pub iter_children : Bytes → Children V → S → Option E × S
    iter_children key end s = (none, s)
    iter_children key (child part t cs) s =
        let (e, s') = iter (key ++ part) t s in
        elim e [ some err ↦ (some err, s') | none ↦ iter_children key cs s' ]

-- `Trie.isLeaf`
module _ {ℓ} {V : Type ℓ} where
  unfoldable pub is_leaf : Trie V → Bool
  is_leaf (node v end) = true
  is_leaf (node v (child part t cs)) = false
