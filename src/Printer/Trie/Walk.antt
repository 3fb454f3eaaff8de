-- ===== src/Printer/Trie/Walk.antt =====
-- `iter` of trie.go against the list of the entries that it should visit.
use clusteradm.Base.{◌≡◌, refl, Option, none, some, List, [], ◌∷◌, ◌++◌, Bytes, arith}
use clusteradm.Printer.Trie.{Trie, Children, node, end, child, iter, iter_children}

module _ {ℓ} {V : Type ℓ} where
  abbrev own : Bytes → Option V → List (Bytes × V)
  own key none = []
  own key (some v) = (key, v) ∷ []

  -- The values of a trie, each with its whole key, a node before its children.
  mutual
    pub entries : Bytes → Trie V → List (Bytes × V)
    entries key (node v cs) = own key v ++ entries_children key cs

    entries_children : Bytes → Children V → List (Bytes × V)
    entries_children key end = []
    entries_children key (child part t cs) = entries (key ++ part) t ++ entries_children key cs

module _ {ℓ} {V S E : Type ℓ} (it : Bytes → V → S → Option E × S) where
  -- The calls of `it` on a list, up to the first error.
  pub calls : List (Bytes × V) → S → Option E × S
  calls [] s = (none, s)
  calls ((k, v) ∷ rest) s =
      let (e, s') = it k v s in elim e [ some err ↦ (some err, s') | none ↦ calls rest s' ]

  abbrev and_then : Option E × S → (S → Option E × S) → Option E × S
  and_then r f = elim r.0 [ some err ↦ (some err, r.1) | none ↦ f r.1 ]

  calls-append :
      (xs ys : List (Bytes × V)) (s : S) → calls (xs ++ ys) s ≡ and_then (calls xs s) (calls ys)
  unfolding calls
  calls-append [] ys s = refl
  calls-append ((k, v) ∷ xs) ys s = ground (arith, calls-append xs ys (it k v s).1)

  mutual
    unfolding iter entries calls

    iter-entries : (key : Bytes) (t : Trie V) (s : S) → iter it key t s ≡ calls (entries key t) s
    iter-entries key (node none cs) s = iter_children-entries key cs s
    iter-entries key (node (some v) cs) s =
        ground (arith, iter_children-entries key cs (it key v s).1)

    iter_children-entries :
        (key : Bytes) (cs : Children V) (s : S)
        → iter_children it key cs s ≡ calls (entries_children key cs) s
    iter_children-entries key end s = refl
    iter_children-entries key (child part t cs) s = ground (
      arith,
      iter-entries (key ++ part) t s,
      calls-append (entries (key ++ part) t) (entries_children key cs) s,
      iter_children-entries key cs (calls (entries (key ++ part) t) s).1,
    )

  -- `Iter` calls its function on each entry with its whole key, a node before its children, until a
  -- call fails, and answers that first error.
  iter-eq-calls : (t : Trie V) (s : S) → iter it [] t s ≡ calls (entries [] t) s
  iter-eq-calls t s = iter-entries [] t s
