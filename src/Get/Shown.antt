-- ===== src/Get/Shown.antt =====
-- Each field of each object of a list is in the tree under the object's name and the field's key.
use clusteradm.Base.{
  ◌≡◌, refl, sym, ap, ◌∙◌, subst, ◌↔◌, ◌⊎◌, inl, inr, Bytes, bytes_eq, bytes_eq_sound,
  bytes_eq_refl, true, false, Option, some, List, [], ◌∷◌, ◌++◌, All, In, Bool-cases,
}
use clusteradm.Printer.Trie.{get, default_segmenter}
use clusteradm.Printer.TreePrinter.{Fields, TreePrinter}
use clusteradm.Printer.TreePrinter.Abstract.{Map, assign, assign_each, assign_fields, Refines}
use clusteradm.Printer.TreePrinter.Refines.{add_fields-Refines}
use clusteradm.Get.{Value, Tools, get_values, text, add_items}
use clusteradm.Get.Keys.{
  is_name, names_differ, field-name, bytes_eq-append, bytes_eq_comm, well_keyed,
  well_keyed-is_field, well_keyed_once,
}

module _ {V : Type 0} where
  assign-other :
      (k : Bytes) (v : Option V) (m : Map V) (j : Bytes)
      → bytes_eq k j ≡ false
      → assign k v m j ≡ m j
  assign-other k v m j h = rw h

  -- A key that no assignment has keeps its value.
  assign_each-other :
      (name : Bytes) (mp : Fields V) (m : Map V) (j : Bytes)
      → ((k : Bytes) (v : Option V) → In (k, v) mp → bytes_eq (name ++ k) j ≡ false)
      → assign_each name mp m j ≡ m j
  assign_each-other name [] m j f = refl
  assign_each-other name ((k, v) ∷ mp) m j f =
      assign_each-other name mp (assign (name ++ k) v m) j (λ l w i. f l w (inr i))
      ∙ assign-other (name ++ k) v m j (f k v (inl refl))

  -- A key that is assigned one value only, now or before, has it in the end.
  assign_each-found :
      (name : Bytes) (mp : Fields V) (m : Map V) (k : Bytes) (v : Option V)
      → ((w : Option V) → In (k, w) mp → w ≡ v)
      → In (k, v) mp ⊎ (m (name ++ k) ≡ v)
      → assign_each name mp m (name ++ k) ≡ v
  assign_each-found name [] m k v once (inl i) = elim i [ ]
  assign_each-found name [] m k v once (inr e) = e
  assign_each-found name ((j, w) ∷ mp) m k v once start =
      assign_each-found name mp (assign (name ++ j) w m) k v (λ u i. once u (inr i))
        (elim (Bool-cases (bytes_eq j k)) [
          | inl same ↦
              let e : j ≡ k = bytes_eq_sound j k same in
              let now : w ≡ v = once w (inl (ap (λ x. (x, w)) (sym e))) in
              inr (rw (bytes_eq-append name j k, same) now)
          | inr differ ↦ elim start [
            | inl (inl e) ↦
                let same : bytes_eq j k ≡ true =
                  subst (λ x. bytes_eq x.0 k ≡ true) e (bytes_eq_refl k) in
                cc
            | inl (inr i) ↦ inl i
            | inr e ↦ inr (rw (bytes_eq-append name j k, differ) e)
          ]
        ])

-- `range` visits just the entries of a map.
abbrev pub VisitsAll : (Fields Value → Fields Value) → Type 0
VisitsAll visit = (mp : Fields Value) (x : Bytes × Option Value) → In x (visit mp) ↔ In x mp

module _ {A : Type 0} (name : A → Bytes) where
  -- The objects have names, each its own.
  abbrev pub IsListed : List A → Type 0
  IsListed [] = Unit
  IsListed (x ∷ xs) =
      (is_name (name x) ≡ true)
      × All (λ y. (bytes_eq (name y) (name x) ≡ false) × (is_name (name y) ≡ true)) xs
      × IsListed xs

module _ {A : Type 0} (tools : Tools) (name : A → Bytes) (fields : A → Fields Value) where
  abbrev assign_items : List A → Map Value → Map Value
  assign_items [] m = m
  assign_items (x ∷ xs) m =
      assign_items xs (assign_fields (text []) (name x) (tools.visit (fields x)) m)

  add_items-Refines :
      (xs : List A) (p : TreePrinter Value) (m : Map Value)
      → Refines p.tree m
      → Refines (add_items tools name fields xs p).tree (assign_items xs m)
  unfolding add_items
  add_items-Refines [] p m r = r
  add_items-Refines (x ∷ xs) p m r =
      add_items-Refines xs _ _
        (add_fields-Refines (get_values tools) (name x) (tools.visit (fields x)) p m r).0

  module _ (visits : VisitsAll tools.visit) (keyed : (x : A) → well_keyed (fields x) ≡ true) where
    -- The fields of other objects are assigned to other keys.
    assign_items-other :
        (x : A) (k : Bytes) (v : Option Value) (ys : List A) (m : Map Value)
        → is_name (name x) ≡ true
        → In (k, v) (fields x)
        → All (λ y. (bytes_eq (name y) (name x) ≡ false) × (is_name (name y) ≡ true)) ys
        → assign_items ys m (name x ++ k) ≡ m (name x ++ k)
    assign_items-other x k v [] m p i a = refl
    assign_items-other x k v (y ∷ ys) m p i a =
        let is_key = well_keyed-is_field k v (fields x) (keyed x) i in
        assign_items-other x k v ys _ p i a.1
        ∙ assign_each-other (name y) (tools.visit (fields y)) _ (name x ++ k) (λ l w j.
          names_differ (name y) (name x) l k a.0.1 p
            (well_keyed-is_field l w (fields y) (keyed y) ((visits (fields y) (l, w)).0 j)) is_key
            a.0.0)
        ∙ assign-other (name y) (some (text [])) m (name x ++ k)
            (bytes_eq_comm (name y) (name x ++ k) ∙ field-name (name x) k (name y) is_key a.0.1)

    assign_items-found :
        (xs : List A) (m : Map Value) (x : A) (k : Bytes) (v : Option Value)
        → IsListed name xs
        → In x xs
        → In (k, v) (fields x)
        → assign_items xs m (name x ++ k) ≡ v
    assign_items-found [] m x k v l here i = elim here [ ]
    assign_items-found (y ∷ xs) m x k v l (inl e) i =
        subst (λ z. In (k, v) (fields z) → assign_items (y ∷ xs) m (name z ++ k) ≡ v) (sym e)
          (λ j.
            assign_items-other y k v xs _ l.0 j l.1
            ∙ assign_each-found (name y) (tools.visit (fields y)) _ k v
                (λ w o.
                  well_keyed_once k v w (fields y) (keyed y) j ((visits (fields y) (k, w)).0 o))
                (inl ((visits (fields y) (k, v)).1 j)))
          i
    assign_items-found (y ∷ xs) m x k v l (inr later) i = assign_items-found xs _ x k v l.2 later i

    -- If `range` visits just the entries of a map and the objects' names are different and have no upper-case
    -- letters, then the tree that the converter fills answers each field of each object under the object's
    -- name followed by the key of the field. The tree may hold other keys before.
    pub get-add_items :
        (xs : List A) (p : TreePrinter Value) (m : Map Value)
        → Refines p.tree m
        → IsListed name xs
        → (x : A) (k : Bytes) (v : Option Value) → In x xs
        → In (k, v) (fields x)
        → get default_segmenter (name x ++ k) (add_items tools name fields xs p).tree ≡ some v
    get-add_items xs p m r l x k v here i =
        add_items-Refines xs p m r (name x ++ k) ∙ ap some (assign_items-found xs m x k v l here i)
