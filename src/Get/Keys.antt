-- ===== src/Get/Keys.antt =====
-- The keys of the trees that the get commands print: the name of an object, then the key of a field.
use clusteradm.Base.{
  ℕ, ◌≡◌, refl, sym, ap, ◌∙◌, subst, inl, inr, Bytes, bytes_eq, bytes_eq_refl, leb, ◌==◌, Bool,
  true, false, ◌&&◌, ◌||◌, not, Option, [], ◌∷◌, ◌++◌, In, arith,
}
use clusteradm.Printer.TreePrinter.{Fields}

abbrev is_upper : ℕ → Bool
is_upper c = leb b'A' c && leb c b'Z'

-- Names of Kubernetes objects have no upper-case letters.
abbrev pub is_name : Bytes → Bool
is_name [] = true
is_name (c ∷ s) = not (is_upper c) && is_name s

-- The keys of the fields have one after the dot.
abbrev is_field : Bytes → Bool
is_field [] = false
is_field (c ∷ []) = false
is_field (c ∷ d ∷ s) = c == b'.' && is_upper d

-- Where a name ends and a key begins can be read off.
is_field-is_name : (k n : Bytes) → is_field k ≡ true → is_name n ≡ true → bytes_eq k n ≡ false
is_field-is_name [] n f g = cc
is_field-is_name (c ∷ []) n f g = cc
is_field-is_name (c ∷ d ∷ s) [] f g = refl
is_field-is_name (c ∷ d ∷ s) (a ∷ []) f g = ground arith
is_field-is_name (c ∷ d ∷ s) (a ∷ b ∷ n) f g = ground arith

pub field-name :
    (n k m : Bytes) → is_field k ≡ true → is_name m ≡ true → bytes_eq (n ++ k) m ≡ false
field-name [] k m f g = is_field-is_name k m f g
field-name (c ∷ n) k [] f g = refl
field-name (c ∷ n) k (d ∷ m) f g = ground (arith, field-name n k m f)

key_field :
    (k n l : Bytes) (c : ℕ)
    → is_field k ≡ true
    → is_field l ≡ true
    → is_name (c ∷ n) ≡ true
    → bytes_eq k (c ∷ (n ++ l)) ≡ false
key_field [] n l c f g h = cc
key_field (a ∷ []) n l c f g h = cc
key_field (a ∷ b ∷ s) [] [] c f g h = cc
key_field (a ∷ b ∷ s) [] (d ∷ []) c f g h = cc
key_field (a ∷ b ∷ s) [] (d ∷ e ∷ l) c f g h = ground arith
key_field (a ∷ b ∷ s) (d ∷ n) l c f g h = ground arith

pub bytes_eq_comm : (xs ys : Bytes) → bytes_eq xs ys ≡ bytes_eq ys xs
bytes_eq_comm [] [] = refl
bytes_eq_comm [] (y ∷ ys) = refl
bytes_eq_comm (x ∷ xs) [] = refl
bytes_eq_comm (x ∷ xs) (y ∷ ys) = ground (arith, bytes_eq_comm xs ys)

pub bytes_eq-append : (n k l : Bytes) → bytes_eq (n ++ k) (n ++ l) ≡ bytes_eq k l
bytes_eq-append [] k l = refl
bytes_eq-append (c ∷ n) k l = ground (arith, bytes_eq-append n k l)

pub names_differ :
    (n m k l : Bytes)
    → is_name n ≡ true
    → is_name m ≡ true
    → is_field k ≡ true
    → is_field l ≡ true
    → bytes_eq n m ≡ false
    → bytes_eq (n ++ k) (m ++ l) ≡ false
names_differ [] [] k l p q f g e = cc
names_differ [] (d ∷ m) k l p q f g e = key_field k m l d f g q
names_differ (c ∷ n) [] k l p q f g e = bytes_eq_comm (c ∷ (n ++ k)) l ∙ key_field l n k c g f p
names_differ (c ∷ n) (d ∷ m) k l p q f g e = ground (arith, names_differ n m k l)

module _ {V : Type 0} where
  abbrev has_key : Bytes → Fields V → Bool
  has_key k [] = false
  has_key k ((j, v) ∷ mp) = bytes_eq j k || has_key k mp

  -- Keys of fields, each once.
  abbrev pub well_keyed : Fields V → Bool
  well_keyed [] = true
  well_keyed ((k, v) ∷ mp) = is_field k && not (has_key k mp) && well_keyed mp

  In-has_key : (k : Bytes) (v : Option V) (mp : Fields V) → In (k, v) mp → has_key k mp ≡ true
  In-has_key k v [] i = elim i [ ]
  In-has_key k v ((j, w) ∷ mp) (inl e) =
      let same : k ≡ j = ap (λ x. x.0) e in rw (← same, bytes_eq_refl k)
  In-has_key k v ((j, w) ∷ mp) (inr i) = ground (arith, In-has_key k v mp i)

  pub well_keyed-is_field :
      (k : Bytes) (v : Option V) (mp : Fields V)
      → well_keyed mp ≡ true
      → In (k, v) mp
      → is_field k ≡ true
  well_keyed-is_field k v [] h i = elim i [ ]
  well_keyed-is_field k v ((j, w) ∷ mp) h (inl e) =
      let same : k ≡ j = ap (λ x. x.0) e in let f : is_field j ≡ true = ground arith in rw same f
  well_keyed-is_field k v ((j, w) ∷ mp) h (inr i) = well_keyed-is_field k v mp (ground arith) i

  pub well_keyed_once :
      (k : Bytes) (v w : Option V) (mp : Fields V)
      → well_keyed mp ≡ true
      → In (k, v) mp
      → In (k, w) mp
      → w ≡ v
  well_keyed_once k v w [] h i l = elim i [ ]
  well_keyed_once k v w ((j, u) ∷ mp) h (inl e) (inl f) = ap (λ x. x.1) f ∙ sym (ap (λ x. x.1) e)
  well_keyed_once k v w ((j, u) ∷ mp) h (inl e) (inr l) =
      let same : k ≡ j = ap (λ x. x.0) e in
      let there : has_key j mp ≡ true =
        subst (λ x. has_key x mp ≡ true) same (In-has_key k w mp l) in
      ground arith
  well_keyed_once k v w ((j, u) ∷ mp) h (inr i) (inl f) =
      let same : k ≡ j = ap (λ x. x.0) f in
      let there : has_key j mp ≡ true =
        subst (λ x. has_key x mp ≡ true) same (In-has_key k v mp i) in
      ground arith
  well_keyed_once k v w ((j, u) ∷ mp) h (inr i) (inr l) =
      well_keyed_once k v w mp (ground arith) i l
