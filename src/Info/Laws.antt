-- ===== src/Info/Laws.antt =====
-- Which CRDs `printCRD` of pkg/helpers/printer/tree.go prints, and as what.
use clusteradm.Base.{
  ◌≡◌, refl, sym, ap, ◌∙◌, subst, ◌↔◌, ◌⊎◌, inl, inr, Bytes, bytes, bytes_eq, bytes_eq_sound, List,
  [], ◌∷◌, ◌++◌, In, In-append_left, In-append_right, In-append_cases, Bool-cases,
}
use clusteradm.Effect.{ok, Event, request, Trace, Server, pure, call, attempt, ◌>>=◌, ◌>>◌}
use clusteradm.Errors.{Errors}
use clusteradm.Get.GoMap.{put_at}
use clusteradm.Info.{Crd, RelatedResource, Call, Answer, write_out, write}
use clusteradm.Info.Components.{
  Tools, crd_names, all_versions, all_storage, all_states, format_crd_version, print_states,
  print_crd,
}
use clusteradm.Info.Crds.{
  crd_state, IsNamed, IsState, In-crd_names, crd_names-In, crd_state-IsState, IsState-unique,
}

-- What an entry of a map is made of after an assignment.
In-put_at :
    {A : Type 0} (k : Bytes) (v : A) (m : List (Bytes × A)) (x : Bytes × A)
    → In x (put_at k v m)
    → (x ≡ (k, v)) ⊎ In x m
unfolding put_at
In-put_at k v [] x i = i
In-put_at k v ((j, w) ∷ m) x i = elim (Bool-cases (bytes_eq j k)) [
  | inl same ↦
      let j' : (x ≡ (j, v)) ⊎ In x m = rw same at i in
      elim j' [
        | inl e ↦ inl (e ∙ ap (λ y. (y, v)) (bytes_eq_sound j k same))
        | inr later ↦ inr (inr later)
      ]
  | inr other ↦
      let i' : (x ≡ (j, w)) ⊎ In x (put_at k v m) = rw other at i in
      elim i' [
        | inl e ↦ inr (inl e)
        | inr later ↦ elim (In-put_at k v m x later) [ inl e ↦ inl e | inr old ↦ inr (inr old) ]
      ]
]

module _ (state : Bytes → Bytes) where
  put_at-In : (k : Bytes) (m : List (Bytes × Bytes)) → In (k, state k) (put_at k (state k) m)
  unfolding put_at
  put_at-In k [] = inl refl
  put_at-In k ((j, w) ∷ m) = elim (Bool-cases (bytes_eq j k)) [
    | inl same ↦ rw same (inl (ap (λ y. (y, state k)) (sym (bytes_eq_sound j k same))))
    | inr other ↦ rw other (inr (put_at-In k m))
  ]

  put_at-keeps :
      (k n : Bytes) (m : List (Bytes × Bytes))
      → In (n, state n) m
      → In (n, state n) (put_at k (state k) m)
  unfolding put_at
  put_at-keeps k n [] i = elim i [ ]
  put_at-keeps k n ((j, w) ∷ m) i = elim (Bool-cases (bytes_eq j k)) [
    | inl same ↦ rw same (elim i [
      | inl e ↦
          let here : n ≡ k = ap (λ x. x.0) e ∙ bytes_eq_sound j k same in
          inl (ap (λ y. (y, state y)) here ∙ ap (λ y. (y, state k)) (sym (bytes_eq_sound j k same)))
      | inr later ↦ inr later
    ])
    | inr other ↦ rw other (elim i [ inl e ↦ inl e | inr later ↦ inr (put_at-keeps k n m later) ])
  ]

module _ (crds : List Crd) where
  all_states-named :
      (names : List Bytes) (m : List (Bytes × Bytes)) (x : Bytes × Bytes)
      → In x (all_states crds names m)
      → ((n : Bytes) × In n names × (x ≡ (n, crd_state crds n))) ⊎ In x m
  unfolding all_states
  all_states-named [] m x i = inr i
  all_states-named (name ∷ names) m x i =
      elim (all_states-named names (put_at name (crd_state crds name) m) x i) [
        | inl (n, there, e) ↦ inl (n, inr there, e)
        | inr before ↦ elim (In-put_at name (crd_state crds name) m x before) [
          | inl e ↦ inl (name, inl refl, e)
          | inr old ↦ inr old
        ]
      ]

  all_states-keeps :
      (names : List Bytes) (m : List (Bytes × Bytes)) (n : Bytes)
      → In (n, crd_state crds n) m
      → In (n, crd_state crds n) (all_states crds names m)
  unfolding all_states
  all_states-keeps [] m n i = i
  all_states-keeps (name ∷ names) m n i =
      all_states-keeps names (put_at name (crd_state crds name) m) n
        (put_at-keeps (crd_state crds) name n m i)

  all_states-In :
      (names : List Bytes) (m : List (Bytes × Bytes)) (n : Bytes)
      → In n names
      → In (n, crd_state crds n) (all_states crds names m)
  unfolding all_states
  all_states-In [] m n i = elim i [ ]
  all_states-In (name ∷ names) m n (inl e) =
      subst (λ y. In (y, crd_state crds y) (all_states crds (name ∷ names) m)) (sym e)
        (all_states-keeps names (put_at name (crd_state crds name) m) name
          (put_at-In (crd_state crds) name m))
  all_states-In (name ∷ names) m n (inr later) =
      all_states-In names (put_at name (crd_state crds name) m) n later

-- `List` of a set has just the texts of the set, and `range` visits just the entries of a map.
abbrev pub IsLawful : Tools → Type 0
IsLawful tools =
    ((xs : List Bytes) (x : Bytes) → In x (tools.set_list xs) ↔ In x xs)
    × ((m : List (Bytes × Bytes)) (x : Bytes × Bytes) → In x (tools.visit m) ↔ In x m)

module _ (X : Errors) (tools : Tools) (server : Server Call Answer X.Error) where
  -- The event of the line of a CRD
  abbrev pub line_event : List Crd → Bytes → Bytes → Event Call
  line_event crds name state = request (
      write_out (
        bytes "    ("
        ++ (state
            ++ bytes ") "
            ++ name
            ++ bytes " ["
            ++ format_crd_version tools (all_versions tools crds []) (all_storage crds []) name
            ++ bytes "]\n")))

  -- The events of the loop that prints, the last one first.
  written : List Crd → List (Bytes × Bytes) → Trace Call
  written crds [] = []
  written crds ((name, state) ∷ states) = written crds states ++ line_event crds name state ∷ []

  print_states-written :
      (crds : List Crd) (states : List (Bytes × Bytes)) (h : Trace Call)
      → print_states X tools server (all_versions tools crds []) (all_storage crds []) states h
        ≡ (ok tt, written crds states)
  unfolding print_states written write ◌>>◌ ◌>>=◌ attempt call pure
  print_states-written crds [] h = refl
  print_states-written crds ((name, state) ∷ states) h =
      rw (print_states-written crds states (line_event crds name state ∷ h)) refl

  In-written :
      (crds : List Crd) (states : List (Bytes × Bytes)) (e : Event Call)
      → In e (written crds states)
      → (x : Bytes × Bytes) × In x states × (e ≡ line_event crds x.0 x.1)
  unfolding written
  In-written crds [] e i = elim i [ ]
  In-written crds ((name, state) ∷ states) e i =
      elim (In-append_cases e (written crds states) (line_event crds name state ∷ []) i) [
        | inl later ↦ let (x, there, same) = In-written crds states e later in (x, inr there, same)
        | inr (inl same) ↦ ((name, state), inl refl, same)
        | inr (inr none) ↦ elim none [ ]
      ]

  written-In :
      (crds : List Crd) (states : List (Bytes × Bytes)) (x : Bytes × Bytes)
      → In x states
      → In (line_event crds x.0 x.1) (written crds states)
  unfolding written
  written-In crds [] x i = elim i [ ]
  written-In crds ((name, state) ∷ states) x (inl e) =
      In-append_right _ (written crds states) _ (inl (ap (λ y. line_event crds y.0 y.1) e))
  written-In crds ((name, state) ∷ states) x (inr later) =
      In-append_left _ (written crds states) _ (written-In crds states x later)

  -- If the list of a set has just its texts and `range` visits just the entries of a map, then `printCRD`
  -- succeeds and prints just the CRDs that the resources name, each as installed if the list has a CRD of
  -- the name and as absent otherwise, with the versions that `formatCRDVersion` makes of the maps that the
  -- loops over the list have filled.
  pub print_crd-In :
      IsLawful tools
      → (crds : List Crd) (resources : List RelatedResource) (h : Trace Call)
      → ((print_crd X tools server crds resources h).0 ≡ ok tt)
        × ((e : Event Call)
            → In e (print_crd X tools server crds resources h).1 ↔ (
                (name : Bytes) × (state : Bytes) × IsNamed resources name
                × IsState crds name state
                × (e ≡ line_event crds name state)))
  unfolding print_crd
  print_crd-In lawful crds resources h =
      let names = tools.set_list (crd_names resources) in
      let states = tools.visit (all_states crds names []) in
      let run = print_states-written crds states h in
      (
        ap (λ r. r.0) run,
        λ e. (
          λ i.
              let (x, there, same) = In-written crds states e (subst (λ r. In e r.1) run i) in
              elim (all_states-named crds names [] x ((lawful.1 _ x).0 there)) [
                | inl (n, named, x') ↦ (
                  n,
                  crd_state crds n,
                  In-crd_names resources n ((lawful.0 _ n).0 named),
                  crd_state-IsState crds n,
                  same ∙ ap (λ y. line_event crds y.0 y.1) x',
                )
                | inr none ↦ elim none [ ]
              ],
          λ found.
              let (n, state, named, is_state, same) = found in
              let same' = same ∙ ap (line_event crds n) (IsState-unique crds n state is_state) in
              let there = (lawful.1 _ (n, crd_state crds n)).1 (
                all_states-In crds names [] n
                  ((lawful.0 _ n).1 (crd_names-In resources n named))) in
              subst (λ r. In e r.1) (sym run)
                (subst (λ y. In y (written crds states)) (sym same')
                  (written-In crds states (n, crd_state crds n) there)),
        ),
      )
