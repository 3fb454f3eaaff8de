-- ===== src/Get/Placement/Laws.antt =====
-- What `get placements` shows of each placement, as a tree and as a table.
use clusteradm.Base.{
  ◌≡◌, refl, ap, ◌∙◌, Bytes, bytes, bytes_eq, Option, none, some, List, [], ◌∷◌, ◌++◌, In, ◌⊎◌, inl,
  inr, if◌then◌else◌, arith,
}
use clusteradm.Effect.{Result, ok, err, Trace, Server, request, pure, fail, call, ◌>>=◌}
use clusteradm.Effect.Runs.{Result-cases}
use clusteradm.Errors.{Errors}
use clusteradm.Printer.Trie.{get, default_segmenter}
use clusteradm.Printer.TreePrinter.{TreePrinter}
use clusteradm.Printer.TreePrinter.Abstract.{Map, Refines}
use clusteradm.Printer.PrinterOption.{Stop, panicked, out_of_range, Table}
use clusteradm.Get.{Value, text, texts, Condition, Tools, stop_by, add_items}
use clusteradm.Get.GoMap.{value_at, put_at, value_at-put_at}
use clusteradm.Get.Shown.{VisitsAll, IsListed, get-add_items}
use clusteradm.Get.Placement.{
  Placement, PlacementDecision, Call, Answer, list_decisions, placement_of, save_decisions, fields,
  columns, convert_row, convert_rows, convert_to_tree, convert_to_table,
}

-- The clusters of the last decision with a placement's label.
abbrev pub last_decision : Bytes → List PlacementDecision → Option (List Bytes)
last_decision name [] = none
last_decision name (d ∷ ds) = elim (last_decision name ds) [
  | some clusters ↦ some clusters
  | none ↦ if bytes_eq (placement_of d) name then some d.clusters else none
]

abbrev or_else : {A : Type 0} → Option A → Option A → Option A
or_else none b = b
or_else (some a) b = some a

or_else-none : {A : Type 0} (a : Option A) → or_else a none ≡ a
or_else-none none = refl
or_else-none (some a) = refl

value_at-save_decisions :
    (name : Bytes) (ds : List PlacementDecision) (m : List (Bytes × List Bytes))
    → value_at name (save_decisions ds m) ≡ or_else (last_decision name ds) (value_at name m)
unfolding save_decisions
value_at-save_decisions name [] m = refl
value_at-save_decisions name (d ∷ ds) m = ground (
  arith,
  value_at-save_decisions name ds (put_at (placement_of d) d.clusters m),
  value_at-put_at (placement_of d) name d.clusters m,
)

value_at-save_all :
    (name : Bytes) (ds : List PlacementDecision)
    → value_at name (save_decisions ds []) ≡ last_decision name ds
unfolding value_at
value_at-save_all name ds =
    value_at-save_decisions name ds [] ∙ or_else-none (last_decision name ds)

List-cases : {A : Type 0} (xs : List A) → (xs ≡ []) ⊎ ((x : A) × (rest : List A) × (xs ≡ x ∷ rest))
List-cases [] = inl refl
List-cases (x ∷ rest) = inr (x, rest, refl)

-- What the tree names as the clusters of a placement, and what the table does.
abbrev pub in_tree : Option (List Bytes) → List Bytes
in_tree none = bytes "NoClusterSelected" ∷ []
in_tree (some clusters) = clusters

abbrev pub in_table : Option (List Bytes) → List Bytes
in_table none = []
in_table (some clusters) = clusters

-- The row of a placement whose first condition is `c`.
abbrev pub row_of : Bytes → Option (List Bytes) → Condition → List Value
row_of name decision c = text name ∷ text c.status ∷ text c.reason ∷ texts (in_table decision) ∷ []

module _ (X : Errors) (tools : Tools) (server : Server Call Answer X.Error) where
  -- The rows, up to the first placement without conditions.
  abbrev pub rows_of :
      List PlacementDecision → List Placement → Result (Stop X.Error) (List (List Value))
  rows_of ds [] = ok []
  rows_of ds (p ∷ ps) = elim p.conditions [
    | [] ↦ err out_of_range
    | c ∷ more ↦ elim (rows_of ds ps) [
      | err e ↦ err e
      | ok rows ↦ ok (row_of p.name (last_decision p.name ds) c ∷ rows)
    ]
  ]

  convert_rows-eq-rows_of :
      (ds : List PlacementDecision) (ps : List Placement) (h : Trace Call)
      → convert_rows X tools server (save_decisions ds []) ps h ≡ (rows_of ds ps, [])
  unfolding convert_rows convert_row ◌>>=◌ pure fail
  convert_rows-eq-rows_of ds [] h = refl
  convert_rows-eq-rows_of ds (p ∷ ps) h = elim (List-cases p.conditions) [
    | inl empty ↦ rw (convert_rows, convert_row, rows_of, empty) refl
    | inr (c, more, full) ↦ elim (Result-cases (rows_of ds ps)) [
      | inl (rows, e) ↦
          rw (convert_rows, convert_row, rows_of, full, convert_rows-eq-rows_of ds ps ([] ++ h), e)
            (ap (λ o. (ok (row_of p.name o c ∷ rows), [])) (value_at-save_all p.name ds))
      | inr (x, e) ↦
          rw (convert_rows, convert_row, rows_of, full, convert_rows-eq-rows_of ds ps ([] ++ h), e)
            refl
    ]
  ]

  abbrev pub table_of :
      Result (Stop X.Error) (List (List Value)) → Result (Stop X.Error) (Table Value)
  table_of (err e) = err e
  table_of (ok rows) = ok (record { columns = columns; rows = rows })

  -- What the two converters answer for a list of placements, by the answer to the list of decisions.
  abbrev pub Shows :
      Bytes
      → List Placement
      → TreePrinter Value
      → Trace Call
      → Result X.Error (List PlacementDecision)
      → Type 0
  Shows namespace placements p h (err e) =
      ((convert_to_tree X tools server namespace placements p h).0 ≡ err (panicked e))
      × ((convert_to_table X tools server namespace placements h).0 ≡ err (panicked e))
  Shows namespace placements p h (ok ds) =
      (tree : TreePrinter Value) × ((convert_to_tree X tools server namespace placements p h).0
        ≡ ok tree)
      × ((placement : Placement)
          → In placement placements
          → get default_segmenter (placement.name ++ bytes ".PlacementDecision") tree.tree
            ≡ some (some (texts (in_tree (last_decision placement.name ds)))))
      × ((convert_to_table X tools server namespace placements h).0
          ≡ table_of (rows_of ds placements))

  table_answered :
      (namespace : Bytes) (placements : List Placement) (h : Trace Call)
      (ds : List PlacementDecision)
      → server h (list_decisions namespace) ≡ ok ds
      → (convert_to_table X tools server namespace placements h).0
        ≡ table_of (rows_of ds placements)
  unfolding convert_to_table call ◌>>=◌ stop_by pure
  table_answered namespace placements h ds answer =
      let rows = convert_rows-eq-rows_of ds placements (request (list_decisions namespace) ∷ h) in
      elim (Result-cases (rows_of ds placements)) [
        | inl (_, e) ↦ rw (answer, rows, e) refl
        | inr (_, e) ↦ rw (answer, rows, e) refl
      ]

  answered-Shows :
      VisitsAll tools.visit
      → (namespace : Bytes) (placements : List Placement) (p : TreePrinter Value) (m : Map Value)
        (h : Trace Call)
      → Refines p.tree m
      → IsListed (λ placement. placement.name) placements
      → (r : Result X.Error (List PlacementDecision)) → server h (list_decisions namespace) ≡ r
      → Shows namespace placements p h r
  unfolding convert_to_tree convert_to_table call ◌>>=◌ stop_by pure
  answered-Shows visits namespace placements p m h refines l (err e) answer =
      (rw answer refl, rw answer refl)
  answered-Shows visits namespace placements p m h refines l (ok ds) answer =
      let clusters = save_decisions ds [] in
      let tree =
        add_items tools (λ placement. placement.name) (fields tools clusters) placements p in
      (
        tree,
        rw answer refl,
        λ placement i.
            get-add_items tools (λ pl. pl.name) (fields tools clusters) visits (λ pl. refl)
              placements p m refines l placement (bytes ".PlacementDecision") _ i
              (inr (inr (inr (inr (inr (inl refl))))))
            ∙ ap (λ o. some (some (texts (in_tree o)))) (value_at-save_all placement.name ds),
        table_answered namespace placements h ds answer,
      )

  -- If `range` visits just the entries of a map and the names of the listed placements are different and
  -- have no upper-case letters, then the two converters of `get placements` panic with the error when the
  -- decisions cannot be listed. Otherwise the tree names as the clusters of each placement those of the
  -- last listed decision with its label, or NoClusterSelected if there is none, and the table has for each
  -- placement a row with its first condition and these clusters, unless a placement has no condition, and
  -- then the command ends with an index out of range.
  pub placement_converters-Shows :
      VisitsAll tools.visit
      → (namespace : Bytes) (placements : List Placement) (p : TreePrinter Value) (m : Map Value)
        (h : Trace Call)
      → Refines p.tree m
      → IsListed (λ placement. placement.name) placements
      → Shows namespace placements p h (server h (list_decisions namespace))
  placement_converters-Shows visits namespace placements p m h refines l =
      answered-Shows visits namespace placements p m h refines l
        (server h (list_decisions namespace)) refl
