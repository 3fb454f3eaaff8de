-- ===== src/Hub/Resources.antt =====
-- When pkg/helpers/check/check.go takes a cluster for a hub or for a managed cluster.
use clusteradm.Base.{
  ◌≡◌, refl, sym, ◌↔◌, inl, inr, subst, true, String, List, [], ◌∷◌, In, text_eq, eq_iff, arith,
  Bool-cases,
}
use clusteradm.Effect.{Result, ok, err, Trace, Server, pure, fail, call, ◌>>=◌, attempt}
use clusteradm.Errors.{Errors}
use clusteradm.Hub.{
  Call, Answer, server_resources, group_version, managed_cluster_resource_name,
  cluster_claim_resource_name, find_resource, check_resource, check_for_hub,
  check_for_managed_cluster,
}

find_resource-In :
    (items : List String) (name : String) → (find_resource items name ≡ true) ↔ In name items
unfolding find_resource
find_resource-In [] name = ((λ h. absurd (cc)), (λ i. elim i [ ]))
find_resource-In (item ∷ items) name =
    let rest = find_resource-In items name in
    elim (Bool-cases (text_eq item name)) [
      | inl same ↦
          let known : item ≡ name = (eq_iff item name).0 same in
          rw same ((λ _. inl (sym known)), (λ _. refl))
      | inr differ ↦ rw differ (
        (λ h. inr (rest.0 h)),
        (λ i. elim i [
          | inl e ↦ absurd (cc (differ, (eq_iff item name).1 (sym e)))
          | inr j ↦ rest.1 j
        ]),
      )
    ]

module _ (X : Errors) (server : Server Call Answer X.Error) where
  -- The cluster serves this resource.
  abbrev pub Serves : Trace Call → String → Type 0
  Serves h resource =
      (list : List String) × (server h (server_resources group_version) ≡ ok list)
      × In resource list

  check_resource_iff :
      (resource message : String) (r : Result X.Error (List String)) (h : Trace Call)
      → ((check_resource X server resource message r h).0 ≡ ok tt)
        ↔ ((list : List String) × (r ≡ ok list) × In resource list)
  unfolding check_resource pure fail
  check_resource_iff resource message (err e) h =
      ((λ d. absurd (ground (arith, d))), (λ (list, e', i). absurd (cc)))
  check_resource_iff resource message (ok items) h =
      elim (Bool-cases (find_resource items resource)) [
        | inl found ↦
            rw found ((λ _. (items, refl, (find_resource-In items resource).0 found)), (λ _. refl))
        | inr absent ↦ rw absent (
          (λ d. absurd (cc)),
          (λ (list, e, i).
              let same : list ≡ items = cc in
              absurd (
                cc (
                  absent,
                  (find_resource-In items resource).1 (subst (λ l. In resource l) same i),
                ))),
        )
      ]

  -- A cluster passes for a hub exactly when its API server lists managed clusters among the resources of
  -- the cluster API, and for a managed cluster exactly when it lists cluster claims.
  check_for_hub-Serves :
      (h : Trace Call)
      → (((check_for_hub X server h).0 ≡ ok tt) ↔ Serves h managed_cluster_resource_name)
        × (((check_for_managed_cluster X server h).0 ≡ ok tt)
            ↔ Serves h cluster_claim_resource_name)
  unfolding check_for_hub check_for_managed_cluster ◌>>=◌ attempt call
  check_for_hub-Serves h = (
    check_resource_iff managed_cluster_resource_name _ (server h (server_resources group_version))
        _,
    check_resource_iff cluster_claim_resource_name _ (server h (server_resources group_version)) _,
  )
