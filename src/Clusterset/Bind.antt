-- ===== src/Clusterset/Bind.antt =====
-- pkg/cmd/clusterset/bind/exec.go and pkg/cmd/clusterset/unbind/exec.go.
use clusteradm.Base.{String, ◌<>◌, List, [], ◌∷◌, text_eq, if◌then◌else◌}
use clusteradm.Effect.{Result, ok, err, Server, pure, fail, say, call, ◌>>=◌, ◌>>◌, attempt}
use clusteradm.Errors.{Errors}
use clusteradm.Hub.{
  Call, Answer, get_cluster_set, create_binding, delete_binding, Run, check_for_hub,
  unless_not_found,
}

pub record Options : Type 0 where
  pub clusterset : String
  pub namespace : String

module _ (X : Errors) where
  open X use {Error, errorf}

  -- `complete` of `bind`, `unbind` and `set`: the one argument.
  unfoldable pub the_clusterset : List String → Result Error String
  the_clusterset [] = err (errorf "the name of the clusterset must be specified")
  the_clusterset (name ∷ []) = ok name
  the_clusterset (name ∷ other ∷ more) = err (errorf "only one clusterset can be specified")

module _ (X : Errors) (server : Server Call Answer X.Error) where
  open X use {Error, errorf, is_already_exists}

  -- `Validate` of `bind` and of `unbind`
  unfoldable pub validate : Options → Run X server (Unit {0})
  validate o = do
    check_for_hub X server
    if text_eq o.namespace ""
        then fail (errorf "namespace name must be specified in --namespace")
        else pure tt

  unfoldable pub bound : Options → Result Error (Unit {0}) → Run X server (Unit {0})
  bound o (ok _) =
      say ("Clusterset " <> o.clusterset <> " is bound to Namespace " <> o.namespace <> "\n")
  bound o (err e) =
      if is_already_exists e
      then say (
          "Clusterset " <> o.clusterset <> " is already bound to Namespace " <> o.namespace <> "\n")
      else fail e

  -- `Run` of `bind`
  unfoldable pub bind : Options → Run X server (Unit {0})
  bind o = do
    call server (get_cluster_set o.clusterset)
    r ← attempt (
        call server (
          create_binding
            (record { name = o.clusterset; namespace = o.namespace; cluster_set = o.clusterset })))
    bound o r

  -- `Run` of `unbind`
  unfoldable pub unbind : Options → Run X server (Unit {0})
  unbind o = do
    call server (get_cluster_set o.clusterset)
    r ← attempt (call server (delete_binding o.namespace o.clusterset))
    unless_not_found X server r
    say ("Clusterset " <> o.clusterset <> " is unbind from namespace " <> o.namespace <> "\n")
