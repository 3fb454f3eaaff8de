-- ===== src/Info/HubInfo.antt =====
-- pkg/cmd/get/hubinfo/exec.go.
use clusteradm.Base.{Bytes, bytes, List, if◌then◌else◌}
use clusteradm.Effect.{Result, ok, err, Prog, Server, fail, call, attempt, ◌>>=◌, ◌>>◌}
use clusteradm.Errors.{Errors}
use clusteradm.Info.{
  Deployment, RelatedResource, Call, Answer, get_deployment, get_cluster_manager, decimal, write,
}
use clusteradm.Info.Components.{Tools, print_operator_crd, print_components_crd}
use clusteradm.Info.Deploys.{image_of, ratio_line, print_components_deploy}

abbrev cluster_manager : Bytes
cluster_manager = bytes "cluster-manager"

module _ (X : Errors) (tools : Tools) (server : Server Call Answer X.Error) where
  -- `printRegistrationOperator`, by the answer to the read of the deployment
  unfoldable pub print_operator : Result X.Error Deployment → Prog Call X.Error (Unit {0})
  unfolding write print_operator_crd
  print_operator (err e) =
      if X.is_not_found e
      then write X server 0 (bytes "Registration Operator:\t<none>\n")
      else fail e
  print_operator (ok deploy) =
      write X server 0 (bytes "Registration Operator:\n")
      >> write X server 1 (
          ratio_line (bytes "Controller:") (decimal deploy.available) (decimal deploy.replicas)
            (image_of (bytes "registration-operator") deploy.containers (bytes "<none>")))
      >> write X server 1 (bytes "CustomResourceDefinition:\n")
      >> print_operator_crd X tools server
          (bytes "clustermanagers.operator.open-cluster-management.io")

  -- `printRegistrationOperator`
  unfoldable pub print_registration_operator : Prog Call X.Error (Unit {0})
  unfolding print_operator
  print_registration_operator =
      attempt (call server (get_deployment (bytes "open-cluster-management") cluster_manager))
      >>= print_operator

  -- `printRegistration`, `printWork` and `printPlacement`
  unfoldable pub print_deployments : List RelatedResource → Prog Call X.Error (Unit {0})
  unfolding write print_components_deploy
  print_deployments resources =
      write X server 1 (bytes "Registration:\n")
      >> print_components_deploy X server resources
          (bytes "cluster-manager-registration-controller")
      >> print_components_deploy X server resources (bytes "cluster-manager-registration-webhook")
      >> write X server 1 (bytes "Work:\n")
      >> print_components_deploy X server resources (bytes "cluster-manager-work-webhook")
      >> write X server 1 (bytes "Placement:\n")
      >> print_components_deploy X server resources (bytes "cluster-manager-placement-controller")

  -- `printComponents`, by the answer to the read of the cluster manager
  unfoldable pub print_manager :
      Result X.Error (List RelatedResource) → Prog Call X.Error (Unit {0})
  unfolding write print_deployments print_components_crd
  print_manager (err e) =
      if X.is_not_found e then write X server 0 (bytes "Components:\t<uninstalled>\n") else fail e
  print_manager (ok resources) =
      write X server 0 (bytes "Components:\n")
      >> print_deployments resources
      >> write X server 1 (bytes "CustomResourceDefinition:\n")
      >> print_components_crd X tools server resources

  -- `printComponents`
  unfoldable pub print_components : Prog Call X.Error (Unit {0})
  unfolding print_manager
  print_components = attempt (call server (get_cluster_manager cluster_manager)) >>= print_manager

  -- `run`
  unfoldable pub run : Prog Call X.Error (Unit {0})
  unfolding print_registration_operator print_components
  run = print_registration_operator >> print_components
