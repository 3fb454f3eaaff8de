-- ===== src/Info/KlusterletInfo.antt =====
-- pkg/cmd/get/klusterletinfo/exec.go.
use clusteradm.Base.{Bytes, bytes, List, [], ◌∷◌, ◌++◌, if◌then◌else◌}
use clusteradm.Effect.{Result, ok, err, Prog, Server, pure, fail, call, attempt, ◌>>=◌, ◌>>◌}
use clusteradm.Errors.{Errors}
use clusteradm.Info.{
  Deployment, RelatedResource, KlusterletCondition, Klusterlet, Call, Answer, get_deployment,
  get_crd, get_klusterlet, decimal, write,
}
use clusteradm.Info.Components.{Tools, print_components_crd}
use clusteradm.Info.Deploys.{image_of, ratio_line, print_components_deploy}

abbrev klusterlet : Bytes
klusterlet = bytes "klusterlet"

abbrev pub klusterlet_crd : Bytes
klusterlet_crd = bytes "klusterlets.operator.open-cluster-management.io"

module _ (X : Errors) (tools : Tools) (server : Server Call Answer X.Error) where
  -- The loop over the conditions
  unfoldable pub print_conditions : List KlusterletCondition → Prog Call X.Error (Unit {0})
  unfolding write
  print_conditions [] = pure tt
  print_conditions (v ∷ conditions) =
      write X server 1 (bytes "Type:\t\t\t" ++ v.kind ++ bytes "\n")
      >> write X server 1 (bytes "Status:\t\t" ++ v.status ++ bytes "\n")
      >> write X server 1 (bytes "LastTransitionTime:\t" ++ v.last_transition_time ++ bytes "\n")
      >> write X server 1 (bytes "Reason:\t\t" ++ v.reason ++ bytes "\n")
      >> write X server 1 (bytes "Message:\t\t" ++ v.message ++ bytes "\n")
      >> write X server 0 (bytes "\n")
      >> print_conditions conditions

  -- The lines of `printRegistrationOperator`. The client answers a CRD that is not nil with an error as well,
  -- so the test for nil passes each time.
  unfoldable pub print_installed : Deployment → Prog Call X.Error (Unit {0})
  unfolding write
  print_installed deploy =
      write X server 0 (bytes "Registration Operator:\n")
      >> write X server 1 (
          ratio_line (bytes "Controller:") (decimal deploy.available) (decimal deploy.replicas)
            (image_of klusterlet deploy.containers (bytes "<none>")))
      >> write X server 1 (bytes "CustomResourceDefinition:\n")
      >> write X server 2 (bytes "(installed) " ++ klusterlet_crd ++ bytes "\n")

  -- `printRegistrationOperator`, by the answer to the read of the CRD
  unfoldable pub print_operator :
      Deployment → Result X.Error (Unit {0}) → Prog Call X.Error (Unit {0})
  unfolding print_installed
  print_operator deploy (err e) = if X.is_not_found e then print_installed deploy else fail e
  print_operator deploy (ok _) = print_installed deploy

  -- `printRegistrationOperator`, by the answer to the read of the deployment
  unfoldable pub print_deployed : Result X.Error Deployment → Prog Call X.Error (Unit {0})
  unfolding write print_operator
  print_deployed (err e) =
      if X.is_not_found e
      then write X server 0 (bytes "Registration Operator:\t<none>\n")
      else fail e
  print_deployed (ok deploy) =
      attempt (call server (get_crd klusterlet_crd)) >>= print_operator deploy

  -- `printRegistrationOperator`
  unfoldable pub print_registration_operator : Prog Call X.Error (Unit {0})
  unfolding print_deployed
  print_registration_operator =
      attempt (call server (get_deployment (bytes "open-cluster-management") klusterlet))
      >>= print_deployed

  -- `printComponents`
  unfoldable pub print_components : List RelatedResource → Prog Call X.Error (Unit {0})
  unfolding write print_components_deploy print_components_crd
  print_components resources =
      write X server 0 (bytes "Components:\n")
      >> write X server 1 (bytes "Registration:\n")
      >> print_components_deploy X server resources (bytes "klusterlet-registration-agent")
      >> write X server 1 (bytes "Work:\n")
      >> print_components_deploy X server resources (bytes "klusterlet-work-agent")
      >> write X server 1 (bytes "CustomResourceDefinition:\n")
      >> print_components_crd X tools server resources

  -- `run`, by the answer to the read of the klusterlet
  unfoldable pub print_klusterlet : Result X.Error Klusterlet → Prog Call X.Error (Unit {0})
  unfolding write print_conditions print_registration_operator print_components
  print_klusterlet (err e) =
      if X.is_not_found e
      then write X server 0
          (bytes "No klusterlet detected! Please make sure you're using the correct context!\n")
      else fail e
  print_klusterlet (ok k) =
      write X server 0 (bytes "Klusterlet Conditions:\n")
      >> print_conditions k.conditions
      >> print_registration_operator
      >> print_components k.related_resources

  -- `run`
  unfoldable pub run : Prog Call X.Error (Unit {0})
  unfolding print_klusterlet
  run = attempt (call server (get_klusterlet klusterlet)) >>= print_klusterlet
