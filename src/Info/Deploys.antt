-- ===== src/Info/Deploys.antt =====
-- `PrintComponentsDeploy` of pkg/helpers/printer/tree.go: the line of one deployment.
use clusteradm.Base.{Bytes, bytes, bytes_eq, Bool, ◌||◌, List, [], ◌∷◌, ◌++◌, if◌then◌else◌}
use clusteradm.Effect.{Result, ok, err, Prog, Server, pure, fail, call, attempt, ◌>>=◌}
use clusteradm.Errors.{Errors}
use clusteradm.Info.{Deployment, RelatedResource, Call, Answer, get_deployment, decimal, write}

-- `strings.HasSuffix`
abbrev pub has_suffix : Bytes → Bytes → Bool
has_suffix [] suffix = bytes_eq [] suffix
has_suffix (c ∷ s) suffix = let rest = has_suffix s suffix in bytes_eq (c ∷ s) suffix || rest

-- `getImageName`: the image of the last container
abbrev pub image_name : List (Bytes × Bytes) → Bytes → Bytes
image_name [] image = image
image_name ((name, image) ∷ containers) last = image_name containers image

-- The image of the last container of a name
abbrev pub image_of : Bytes → List (Bytes × Bytes) → Bytes → Bytes
image_of wanted [] image = image
image_of wanted ((name, image) ∷ containers) last =
    image_of wanted containers (if bytes_eq name wanted then image else last)

-- The last resource of a name, or the zero value
abbrev pub resource_of : Bytes → List RelatedResource → RelatedResource → RelatedResource
resource_of name [] deploy = deploy
resource_of name (item ∷ items) deploy =
    resource_of name items (if bytes_eq item.name name then item else deploy)

abbrev pub zero_resource : RelatedResource
zero_resource = record { resource = []; name = []; namespace = [] }

abbrev pub pre : Bytes → Bytes
pre name =
    if has_suffix name (bytes "agent")
    then bytes "Agent:"
    else if has_suffix name (bytes "controller")
    then bytes "Controller:"
    else if has_suffix name (bytes "webhook")
    then bytes "Webhook:"
    else []

-- "%s\t(%d/%d) %s\n"
abbrev pub ratio_line : Bytes → Bytes → Bytes → Bytes → Bytes
ratio_line title first second image =
    title ++ bytes "\t(" ++ first ++ b'/' ∷ (second ++ bytes ") " ++ image ++ bytes "\n")

module _ (X : Errors) (server : Server Call Answer X.Error) where
  -- `PrintComponentsDeploy`, by the answer to the read of the deployment
  unfoldable pub print_deploy : Bytes → Result X.Error Deployment → Prog Call X.Error (Unit {0})
  unfolding write
  print_deploy name (err e) = if X.is_not_found e then pure tt else fail e
  print_deploy name (ok deploy) = write X server 2 (
      ratio_line (pre name) (decimal deploy.replicas) (decimal deploy.available)
        (image_name deploy.containers (bytes "<none>")))

  -- `PrintComponentsDeploy`
  unfoldable pub print_components_deploy :
      List RelatedResource → Bytes → Prog Call X.Error (Unit {0})
  unfolding print_deploy
  print_components_deploy resources name =
      let deploy = resource_of name resources zero_resource in
      attempt (call server (get_deployment deploy.namespace deploy.name)) >>= print_deploy name
