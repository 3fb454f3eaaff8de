-- ===== src/Get/Addon/Tests.antt =====
-- A cluster with two add-ons of which one has a work.
use clusteradm.Base.{◌≡◌, Bytes, bytes, none, List, [], ◌∷◌, ◌++◌}
use clusteradm.Effect.{ok, request, Server}
use clusteradm.Errors.{Status, status_errors}
use clusteradm.Printer.TreePrinter.{Gotree}
use clusteradm.Get.Addon.{
  Addon, Tools, Call, Answer, list_clusters, list_addons, list_works, Options, addon_label,
  print_addon_tree,
}
use clusteradm.Get.Addon.Laws.{addon_run, print_addon_tree-eq-addon_run}

abbrev tools : Tools
tools = record {
  blue = λ s. s;
  bold = λ s. s;
  red = λ s. s;
  find_status_condition = λ conditions kind. none;
  group_resource = λ group resource. resource ++ b'.' ∷ group;
  visit = λ m. m;
  set_list = λ xs. xs;
}

-- A tree is its lines.
abbrev lines : Gotree
lines = record {
  Tree = List Bytes;
  new = λ line. line ∷ [];
  add_tree = λ tree sub. tree ++ sub;
  print_tree = λ tree. "lines";
}

abbrev addon : Bytes → Addon
addon name = record { name = name; namespace = bytes "c1"; conditions = [] }

abbrev hub : Server Call Answer Status
hub h list_clusters = ok (bytes "c1" ∷ [])
hub h list_addons = ok (addon (bytes "work-manager") ∷ addon (bytes "proxy") ∷ [])
hub h (list_works selector) = ok (
    record { namespace = bytes "c1"; labels = (addon_label, bytes "proxy") ∷ []; manifests = [] }
    ∷ [])

abbrev options : Options
options = record { clusters = []; addons = [] }

print_addon_tree-eq-addon_run_example :
    print_addon_tree status_errors tools lines hub options (bytes "c1" ∷ []) []
    ≡ addon_run status_errors tools lines hub options
        (bytes "c1" ∷ [])
        (hub [] list_addons)
        (hub (request list_addons ∷ []) (list_works addon_label))
print_addon_tree-eq-addon_run_example =
    print_addon_tree-eq-addon_run status_errors tools lines hub options (bytes "c1" ∷ []) []
