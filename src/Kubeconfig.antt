-- ===== src/Kubeconfig.antt =====
-- A kubeconfig, as the commands build and check it: `Config` of k8s.io/client-go/tools/clientcmd/api/v1.
use clusteradm.Base.{Bool, String, Option, List}

-- A named cluster with its fields; `none` is a nil certificate.
pub record Cluster : Type 0 where
  pub name : String
  pub server : String
  pub insecure_skip_tls_verify : Bool
  pub certificate_authority_data : Option String

pub record AuthInfo : Type 0 where
  pub name : String
  pub token : String

pub record Context : Type 0 where
  pub name : String
  pub cluster : String
  pub auth_info : String
  pub namespace : String

pub record Config : Type 0 where
  pub clusters : List Cluster
  pub auth_infos : List AuthInfo
  pub contexts : List Context
  pub current_context : String
