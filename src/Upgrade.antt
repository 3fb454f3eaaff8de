-- ===== src/Upgrade.antt =====
-- pkg/cmd/upgrade/clustermanager/exec.go and pkg/cmd/upgrade/klusterlet/exec.go.
pub mod ClusterManager
pub mod Klusterlet
pub mod Ordered
mod Tests
use clusteradm.Base.{Bool, String}
use clusteradm.Version.{VersionBundle}

-- The options of both commands, after their `complete`.
pub record Options : Type 0 where
  pub dry_run : Bool
  pub wait : Bool
  pub registry : String
  pub bundle_version : String

-- The values for the templates.
pub record Values : Type 0 where
  pub cluster_name : String
  pub registry : String
  pub bundle : VersionBundle
