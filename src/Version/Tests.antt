-- ===== src/Version/Tests.antt =====
-- The bundles at a release and at an unknown version.
use clusteradm.Base.{◌≡◌, refl}
use clusteradm.Effect.{ok}
use clusteradm.Errors.{status_errors}
use clusteradm.Version.{VersionBundle, trim_v, version_bundle, get_version_bundle}

abbrev release : VersionBundle
release = record {
  registration = "v0.9.0";
  placement = "v0.9.0";
  work = "v0.9.0";
  operator = "v0.9.1";
  app_addon = "v0.9.0";
  policy_addon = "v0.9.0";
}

found : get_version_bundle status_errors "v0.9.1" ≡ ok release
unfolding get_version_bundle version_bundle trim_v
found = refl
