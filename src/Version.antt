-- ===== src/Version.antt =====
-- pkg/helpers/version/version.go: the image versions of a release.
pub mod Laws
mod Tests
use Prim.Native.Char.{code}
use clusteradm.Base.{String, ◌<>◌, Option, none, some, List, [], ◌∷◌, text_eq, ◌==◌, if◌then◌else◌}
use clusteradm.Effect.{Result, ok, err}
use clusteradm.Errors.{Errors}

pub record VersionBundle : Type 0 where
  pub registration : String
  pub placement : String
  pub work : String
  pub operator : String
  pub app_addon : String
  pub policy_addon : String

abbrev pub default_bundle_version : String
default_bundle_version = "0.9.1"

abbrev pub latest : VersionBundle
latest = record {
  registration = "latest";
  placement = "latest";
  work = "latest";
  operator = "latest";
  app_addon = "latest";
  policy_addon = "latest";
}

-- The map before its default is set.
abbrev pub predefined : List (String × VersionBundle)
predefined =
    ("latest", latest)
    ∷ (
      "0.5.0",
      record {
        registration = "v0.5.0";
        placement = "v0.2.0";
        work = "v0.5.0";
        operator = "v0.5.0";
        app_addon = "v0.5.0";
        policy_addon = "v0.8.0";
      },
    )
    ∷ (
      "0.6.0",
      record {
        registration = "v0.6.0";
        placement = "v0.3.0";
        work = "v0.6.0";
        operator = "v0.6.0";
        app_addon = "v0.6.0";
        policy_addon = "v0.8.0";
      },
    )
    ∷ (
      "0.7.0",
      record {
        registration = "v0.7.0";
        placement = "v0.4.0";
        work = "v0.7.0";
        operator = "v0.7.0";
        app_addon = "v0.7.0";
        policy_addon = "v0.8.0";
      },
    )
    ∷ (
      "0.8.0",
      record {
        registration = "v0.8.0";
        placement = "v0.8.0";
        work = "v0.8.0";
        operator = "v0.8.0";
        app_addon = "v0.8.0";
        policy_addon = "v0.8.0";
      },
    )
    ∷ (
      "0.9.0",
      record {
        registration = "v0.9.0";
        placement = "v0.9.0";
        work = "v0.9.0";
        operator = "v0.9.0";
        app_addon = "v0.9.0";
        policy_addon = "v0.9.0";
      },
    )
    ∷ (
      "0.9.1",
      record {
        registration = "v0.9.0";
        placement = "v0.9.0";
        work = "v0.9.0";
        operator = "v0.9.1";
        app_addon = "v0.9.0";
        policy_addon = "v0.9.0";
      },
    )
    ∷ []

-- A map's value at a key.
abbrev pub bundle_of : String → List (String × VersionBundle) → Option VersionBundle
bundle_of version [] = none
bundle_of version ((key, bundle) ∷ more) =
    let rest = bundle_of version more in if text_eq key version then some bundle else rest

-- `versionBundleList[version]`; a missing default would be the zero value.
unfoldable pub version_bundle : String → Option VersionBundle
version_bundle version =
    if text_eq "default" version
    then bundle_of default_bundle_version predefined
    else bundle_of version predefined

-- `strings.TrimPrefix(version, "v")`
unfoldable pub trim_v : String → String
trim_v String.[] = ""
trim_v (String.◌∷◌ c s) = if code c == b'v' then s else String.◌∷◌ c s

module _ (X : Errors) where
  open X use {Error, errorf}

  abbrev pub found_or_error : String → Option VersionBundle → Result Error VersionBundle
  found_or_error version none =
      err (errorf ("couldn't find the requested version bundle: " <> version))
  found_or_error version (some bundle) = ok bundle

  -- `GetVersionBundle`
  unfoldable pub get_version_bundle : String → Result Error VersionBundle
  unfolding trim_v version_bundle
  get_version_bundle version = found_or_error (trim_v version) (version_bundle (trim_v version))
