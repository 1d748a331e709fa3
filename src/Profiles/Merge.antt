-- ===== src/Profiles/Merge.antt =====
-- The raw profiles of crates/clawcrate-profiles/src/lib.rs and how an overlay is merged over its
-- base.
use claw_crate.Base.{ℕ, Text, Option, none, some, List, FilePath}

pub record RawFilesystem : Type 0 where
  pub read : Option (List Text)
  pub write : Option (List Text)
  pub deny : Option (List Text)

pub record RawEnvironment : Type 0 where
  pub scrub : Option (List Text)
  pub passthrough : Option (List Text)

pub record RawResources : Type 0 where
  pub max_cpu_seconds : Option ℕ
  pub max_memory_mb : Option ℕ
  pub max_open_files : Option ℕ
  pub max_processes : Option ℕ
  pub max_output_bytes : Option ℕ

pub record RawNetworkConfig : Type 0 where
  pub mode : Text
  pub allowed_domains : List Text

pub data RawNetwork : Type 0 where
  string : Text → RawNetwork
  config : RawNetworkConfig → RawNetwork

pub record RawProfile : Type 0 where
  pub name : Option Text
  pub extends : Option Text
  pub default_mode : Option Text
  pub filesystem : RawFilesystem
  pub network : Option RawNetwork
  pub environment : RawEnvironment
  pub resources : RawResources

pub record InheritedProfile : Type 0 where
  pub name : Option Text
  pub default_mode : Option Text
  pub filesystem : RawFilesystem
  pub network : Option RawNetwork
  pub environment : RawEnvironment
  pub resources : RawResources
  pub source_path : FilePath

abbrev pub from_raw : RawProfile → FilePath → InheritedProfile
from_raw raw source_path = record {
  name = raw.name;
  default_mode = raw.default_mode;
  filesystem = raw.filesystem;
  network = raw.network;
  environment = raw.environment;
  resources = raw.resources;
  source_path = source_path;
}

-- `Option::or`.
abbrev pub or : {A : Type 0} → Option A → Option A → Option A
or none other = other
or (some a) other = some a

unfoldable pub merge_profiles : InheritedProfile → InheritedProfile → InheritedProfile
merge_profiles base overlay = record {
  name = or overlay.name base.name;
  default_mode = or overlay.default_mode base.default_mode;
  filesystem = record {
    read = or overlay.filesystem.read base.filesystem.read;
    write = or overlay.filesystem.write base.filesystem.write;
    deny = or overlay.filesystem.deny base.filesystem.deny;
  };
  network = or overlay.network base.network;
  environment = record {
    scrub = or overlay.environment.scrub base.environment.scrub;
    passthrough = or overlay.environment.passthrough base.environment.passthrough;
  };
  resources = record {
    max_cpu_seconds = or overlay.resources.max_cpu_seconds base.resources.max_cpu_seconds;
    max_memory_mb = or overlay.resources.max_memory_mb base.resources.max_memory_mb;
    max_open_files = or overlay.resources.max_open_files base.resources.max_open_files;
    max_processes = or overlay.resources.max_processes base.resources.max_processes;
    max_output_bytes = or overlay.resources.max_output_bytes base.resources.max_output_bytes;
  };
  source_path = overlay.source_path;
}
