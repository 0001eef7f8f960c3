-- ===== src/Tests/Services.antt =====
-- Runs of the service, correlation/service.py, and of its database.
use abb_accelerator_aiops.Prelude.{◌≡◌, false, String, Option, some, [], ◌∷◌}
use abb_accelerator_aiops.Float.Milli.{ℤ, pos, milli}
use abb_accelerator_aiops.Memory.{MemoryConfig}
use abb_accelerator_aiops.Memory.Database.{Database, opened}
use abb_accelerator_aiops.Memory.Database.Migration.{IsUpgrade, opened-idempotent, opened-IsUpgrade}
use abb_accelerator_aiops.Service.Inputs.{ServiceConfig}
use abb_accelerator_aiops.Service.{Surroundings}
use abb_accelerator_aiops.Tests.Fixtures.{quantiles, arrays, stats, digraph, config, digest}
use abb_accelerator_aiops.Tests.Memories.{stormed}

-- A database of the first version, with rows by pod names.
abbrev old_file : Database ℤ
old_file = record {
  version = some "l3-memory-v1";
  has_base_conf = false;
  has_family_id = false;
  memory = stormed;
  model_versions = [];
  mistakes = [];
}

abbrev params : MemoryConfig ℤ → String
params cfg = "{\"alpha\":0.4}"

opened-idempotent_example :
    opened params config (pos 9000) (opened params config (pos 8000) old_file)
    ≡ opened params config (pos 8000) old_file
opened-idempotent_example = opened-idempotent params config (pos 8000) (pos 9000) old_file

opened-IsUpgrade_example : IsUpgrade old_file (opened params config (pos 8000) old_file)
opened-IsUpgrade_example = opened-IsUpgrade params config (pos 8000) old_file

abbrev pub svc : ServiceConfig ℤ
svc = record {
  signal = "psi_io";
  write_signal = "io_write";
  copr_min = pos 100;
  analysis_window = 36;
  grid_step_s = pos 5000;
  storage = "log-archiver" ∷ "timescaledb" ∷ [];
}

-- A stand-in for the reading of stamps: every sample is of one instant.
abbrev epoch : String → Option ℤ
epoch ts = some (pos 5000)

abbrev pub around : Surroundings ℤ
around = record {
  np = record { arrays = arrays; quantiles = quantiles; stats = stats };
  nx = digraph;
  digest = digest;
  epoch = epoch;
  fuel = 40;
  open_mistakes = 0;
}
