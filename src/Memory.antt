-- ===== src/Memory.antt =====
-- correlation/engine/state.py: the persistent memory of the engine. This file has the configuration
-- and the tables of the SQLite database, each as the list of its rows in the order of their rowids.
pub mod Edges
pub mod Similarity
pub mod Cases
pub mod Baselines
pub mod Passes
pub mod Render
pub mod Database
use abb_accelerator_aiops.Prelude.{ℕ, Bool, String, Option, List}
use abb_accelerator_aiops.Gate.{Evidence}
use abb_accelerator_aiops.Float.{Float, lit}

-- `MemoryConfig`
pub record MemoryConfig (F : Type 0) : Type 0 where
  pub signal : String
  pub alpha : F
  pub decay : F
  pub show : F
  pub hide : F
  pub prior : F
  pub floor_frac : F
  pub tau_merge : F
  pub tau_family : F
  pub base_alpha : F
  pub dev_k : F
  pub mad_floor : F
  pub base_min_n : ℕ

abbrev pub default_config : {F : Type 0} ⦃f : Float F⦄ → MemoryConfig F
default_config = record {
  signal = "psi_io";
  alpha = lit 4 1;
  decay = lit 1 1;
  show = lit 6 1;
  hide = lit 25 2;
  prior = lit 2 1;
  floor_frac = lit 4 1;
  tau_merge = lit 85 2;
  tau_family = lit 60 2;
  base_alpha = lit 5 2;
  dev_k = lit 4 0;
  mad_floor = lit 1 2;
  base_min_n = 12;
}

-- The column `state` of edge_memory.
pub data EdgeState : Type 0 where
  active confirming steady decaying hidden : EdgeState

-- A row of edge_memory; its primary key is (src, dst, signal).
pub record EdgeRow (F : Type 0) : Type 0 where
  pub src : String
  pub dst : String
  pub signal : String
  pub confidence : F
  pub r : F
  pub lag_s : ℕ
  pub evidence : List Evidence
  pub hits : ℕ
  pub visible : Bool
  pub state : EdgeState
  pub first_seen_ts : F
  pub last_seen_ts : F
  pub updated_ts : F
  pub base_conf : F
