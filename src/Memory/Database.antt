-- ===== src/Memory/Database.antt =====
-- The database file of correlation/engine/state.py: `__init__`, `_init_schema`, `_migrate`,
-- `record_model_version` and `record_mistake`.
pub mod Migration
use abb_accelerator_aiops.Prelude.{
  ℕ, ◌+◌, Bool, true, false, ◌&&◌, String, str_eq, Option, none, some, List, [], ◌∷◌, ◌++◌, map,
  any, filter, length, if◌then◌else◌,
}
use abb_accelerator_aiops.Float.{Float, lit}
use abb_accelerator_aiops.Memory.{MemoryConfig, EdgeRow}
use abb_accelerator_aiops.Memory.Similarity.{CaseRow}
use abb_accelerator_aiops.Memory.Cases.{CaseLibrary}
use abb_accelerator_aiops.Memory.Passes.{Memory, empty_memory}

abbrev pub schema_version : String
schema_version = "l3-memory-v5"

-- A row of model_versions; component, version and params_json are unique together.
pub record ModelVersion (F : Type 0) : Type 0 where
  pub ts : F
  pub component : String
  pub version : String
  pub params_json : String
  pub notes : String

-- A row of mistakes.
pub record Mistake (F : Type 0) : Type 0 where
  pub ts : F
  pub incident_id : Option String
  pub predicted_json : String
  pub correction_json : String
  pub notes : String
  pub status : String

-- What a file holds. A table that it has not is an empty one, which `CREATE TABLE IF NOT EXISTS` makes with
-- all columns; a table of an older version may lack the column base_conf or family_id, and then its rows'
-- values for it say nothing.
pub record Database (F : Type 0) : Type 0 where
  pub version : Option String
  pub has_base_conf : Bool
  pub has_family_id : Bool
  pub memory : Memory F
  pub model_versions : List (ModelVersion F)
  pub mistakes : List (Mistake F)

abbrev pub new_file : {F : Type 0} → Database F
new_file = record {
  version = none;
  has_base_conf = true;
  has_family_id = true;
  memory = empty_memory;
  model_versions = [];
  mistakes = [];
}

-- `prev == …`, where `prev` may be None
abbrev pub is_version : String → Option String → Bool
is_version v none = false
is_version v (some w) = str_eq w v

module _ {F : Type 0} where
  -- UPDATE cases SET family_id=id WHERE family_id IS NULL, after the column came with NULL in every row
  abbrev pub own_family : CaseRow F → CaseRow F
  own_family row = record row { family_id = some row.id }

  unfoldable pub with_families : Bool → List (CaseRow F) → List (CaseRow F)
  with_families true cases = cases
  with_families false cases = map own_family cases

  -- INSERT OR IGNORE
  unfoldable pub record_model_version : ModelVersion F → Database F → Database F
  record_model_version row db =
      if any
        (λ (old : ModelVersion F).
          str_eq old.component row.component
          && (str_eq old.version row.version && str_eq old.params_json row.params_json))
        db.model_versions
      then db
      else record db { model_versions = db.model_versions ++ row ∷ [] }

  unfoldable pub record_mistake :
      F → String → String → Option String → String → Database F → Database F
  record_mistake ts predicted correction incident_id notes db = record db {
    mistakes =
        db.mistakes
        ++ record {
          ts = ts;
          incident_id = incident_id;
          predicted_json = predicted;
          correction_json = correction;
          notes = notes;
          status = "open";
        }
          ∷ [];
  }

  -- SELECT COUNT(*) FROM mistakes WHERE status='open'
  unfoldable pub open_mistakes : Database F → ℕ
  open_mistakes db = length (filter (λ (m : Mistake F). str_eq m.status "open") db.mistakes)

module _ {F : Type 0} ⦃f : Float F⦄ where
  -- ALTER TABLE edge_memory ADD COLUMN base_conf REAL NOT NULL DEFAULT 0
  unfoldable pub with_base_conf : Bool → List (EdgeRow F) → List (EdgeRow F)
  with_base_conf true rows = rows
  with_base_conf false rows = map (λ (row : EdgeRow F). record row { base_conf = lit 0 0 }) rows

  -- The rows of version 1 have the names of pods, and go.
  unfoldable pub cleared : Option String → List (EdgeRow F) → List (EdgeRow F)
  cleared prev rows = if is_version "l3-memory-v1" prev then [] else rows

  -- What `_migrate` makes of a file of another version.
  unfoldable pub migrated : Database F → Database F
  unfolding with_families with_base_conf cleared
  migrated db = record {
    version = some schema_version;
    has_base_conf = true;
    has_family_id = true;
    memory = record {
      edge_memory = with_base_conf db.has_base_conf (cleared db.version db.memory.edge_memory);
      library = record {
        cases = with_families db.has_family_id db.memory.library.cases;
        observations = db.memory.library.observations;
      };
      graph_snapshots = db.memory.graph_snapshots;
      baselines = db.memory.baselines;
    };
    model_versions = db.model_versions;
    mistakes = db.mistakes;
  }

  unfoldable pub migrate : Database F → Database F
  unfolding migrated
  migrate db = if is_version schema_version db.version then db else migrated db

  -- `GraphMemory(db_path, config)` on a file; `params` is the JSON of the five parameters of the configuration.
  unfoldable pub opened : (MemoryConfig F → String) → MemoryConfig F → F → Database F → Database F
  unfolding migrate record_model_version
  opened params cfg ts db =
      record_model_version
        (record {
          ts = ts;
          component = "edge-memory";
          version = schema_version;
          params_json = params cfg;
          notes = "Persistent L3 memory: edge confidence, cases, model versions, mistakes.";
        })
        (migrate db)
