-- ===== src/Memory/Database/Migration.antt =====
-- What opening a database of correlation/engine/state.py keeps of it, and that a restart changes nothing.
use abb_accelerator_aiops.Prelude.{
  ◌≡◌, refl, ap, sym, ◌∙◌, Bool, true, false, ◌&&◌, ◌||◌, String, str_eq, str_eq_iff, Option, none,
  some, List, [], ◌∷◌, ◌++◌, map, any, arith, Bool-cases, inl, inr, if◌then◌else◌, if_rule,
}
use abb_accelerator_aiops.Float.{Float, lit}
use abb_accelerator_aiops.Memory.{MemoryConfig, EdgeRow}
use abb_accelerator_aiops.Memory.Similarity.{CaseRow}
use abb_accelerator_aiops.Memory.Cases.Outcome.{ids}
use abb_accelerator_aiops.Memory.Database.{
  schema_version, ModelVersion, Database, is_version, with_families, with_base_conf, cleared,
  record_model_version, migrated, migrate, opened,
}

any-append_last :
    {A : Type 0} (p : A → Bool) (xs : List A) (x : A) → p x ≡ true → any p (xs ++ x ∷ []) ≡ true
any-append_last p [] x h = rw h refl
any-append_last p (y ∷ xs) x h = ground (arith, any-append_last p xs x h)

map-if :
    {A B : Type 0} (g : A → B) (b : Bool) (xs : List A)
    → map g (if b then [] else xs) ≡ (if b then [] else map g xs)
map-if g true xs = refl
map-if g false xs = refl

is_version-some : (v : String) (w : Option String) → is_version v w ≡ true → w ≡ some v
is_version-some v none h = cc
is_version-some v (some w) h = ap some ((str_eq_iff w v).0 h)

module _ {F : Type 0} where
  -- The unique index has the row's key.
  abbrev same_key : ModelVersion F → ModelVersion F → Bool
  same_key row old =
      str_eq old.component row.component
      && (str_eq old.version row.version && str_eq old.params_json row.params_json)

  abbrev is_recorded : ModelVersion F → Database F → Bool
  is_recorded row db = any (same_key row) db.model_versions

  version-record :
      (row : ModelVersion F) (db : Database F) → (record_model_version row db).version ≡ db.version
  unfolding record_model_version
  version-record row db =
      if_rule (λ (d : Database F). d.version ≡ db.version) (is_recorded row db) {x = db}
        {y = record db { model_versions = db.model_versions ++ row ∷ [] }} refl refl

  record_of_recorded :
      (row : ModelVersion F) (db : Database F)
      → is_recorded row db ≡ true
      → record_model_version row db ≡ db
  unfolding record_model_version
  record_of_recorded row db h = rw h refl

  is_recorded-record :
      (row : ModelVersion F) (db : Database F)
      → is_recorded row (record_model_version row db) ≡ true
  unfolding record_model_version
  is_recorded-record row db = elim (Bool-cases (is_recorded row db)) [
    | inl e ↦ rw e e
    | inr e ↦ rw e (
        any-append_last (same_key row) db.model_versions row (
          ground (
            arith,
            str_eq_iff row.component row.component,
            str_eq_iff row.version row.version,
            str_eq_iff row.params_json row.params_json,
          )))
  ]

module _ {F : Type 0} ⦃f : Float F⦄ where
  migrate_current : (db : Database F) → db.version ≡ some schema_version → migrate db ≡ db
  unfolding migrate
  migrate_current db h = ap (λ v. if is_version schema_version v then db else migrated db) h

  version-migrate : (db : Database F) → (migrate db).version ≡ some schema_version
  unfolding migrate migrated
  version-migrate db = elim (Bool-cases (is_version schema_version db.version)) [
    | inl e ↦ rw e (is_version-some schema_version db.version e)
    | inr e ↦ rw e refl
  ]

  -- A row of edge_memory without its floor.
  abbrev pub bare : EdgeRow F → EdgeRow F
  bare row = record row { base_conf = lit 0 0 }

  bare-with_base_conf :
      (b : Bool) (rows : List (EdgeRow F)) → map bare (with_base_conf b rows) ≡ map bare rows
  unfolding with_base_conf
  bare-with_base_conf true rows = refl
  bare-with_base_conf false [] = refl
  bare-with_base_conf false (row ∷ rows) = ap (λ rs. bare row ∷ rs) (bare-with_base_conf false rows)

  ids-with_families :
      (b : Bool) (cases : List (CaseRow F)) → ids (with_families b cases) ≡ ids cases
  unfolding with_families
  ids-with_families true cases = refl
  ids-with_families false [] = refl
  ids-with_families false (c ∷ cases) = ap (λ is. c.id ∷ is) (ids-with_families false cases)

  families-with_families :
      (b : Bool) (cases : List (CaseRow F))
      → map (λ (c : CaseRow F). c.family_id) (with_families b cases) ≡ (
          if b
          then map (λ (c : CaseRow F). c.family_id) cases
          else map (λ (c : CaseRow F). some c.id) cases)
  unfolding with_families
  families-with_families true cases = refl
  families-with_families false [] = refl
  families-with_families false (c ∷ cases) =
      ap (λ fs. some c.id ∷ fs) (families-with_families false cases)

  -- What a database keeps when `db'` is made of it.
  pub record IsUpgrade (db db' : Database F) : Type 0 where
    pub version : db'.version ≡ some schema_version
    pub cases : ids db'.memory.library.cases ≡ ids db.memory.library.cases
    pub families : map (λ (c : CaseRow F). c.family_id) db'.memory.library.cases ≡ (
        if is_version schema_version db.version || db.has_family_id
        then map (λ (c : CaseRow F). c.family_id) db.memory.library.cases
        else map (λ (c : CaseRow F). some c.id) db.memory.library.cases)
    pub observations : db'.memory.library.observations ≡ db.memory.library.observations
    pub snapshots : db'.memory.graph_snapshots ≡ db.memory.graph_snapshots
    pub baselines : db'.memory.baselines ≡ db.memory.baselines
    pub mistakes : db'.mistakes ≡ db.mistakes
    pub edges :
        map bare db'.memory.edge_memory
        ≡ (if is_version "l3-memory-v1" db.version then [] else map bare db.memory.edge_memory)

  migrated-IsUpgrade :
      (db : Database F) → is_version schema_version db.version ≡ false → IsUpgrade db (migrated db)
  unfolding migrated cleared
  migrated-IsUpgrade db old = record {
    version = refl;
    cases = ids-with_families db.has_family_id db.memory.library.cases;
    families = rw old (families-with_families db.has_family_id db.memory.library.cases);
    observations = refl;
    snapshots = refl;
    baselines = refl;
    mistakes = refl;
    edges =
        bare-with_base_conf db.has_base_conf (cleared db.version db.memory.edge_memory)
        ∙ map-if bare (is_version "l3-memory-v1" db.version) db.memory.edge_memory;
  }

  current-IsUpgrade : (db : Database F) → db.version ≡ some schema_version → IsUpgrade db db
  current-IsUpgrade db h = record {
    version = h;
    cases = refl;
    families =
        ap
          (λ v.
            if is_version schema_version v || db.has_family_id
            then map (λ (c : CaseRow F). c.family_id) db.memory.library.cases
            else map (λ (c : CaseRow F). some c.id) db.memory.library.cases)
          (sym h);
    observations = refl;
    snapshots = refl;
    baselines = refl;
    mistakes = refl;
    edges =
        ap (λ v. if is_version "l3-memory-v1" v then [] else map bare db.memory.edge_memory)
          (sym h);
  }

  migrate-IsUpgrade : (db : Database F) → IsUpgrade db (migrate db)
  unfolding migrate
  migrate-IsUpgrade db = elim (Bool-cases (is_version schema_version db.version)) [
    | inl e ↦ rw e (current-IsUpgrade db (is_version-some schema_version db.version e))
    | inr e ↦ rw (e, migrate) (migrated-IsUpgrade db e)
  ]

  record-IsUpgrade :
      (row : ModelVersion F) (db db' : Database F)
      → IsUpgrade db db'
      → IsUpgrade db (record_model_version row db')
  unfolding record_model_version
  record-IsUpgrade row db db' u = if_rule (IsUpgrade db) (is_recorded row db') u (record {
    version = u.version;
    cases = u.cases;
    families = u.families;
    observations = u.observations;
    snapshots = u.snapshots;
    baselines = u.baselines;
    mistakes = u.mistakes;
    edges = u.edges;
  })

  module _ (params : MemoryConfig F → String) (cfg : MemoryConfig F) where
    -- A database that is opened a second time with the same configuration, at any time, stays
    -- as the first opening left it, whatever the file was.
    pub opened-idempotent :
        (ts later : F) (db : Database F)
        → opened params cfg later (opened params cfg ts db) ≡ opened params cfg ts db
    unfolding opened
    opened-idempotent ts later db =
        let row : F → ModelVersion F = λ t. record {
          ts = t;
          component = "edge-memory";
          version = schema_version;
          params_json = params cfg;
          notes = "Persistent L3 memory: edge confidence, cases, model versions, mistakes.";
        } in
        let db' = record_model_version (row ts) (migrate db) in
        let current = version-record (row ts) (migrate db) ∙ version-migrate db in
        ap (record_model_version (row later)) (migrate_current db' current)
        ∙ record_of_recorded (row later) db' (is_recorded-record (row ts) (migrate db))

    -- A database that is opened has the current version. The ids of its cases, its
    -- observations, snapshots, baselines and mistakes are those of the file, and so are the
    -- rows of edge_memory but for their floors, unless the file is of the first version: then
    -- edge_memory is empty. The families of its cases are those of the file, unless the file is
    -- of another version and has no families: then each case is its own.
    pub opened-IsUpgrade : (ts : F) (db : Database F) → IsUpgrade db (opened params cfg ts db)
    unfolding opened
    opened-IsUpgrade ts db = record-IsUpgrade _ db (migrate db) (migrate-IsUpgrade db)
