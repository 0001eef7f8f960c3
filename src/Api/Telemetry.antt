-- ===== src/Api/Telemetry.antt =====
-- The telemetry handlers of api/main.py: the snapshot of the workloads, and the series of one of them.
pub mod Snapshot
pub mod Climb
pub mod Current
pub mod Answers
use Prim.Native.String
use abb_accelerator_aiops.Prelude.{
  Bool, true, false, ◌&&◌, String, str_eq, Option, none, some, List, [], ◌∷◌, ◌++◌, map, has,
  sorted, Dict, get, put, if◌then◌else◌,
}
use abb_accelerator_aiops.Float.{Float, lit, neg, lt, max, round}
use abb_accelerator_aiops.Window.{Sample, Window, Series, series_of}
use abb_accelerator_aiops.Api.{
  Fetched, fetched, failed, Response, ok, http_error, Flagged, Verdict, relayed, workload,
}

-- A row of the snapshot.
pub record PodRow (F : Type 0) : Type 0 where
  pub workload : String
  pub namespace : String
  pub signal : String
  pub value : F
  pub anomalous : Bool

-- The newest sample of a pod, under its workload's name.
pub record Reading (F : Type 0) : Type 0 where
  pub workload : String
  pub namespace : String
  pub value : F

newest : {F : Type 0} → Sample F → List (Sample F) → Sample F
newest s [] = s
newest s (t ∷ samples) = newest t samples

module _ {F : Type 0} ⦃f : Float F⦄ where
  reading_of : Option Series → String → List (Sample F) → List (Reading F)
  unfolding newest
  reading_of (some key) signal (s ∷ samples) =
      if str_eq key.signal signal
      then record {
        workload = workload key.pod;
        namespace = key.namespace;
        value = (newest s samples).value;
      }
        ∷ []
      else []
  reading_of _ signal _ = []

  -- The entries that the loop does not skip.
  unfoldable pub readings : String → Window F → List (Reading F)
  unfolding reading_of
  readings signal [] = []
  readings signal ((key, samples) ∷ window) =
      reading_of (series_of key) signal samples ++ readings signal window

  module _ (signal : String) (flagged : List String) where
    -- `out.setdefault(w, {…})`
    abbrev pub fresh : Reading F → PodRow F
    fresh r = record {
      workload = r.workload;
      namespace = r.namespace;
      signal = signal;
      value = lit 0 0;
      anomalous = false;
    }

    abbrev pub raised : Reading F → PodRow F → PodRow F
    raised r cur = record cur {
      value = round 4 (max cur.value r.value);
      anomalous = has r.workload flagged;
    }

    -- What one reading makes of its workload's row.
    abbrev pub read : Reading F → Option (PodRow F) → PodRow F
    read r none = raised r (fresh r)
    read r (some cur) = raised r cur

    unfoldable pub read_all : List (Reading F) → Dict (PodRow F) → Dict (PodRow F)
    read_all [] out = out
    read_all (r ∷ rs) out = read_all rs (put r.workload (read r (get r.workload out)) out)

  -- `sorted(…, key=lambda p: -p["value"])`
  abbrev pub hotter : PodRow F → PodRow F → Bool
  hotter a b = lt (neg a.value) (neg b.value)

  -- `{workload(f["pod"]) for f in …}`, empty where the engine is not reached
  unfoldable pub flagged_by : Fetched (Verdict F) → List String
  flagged_by (fetched g) = map (λ (x : Flagged F). workload x.pod) g.findings
  flagged_by (failed e) = []

  abbrev pub snapshot : String → List String → Window F → List (PodRow F)
  snapshot signal flagged window =
      sorted hotter
        (map (λ (e : String × PodRow F). e.1) (read_all signal flagged (readings signal window) []))

  unfoldable pub pods :
      String → Fetched (Window F) → Fetched (Verdict F) → Response (List (PodRow F))
  unfolding relayed
  pods signal window engine =
      relayed "aggregator" (λ w. ok (snapshot signal (flagged_by engine) w)) window

  -- The condition of the loop of `signal`: the samples of a series of this workload.
  abbrev pub is_series : String → String → Option Series → List (Sample F) → Bool
  is_series pod signal (some key) (s ∷ samples) =
      str_eq key.signal signal && str_eq (workload key.pod) pod
  is_series pod signal _ _ = false

  pub series : String → String → Window F → Response (List (Sample F))
  series pod signal [] = http_error 404 (
      String.◌++◌ "no '"
        (String.◌++◌ signal (String.◌++◌ "' series for workload '" (String.◌++◌ pod "'"))))
  series pod signal ((key, samples) ∷ window) =
      if is_series pod signal (series_of key) samples then ok samples else series pod signal window

  unfoldable pub signal : String → String → Fetched (Window F) → Response (List (Sample F))
  unfolding relayed series
  signal pod name window = relayed "aggregator" (series pod name) window
