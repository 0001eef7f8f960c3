-- ===== src/Tests/Gateway.antt =====
-- Requests to the gateway, api/main.py.
use abb_accelerator_aiops.Prelude.{◌≤◌, ◌≡◌, refl, true, some, none, [], ◌∷◌, length, List}
use abb_accelerator_aiops.Float.Milli.{ℤ, pos, milli, milli-IsOrdered}
use abb_accelerator_aiops.Window.{Window}
use abb_accelerator_aiops.Api.{fetched, failed, Verdict}
use abb_accelerator_aiops.Api.Template.{template_narrative, number}
use abb_accelerator_aiops.Api.Template.Cites.{IsSentence, template_narrative-IsSentence}
use abb_accelerator_aiops.Api.Narrative.{Env, Poll, narrative}
use abb_accelerator_aiops.Api.Narrative.Faithful.{started, polled, IsAnswer, narrative-IsAnswer}
use abb_accelerator_aiops.Api.Telemetry.{PodRow, snapshot}
use abb_accelerator_aiops.Api.Telemetry.Climb.{RoundsToDecimal}
use abb_accelerator_aiops.Api.Telemetry.Current.{IsCurrent, snapshot-IsCurrent}

abbrev env : Env
env = record { has_host = true; model = "gemma4:e4b"; signal = "psi_io" }

-- The engine's graph in a storm.
abbrev storm : Verdict ℤ
storm = record {
  root = record { pod = "log-archiver-7d9f-x1"; score = some (pos 1000); onset_s = none } ∷ [];
  edges =
      record {
        src = "log-archiver-7d9f-x1";
        dst = "timescaledb-5c4b-q2";
        r = pos 900;
        lag_s = 15;
        evidence = "temporal" ∷ "pvc" ∷ [];
        confidence = some (pos 780);
        state = some "active";
        render_weight = none;
        source = some "live";
      }
      ∷ [];
  blast_radius = record { pod = "timescaledb-5c4b-q2"; impact = pos 630; eta_s = 15 } ∷ [];
  findings = [];
  meta = record { signal = some "psi_io"; pods = some 2; case_register = some "recurrence" };
}

-- What the engine serves while its passes fail: the entry `meta` alone, with nothing that is read.
abbrev error_document : Verdict ℤ
error_document = record {
  root = [];
  edges = [];
  blast_radius = [];
  findings = [];
  meta = record { signal = none; pods = none; case_register = none };
}

-- A failed engine is reported as a steady one.
narrative_of_error :
    template_narrative "psi_io" error_document
    ≡ "Steady state: no causal contention detected across 0 workloads."
unfolding template_narrative number
narrative_of_error = refl

-- The model writes a text, and is then out of reach.
abbrev first_poll : Poll ℤ
first_poll = record {
  engine = fetched storm;
  reply = fetched (some " The archiver slows the database. ");
  ts = "10:00";
}

abbrev next_poll : Poll ℤ
next_poll = record { engine = fetched storm; reply = failed "timed out"; ts = "10:05" }

narrative-IsAnswer_example :
    IsAnswer env
      (first_poll ∷ [])
      next_poll
      (narrative env next_poll (narrative env first_poll []).1).0
    × (length (narrative env next_poll (narrative env first_poll []).1).1 ≤ 1)
narrative-IsAnswer_example = narrative-IsAnswer env (polled first_poll started) next_poll

-- Two pods of one workload, whose newest samples are not their largest, and a key that is not a series.
abbrev window : Window ℤ
window =
    (
      "factory-data/timescaledb-5c4b-q2/psi_io",
      record { ts = "10:00"; value = pos 900 } ∷ record { ts = "10:01"; value = pos 300 } ∷ [],
    )
    ∷ ("factory-data/log-archiver-7d9f-x1/psi_io", record { ts = "10:01"; value = pos 700 } ∷ [])
    ∷ ("factory-data/timescaledb-5c4b-zz/psi_io", record { ts = "10:01"; value = pos 400 } ∷ [])
    ∷ ("bad", [])
    ∷ []

abbrev rows : List (PodRow ℤ)
rows = snapshot "psi_io" ("log-archiver" ∷ []) window

-- In thousandths the rounding to four places leaves a number as it is.
rounds : RoundsToDecimal ℤ
rounds = record { mono = λ x y h. h; again = λ x. refl }

snapshot-IsCurrent_example : IsCurrent "psi_io" ("log-archiver" ∷ []) window rows
snapshot-IsCurrent_example =
    snapshot-IsCurrent "psi_io" milli-IsOrdered rounds ("log-archiver" ∷ []) window

template_narrative-IsSentence_example :
    IsSentence milli-IsOrdered "psi_io" storm (template_narrative "psi_io" storm)
template_narrative-IsSentence_example = template_narrative-IsSentence milli-IsOrdered "psi_io" storm
