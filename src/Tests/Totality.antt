-- ===== src/Tests/Totality.antt =====
-- The rounds of correlation/service.py over the storm come to a service, and api/main.py answers in front of
-- it.
use mathlib.Core.Path.{subst}
use abb_accelerator_aiops.Prelude.{ℕ, ◌≤◌, ◌≡◌, refl, String, some, none, [], ◌∷◌, arith, inl}
use abb_accelerator_aiops.Float.Milli.{ℤ, pos, milli, milli-IsOrdered, milli-IsRounded}
use abb_accelerator_aiops.Float.{abs, lit}
use abb_accelerator_aiops.Float.Laws.{◌≼◌}
use abb_accelerator_aiops.Lagcorr.Light.{AreCoefficients, RoundsWithin}
use abb_accelerator_aiops.Service.{Service, broken, Round, round_of, loop, started}
use abb_accelerator_aiops.Service.Total.{fueled, loop_ends}
use abb_accelerator_aiops.Api.{Verdict, ok, failed, graph}
use abb_accelerator_aiops.System.{ask}
use abb_accelerator_aiops.System.Stored.{NamesStorage, graph-NamesStorage}
use abb_accelerator_aiops.System.Outage.{IsCalledSteady, outage-IsCalledSteady}
use abb_accelerator_aiops.Tests.Fixtures.{config, stats}
use abb_accelerator_aiops.Tests.Graphs.{fades}
use abb_accelerator_aiops.Tests.Digraph.{digraph-IsDiGraph}
use abb_accelerator_aiops.Tests.Services.{svc}
use abb_accelerator_aiops.Tests.Storage.{by_stamp, round, remembered}

within : RoundsWithin ℤ
unfolding abs
within = record { zero = refl; rounded = λ x h. h }

coefficients : AreCoefficients stats
unfolding abs
coefficients = record {
  pearson = λ a b r e. subst (λ x. abs (elim x [ none ↦ pos 0 | some y ↦ y ]) ≼ lit 1 0) e refl;
  spearman = λ a b r e. cc;
}

loop_ends_example :
    (s : Service ℤ) × (enough : ℕ) × ((fuel : ℕ)
      → enough ≤ fuel
      → loop config svc
          (fueled by_stamp fuel)
          (round ∷ round ∷ [])
          (started config svc (fueled by_stamp fuel) (pos 70000) remembered)
        ≡ some s)
unfolding abs
loop_ends_example =
    loop_ends config svc by_stamp milli-IsOrdered milli-IsRounded 6 fades (omega arith)
      digraph-IsDiGraph within coefficients (round ∷ round ∷ []) (pos 70000) remembered (refl, tt)

-- The text of the exception for a reply that is no JSON.
abbrev refusal : ℕ → String → String
refusal status body = "HTTP Error"

graph-NamesStorage_example :
    (s : Service ℤ) × (enough : ℕ) × (g : Verdict ℤ) × ((fuel : ℕ)
      → enough ≤ fuel
      → loop config svc
          (fueled by_stamp fuel)
          (round ∷ round ∷ [])
          (started config svc (fueled by_stamp fuel) (pos 70000) remembered)
        ≡ some s)
    × (graph (ask refusal svc.signal s) ≡ ok g)
    × NamesStorage refusal svc g
unfolding abs
graph-NamesStorage_example =
    graph-NamesStorage refusal svc config by_stamp milli-IsOrdered milli-IsRounded 6 fades
      (omega arith) digraph-IsDiGraph within coefficients (round ∷ round ∷ []) (pos 70000)
      remembered ((refl, refl), tt) (refl, tt)

-- A service whose last round failed, and a round in which the window is not fetched.
abbrev failing : Service ℤ
failing = record { memory = remembered; graph = broken "no aggregator" }

abbrev outage : Round ℤ
outage = record round { window = failed "timed out" }

outage-IsCalledSteady_example :
    (s : Service ℤ) × (round_of config svc by_stamp failing outage.window outage.events outage.ts
        outage.now outage.fault
      ≡ some s)
    × IsCalledSteady refusal config svc by_stamp "psi_io" failing s
outage-IsCalledSteady_example =
    outage-IsCalledSteady refusal config svc by_stamp "psi_io" failing outage "timed out" (inl refl)
