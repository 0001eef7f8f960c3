-- ===== src/Tests/Firing.antt =====
-- The catalogue of api/main.py, fired at a cooling monitor that has just started.
use abb_accelerator_aiops.Prelude.{ℕ, false, String, List, [], ◌∷◌, refl, All, arith}
use abb_accelerator_aiops.Api.{scenarios}
use abb_accelerator_aiops.Workloads.Cooling.{Happening, booted, step, post}
use abb_accelerator_aiops.System.Storm.{IsOffered, scenarios-AreOffered}

-- The identifiers of the catalogue are in upper case.
abbrev as_it_is : String → String
as_it_is s = s

abbrev refusal : ℕ → String → String
refusal status body = "HTTP Error"

abbrev five_steps : List Happening
five_steps = step ∷ step ∷ post "/other" ∷ step ∷ step ∷ step ∷ []

scenarios-AreOffered_example : All (IsOffered refusal as_it_is five_steps (booted false)) scenarios
scenarios-AreOffered_example =
    scenarios-AreOffered refusal as_it_is five_steps (booted false) refl refl (omega arith)
      (refl, (refl, (refl, (refl, (refl, (refl, tt))))))
