-- ===== src/System/Storm.antt =====
-- The gateway in front of the cooling monitor: `trigger` of api/main.py on what do_POST of
-- workloads/cooling-monitor/main.py answers, and the catalogue of scenarios.
use abb_accelerator_aiops.Prelude.{
  ℕ, ◌<◌, ◌≤◌, ◌≡◌, refl, ap, ◌∙◌, Bool, true, false, String, str_eq, List, All, All-zip, ltb,
  if◌then◌else◌,
}
use abb_accelerator_aiops.Api.{
  Fetched, fetched, failed, Response, ok, http_error, Scenario, scenarios, trigger,
}
use abb_accelerator_aiops.Workloads.Cooling.{
  is_running, Cooling, Happening, rstrip_slashes, do_post, run, happen,
}
use abb_accelerator_aiops.Workloads.Cooling.Armed.{steps, is_calm, storms-do_post}

only_first : All (λ (x : Scenario). str_eq x.id "S1" ≡ x.triggerable) scenarios
only_first = (refl, (refl, (refl, (refl, (refl, (refl, tt))))))

module _ (refusal : ℕ → String → String) (upper : String → String) where
  -- `_post`: urllib raises for a status of 400 or more.
  unfoldable post_of : ℕ → String → Fetched String
  post_of status body = if ltb status 400 then fetched body else failed (refusal status body)

  -- `trigger`, with the cooling monitor behind it: the response, and the monitor after it.
  unfoldable pub fire : String → Cooling → Response String × Cooling
  unfolding post_of
  fire sid s =
      let (armed, status, body) = do_post "/flush" s in
      (trigger upper (post_of status body) sid, if str_eq (upper sid) "S1" then armed else s)

  abbrev pub is_ok : Response String → Bool
  is_ok (ok _) = true
  is_ok (http_error _ _) = false

  -- What comes of a request, if the monitor goes on like this: a storm more, or nothing.
  abbrev pub Follows : Bool → List Happening → Cooling → Cooling → Type 0
  Follows true after s s' = s.storms < (run after s').storms
  Follows false after s s' = s' ≡ s

  -- The catalogue says of the scenario whether the gateway fires it.
  abbrev pub IsOffered : List Happening → Cooling → Scenario → Type 0
  IsOffered after s x =
      (is_ok (fire x.id s).0 ≡ x.triggerable) × Follows x.triggerable after s (fire x.id s).1

  fire_of_first :
      (sid : String) (after : List Happening) (s : Cooling)
      → str_eq (upper sid) "S1" ≡ true
      → is_running s.phase ≡ true
      → is_calm after ≡ true
      → 5 ≤ steps after
      → (is_ok (fire sid s).0 ≡ true) × Follows true after s (fire sid s).1
  unfolding fire trigger do_post rstrip_slashes run happen
  fire_of_first sid after s e r c h = rw e (refl, storms-do_post "/flush" after s refl r c h)

  fire_of_other :
      (sid : String) (after : List Happening) (s : Cooling)
      → str_eq (upper sid) "S1" ≡ false
      → (is_ok (fire sid s).0 ≡ false) × Follows false after s (fire sid s).1
  unfolding fire trigger do_post rstrip_slashes
  fire_of_other sid after s e = rw e (refl, refl)

  offered :
      (x : Scenario) (after : List Happening) (s : Cooling)
      → is_running s.phase ≡ true
      → is_calm after ≡ true
      → 5 ≤ steps after
      → str_eq x.id "S1" ≡ x.triggerable
      → upper x.id ≡ x.id
      → IsOffered after s x
  offered x after s r c h same u =
      let is_first : str_eq (upper x.id) "S1" ≡ x.triggerable =
        ap (λ id. str_eq id "S1") u ∙ same in
      elim x.triggerable
          as (λ t.
            str_eq (upper x.id) "S1" ≡ t
            → (is_ok (fire x.id s).0 ≡ t) × Follows t after s (fire x.id s).1) [
              | true ↦ λ e. fire_of_first x.id after s e r c h
              | false ↦ λ e. fire_of_other x.id after s e
            ]
        is_first

  -- When the gateway triggers a scenario of the catalogue while the loop of the cooling monitor
  -- runs, and the loop then makes five steps or more, with any requests and touches of the flag
  -- between them but no removal of it by another process: the answer is no error exactly if the
  -- catalogue calls the scenario triggerable; then fio is started once more at least, and
  -- otherwise the request leaves the monitor as it was. The cooling monitor is reached, and
  -- `str.upper` leaves the identifiers of the catalogue as they are.
  pub scenarios-AreOffered :
      (after : List Happening) (s : Cooling)
      → is_running s.phase ≡ true
      → is_calm after ≡ true
      → 5 ≤ steps after
      → All (λ (x : Scenario). upper x.id ≡ x.id) scenarios
      → All (IsOffered after s) scenarios
  scenarios-AreOffered after s r c h ids =
      All-zip (λ x same u. offered x after s r c h same u) scenarios only_first ids
