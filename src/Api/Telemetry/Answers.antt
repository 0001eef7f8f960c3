-- ===== src/Api/Telemetry/Answers.antt =====
-- What `signal` of api/main.py answers, on each of its outcomes.
use abb_accelerator_aiops.Prelude.{
  ◌≡◌, refl, true, false, String, List, [], ◌∷◌, All, In, Bool-cases, inl, inr,
}
use abb_accelerator_aiops.Float.{Float}
use abb_accelerator_aiops.Window.{Sample, Window, series_of}
use abb_accelerator_aiops.Api.{Fetched, fetched, failed, Response, ok, http_error, relayed}
use abb_accelerator_aiops.Api.Telemetry.{is_series, series, signal}

module _ {F : Type 0} ⦃f : Float F⦄ (pod name : String) where
  -- The entry of the window is a series of this workload.
  abbrev pub Matches : String × List (Sample F) → Type 0
  Matches e = is_series pod name (series_of e.0) e.1 ≡ true

  pub data IsAnswer : Fetched (Window F) → Response (List (Sample F)) → Type 0 where
    refused : (e text : String) → IsAnswer (failed e) (http_error 503 text)
    missing :
        (window : Window F) (text : String)
        → All
            (λ (e : String × List (Sample F)). is_series pod name (series_of e.0) e.1 ≡ false)
            window
        → IsAnswer (fetched window) (http_error 404 text)
    found :
        (window : Window F) (e : String × List (Sample F))
        → In e window
        → Matches e
        → IsAnswer (fetched window) (ok e.1)

  later :
      (e : String × List (Sample F)) (window : Window F) (response : Response (List (Sample F)))
      → is_series pod name (series_of e.0) e.1 ≡ false
      → IsAnswer (fetched window) response
      → IsAnswer (fetched (e ∷ window)) response
  later e window _ h (missing _ text none) = missing (e ∷ window) text (h, none)
  later e window _ h (found _ e' m t) = found (e ∷ window) e' (inr m) t

  series-IsAnswer : (window : Window F) → IsAnswer (fetched window) (series pod name window)
  unfolding series
  series-IsAnswer [] = missing [] _ tt
  series-IsAnswer ((key, samples) ∷ window) =
      elim (Bool-cases (is_series pod name (series_of key) samples)) [
        | inl e ↦ rw e (found ((key, samples) ∷ window) (key, samples) (inl refl) e)
        | inr e ↦ rw e (later (key, samples) window _ e (series-IsAnswer window))
      ]

  -- The handler answers with status 503 if the window was not fetched, with status 404 if no
  -- entry of the window is a series of the workload and the signal, and otherwise with the
  -- samples of an entry that is.
  pub signal-IsAnswer : (window : Fetched (Window F)) → IsAnswer window (signal pod name window)
  unfolding signal relayed
  signal-IsAnswer (fetched window) = series-IsAnswer window
  signal-IsAnswer (failed e) = refused e _
