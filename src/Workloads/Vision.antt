-- ===== src/Workloads/Vision.antt =====
-- workloads/vision-qc/main.py: the cache of decoded frames.
use abb_accelerator_aiops.Prelude.{
  ℕ, ◌-◌, ◌≡◌, ap, sym, ◌∙◌, Bool, true, false, List, [], ◌∷◌, ◌++◌, length, length-append,
  append-nil, append_assoc, length-drop, drop-drop, drop-append, drop, arith, if◌then◌else◌,
}

abbrev pub cache_bound : ℕ
cache_bound = 64

module _ {Frame : Type 0} where
  -- `cache.append(frame)`: of a list, or of a `deque` with the bound, which drops its oldest frame.
  unfoldable pub append : Bool → Frame → List Frame → List Frame
  append true frame cache = cache ++ frame ∷ []
  append false frame cache =
      let longer = cache ++ frame ∷ [] in drop (length longer - cache_bound) longer

  -- `on_msg`, for one frame after another
  unfoldable pub on_frames : Bool → List Frame → List Frame → List Frame
  unfolding append
  on_frames leak [] cache = cache
  on_frames leak (frame ∷ frames) cache = on_frames leak frames (append leak frame cache)

  -- The frames of the last `n`.
  abbrev pub last_of : ℕ → List Frame → List Frame
  last_of n frames = drop (length frames - n) frames

  on_frames-leak : (frames cache : List Frame) → on_frames true frames cache ≡ cache ++ frames
  unfolding on_frames
  on_frames-leak [] cache = sym (append-nil cache)
  on_frames-leak (frame ∷ frames) cache =
      on_frames-leak frames (cache ++ frame ∷ []) ∙ append_assoc cache (frame ∷ []) frames

  -- The last frames, and one more.
  last_of-append :
      (all : List Frame) (frame : Frame)
      → last_of cache_bound (last_of cache_bound all ++ frame ∷ [])
        ≡ last_of cache_bound (all ++ frame ∷ [])
  last_of-append all frame =
      let k = length all - cache_bound in
      let fits = length-append all (frame ∷ []) in
      let whole : drop k all ++ frame ∷ [] ≡ drop k (all ++ frame ∷ []) =
        sym (drop-append k all (frame ∷ []) (omega arith)) in
      ap (λ l. drop (length l - cache_bound) l) whole
      ∙ drop-drop _ k (all ++ frame ∷ [])
      ∙ ap (λ n. drop n (all ++ frame ∷ []))
          (omega (arith, length-drop k (all ++ frame ∷ []), fits))

  on_frames-bounded :
      (frames all : List Frame)
      → on_frames false frames (last_of cache_bound all) ≡ last_of cache_bound (all ++ frames)
  unfolding on_frames
  on_frames-bounded [] all = ap (last_of cache_bound) (sym (append-nil all))
  on_frames-bounded (frame ∷ frames) all =
      ap (on_frames false frames) (last_of-append all frame)
      ∙ on_frames-bounded frames (all ++ frame ∷ [])
      ∙ ap (last_of cache_bound) (append_assoc all (frame ∷ []) frames)

  -- After any frames the cache of the start holds all of them with the leak enabled, and
  -- otherwise the last 64, in their order.
  pub on_frames-Cached :
      (leak : Bool) (frames : List Frame)
      → on_frames leak frames [] ≡ (if leak then frames else last_of cache_bound frames)
  on_frames-Cached true frames = on_frames-leak frames []
  on_frames-Cached false frames = on_frames-bounded frames []
