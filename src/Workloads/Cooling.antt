-- ===== src/Workloads/Cooling.antt =====
-- workloads/cooling-monitor/main.py: the flag file, which the HTTP handler writes and the main loop removes. The
-- two run in two threads; a step of the loop is one access to the flag or one line of work. The file lies on a
-- shared volume: it may be there at the start, scenarios/S1/trigger.sh touches it, and reset.sh removes it.
pub mod Owed
pub mod Armed
use Prim.Native.String
use abb_accelerator_aiops.Prelude.{
  ℕ, suc, Bool, true, false, String, str_eq, List, [], ◌∷◌, if◌then◌else◌,
}

-- Where the loop stands: before the journal's write, before the test of the flag, with the flag seen, with the
-- flag removed, with fio running, and after `os.remove` raised, since the file was gone.
pub data Phase : Type 0 where
  journaling testing seen removed flushing ended : Phase

-- The flag, the loop, and how many times fio was started.
pub record Cooling : Type 0 where
  pub flag : Bool
  pub phase : Phase
  pub storms : ℕ

-- At the start, with the flag that is on the volume.
abbrev pub booted : Bool → Cooling
booted flag = record { flag = flag; phase = journaling; storms = 0 }

abbrev pub is_running : Phase → Bool
is_running ended = false
is_running _ = true

-- `self.path.rstrip("/")`
unfoldable pub rstrip_slashes : String → String
rstrip_slashes String.[] = String.[]
rstrip_slashes (String.◌∷◌ c s) =
    let rest = rstrip_slashes s in
    if str_eq (String.◌∷◌ c rest) "/" then String.[] else String.◌∷◌ c rest

abbrev pub is_flush : String → Bool
is_flush path = str_eq (rstrip_slashes path) "/flush"

-- `do_POST`: the state after it, and the status and body of the reply.
unfoldable pub do_post : String → Cooling → Cooling × ℕ × String
do_post path s =
    if is_flush path then (record s { flag = true }, 202, "S1 armed\n") else (s, 404, "not found\n")

-- `do_GET`
unfoldable pub do_get : String → ℕ × String
do_get path = if str_eq path "/healthz" then (200, "ok\n") else (404, "not found\n")

-- One step of the loop of `main`.
unfoldable pub advance : Phase → Cooling → Cooling
advance journaling s = record s { phase = testing }
advance testing s = record s { phase = if s.flag then seen else journaling }
advance seen s = record s { flag = false; phase = if s.flag then removed else ended }
advance removed s = record s { phase = flushing; storms = suc s.storms }
advance flushing s = record s { phase = journaling }
advance ended s = s

-- What happens next: a POST, a touch or a removal of the flag by another process, or a step of the loop.
pub data Happening : Type 0 where
  post : String → Happening
  touch clear step : Happening

unfoldable pub happen : Happening → Cooling → Cooling
unfolding do_post advance
happen (post path) s = if is_running s.phase then (do_post path s).0 else s
happen touch s = record s { flag = true }
happen clear s = record s { flag = false }
happen step s = advance s.phase s

unfoldable pub run : List Happening → Cooling → Cooling
unfolding happen
run [] s = s
run (h ∷ hs) s = run hs (happen h s)
