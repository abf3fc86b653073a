-- ===== src/ReplayGuard/Tests.antt =====
-- Concrete runs of src/protocol/replayGuard.js.
use free_fire.Prelude.{ℕ, ◌≡◌, refl, true, false, List, [], ◌∷◌, any, arith}
use free_fire.ReplayGuard.{Config, is_replay}
use free_fire.ReplayGuard.Held.{Request, run}
use free_fire.ReplayGuard.Window.{is_replay-again}
use free_fire.ReplayGuard.Alarms.{initial, repeats, is_replay-repeats}

abbrev config : Config
config = record { enabled = true; window = 30000; max = 3 }

abbrev request : ℕ → ℕ → Request
request sig now = record { empty = false; excluded = false; sig = sig; now = now }

is_replay-again_example :
    (is_replay config false false 7 29000 (
      run config
        (request 8 12000 ∷ request 9 28000 ∷ [])
        (is_replay config false false 7 10000 initial).1)).0
    ≡ true
is_replay-again_example =
    is_replay-again config 7 10000 29000 initial (request 8 12000 ∷ request 9 28000 ∷ []) refl
      (unfold is_replay in refl) (omega arith, (omega arith, tt)) (omega arith) (omega arith)
      (omega arith)

abbrev requests : List Request
requests = request 7 10000 ∷ request 8 12000 ∷ request 9 28000 ∷ request 6 29000 ∷ []

is_replay-repeats_example : any (repeats config 8 30000) requests ≡ true
is_replay-repeats_example =
    is_replay-repeats config requests false false 8 30000 (unfold run in unfold is_replay in refl)
