-- ===== src/Microscope/Touch.antt =====
-- How a round of the approach of the probe ends it.
use pico_cpp.Common.{ℕ, ◌+◌, ◌≡◌, ◌≢◌, List, [], ◌∷◌, some}
use pico_cpp.Common.{Bool, true, false, leb, not, ◌&&◌}
use pico_cpp.Microscope.Board.{disable, io3_1}
use pico_cpp.Microscope.Scanner.{emit}
use pico_cpp.Microscope.Approach.{settled, none_yet}
use pico_cpp.Microscope.Approach.{Approach, over, is_negative, configure}
use pico_cpp.Microscope.Approach.{sample, round, approach_loop}
use pico_cpp.Microscope.Chips.{Env, Round}
use pico_cpp.Microscope.Sweep.{reading}

module _ (env : Env) where
  -- What the second conversion from the one that comes next reads on a channel.
  abbrev pub second_reading : ℕ → Approach → ℕ
  second_reading channel a = reading env (a.scan.conversions + 1) channel

  -- The approach steps forwards, and the height is at the touching height or below it.
  abbrev pub touching : Approach → Bool
  touching a = not (is_negative a.nsteps) && leb (second_reading 0 a) a.gate_z_min

  -- The approach in a round, with the numbers that core 1 has sent.
  abbrev pub renewed : Round → Approach → Approach
  renewed r a = configure r (none_yet env a)

  -- How a round ends the approach, first by whether it still goes on and then by whether it touches.
  abbrev pub RoundEnd : Round → List Round → Approach → Bool → Bool → Type 0
  RoundEnd r rounds a false touch =
      (b : Approach) × (approach_loop env (r ∷ rounds) a ≡ some b)
      × (b.status ≡ 5 ∷ a.z ∷ a.signal ∷ [])
      × (b.scan ≡ emit (disable io3_1 ∷ []) a.scan)
  RoundEnd r rounds a true true =
      let c = renewed r a in
      (b : Approach) × (approach_loop env (r ∷ rounds) a ≡ some b)
      × (b.z ≡ second_reading 0 c)
      × (b.signal ≡ second_reading 1 c)
      × (b.status ≡ 2 ∷ second_reading 0 c ∷ second_reading 1 c ∷ [])
      × (b.scan ≡ (sample env (sample env (settled env c))).scan)
  RoundEnd r rounds a true false = (b : Approach) → round env r a ≢ some (over b)

  -- The approach has ended with what has been read, and nothing else has been done.
  abbrev Touched : Approach → Approach → Type 0
  Touched a b =
      (b.z ≡ second_reading 0 a)
      × (b.signal ≡ second_reading 1 a)
      × (b.status ≡ 2 ∷ second_reading 0 a ∷ second_reading 1 a ∷ [])
      × (b.scan ≡ (sample env (sample env a)).scan)
