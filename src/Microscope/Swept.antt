-- ===== src/Microscope/Swept.antt =====
-- The frequency scan as a whole: what is measured and printed, also where it has been stopped before
-- it starts.
use pico_cpp.Common.{ℕ, ◌≡◌, ◌∙◌, refl, sym, ap, ap₂, arith, List, [], ◌∷◌, ◌++◌}
use pico_cpp.Common.{Bool, if◌then◌else◌, true, false, ltb, u16, sub32}
use pico_cpp.Common.{Bool-cases, inl, inr}
use mathlib.Core.Path.{subst}
use pico_cpp.Microscope.Board.{Event, print_end_line}
use pico_cpp.Microscope.Scanner.{emit}
use pico_cpp.Microscope.Commands.{Controller}
use pico_cpp.Microscope.Chips.{Env, v}
use pico_cpp.Microscope.Loop.{sweep_turn, sweep_start, sweep_end, shown}
use pico_cpp.Microscope.Sweep.{turns, points, sweeps, starts, ends, begun, Sweeping}

module _ (env : Env) where
  -- A controller in which the stop is already set ends the scan before its first measurement.
  unmeasured :
      (c : Controller)
      → c.ad7606_stop_scan ≡ true
      → sweep_turn env (sweep_start env c) ≡ sweep_end env (sweep_start env c)
  unfolding sweep_turn sweep_start
  unmeasured c stopped = elim (Bool-cases (ltb c.scan_index (u16 (v env 1)))) [
    | inl more ↦ rw (more, stopped) refl
    | inr no_more ↦ rw no_more refl
  ]

  -- What the scan of a controller measures: nothing where the stop is already set.
  abbrev pub to_measure : Controller → ℕ
  to_measure c = if c.ad7606_stop_scan then 0 else u16 (v env 1)

  -- The scan of `n` frequencies from its start to its end.
  abbrev pub SweptIn : ℕ → Controller → Type 0
  SweptIn n c =
      let pairs =
        points env (u16 (v env 2)) (u16 (v env 3)) c.scan.conversions (sub32 (u16 (v env 4)) 1) 0
          n in
      let t = turns env n (sweep_turn env c) in
      let e = sweep_turn env t in
      (t.measured ≡ pairs)
      × (e.scan.events ≡ t.scan.events ++ (shown pairs ++ (print_end_line ∷ [])))
      × (e.measured ≡ [])
      × (e.is_already_scanning ≡ false)
      × (e.ad7606_is_scanning ≡ false)
      × (e.ad7606_stop_scan ≡ false)

  swept_all :
      (c : Controller)
      → c.is_already_scanning ≡ false
      → c.ad7606_stop_scan ≡ false
      → c.scan_index ≡ 0
      → c.measured ≡ []
      → SweptIn (u16 (v env 1)) c
  unfolding sweep_end emit
  swept_all c idle free zeroth none_yet =
      let n = u16 (v env 1) in
      let first = u16 (v env 2) in
      let step = u16 (v env 3) in
      let channel = sub32 (u16 (v env 4)) 1 in
      let k = c.scan.conversions in
      let pairs = points env first step k channel 0 n in
      let started : sweep_turn env c ≡ sweep_start env c = starts env c idle in
      let w =
        sweeps env n first step channel k (omega arith) n 0 [] (sweep_start env c) (omega arith)
          (begun env c free zeroth none_yet) in
      let t = turns env n (sweep_turn env c) in
      let w' =
        subst (λ s. Sweeping env n first step channel k n pairs (turns env n s)) (sym started) w in
      let ended = ends env n first step channel k pairs t w' in
      (
        w'.so_far,
        ap (λ (x : Controller). x.scan.events) ended
            ∙ ap (λ l. t.scan.events ++ (shown l ++ (print_end_line ∷ []))) w'.so_far,
        ap (λ (x : Controller). x.measured) ended,
        ap (λ (x : Controller). x.is_already_scanning) ended,
        ap (λ (x : Controller). x.ad7606_is_scanning) ended,
        ap (λ (x : Controller). x.ad7606_stop_scan) ended,
      )

  swept_none :
      (c : Controller)
      → c.is_already_scanning ≡ false
      → c.ad7606_stop_scan ≡ true
      → c.measured ≡ []
      → SweptIn 0 c
  unfolding turns points sweep_end sweep_start emit
  swept_none c idle stopped none_yet =
      let started : sweep_turn env c ≡ sweep_start env c = starts env c idle in
      let t = sweep_turn env c in
      let ended : sweep_turn env t ≡ sweep_end env (sweep_start env c) =
        ap (sweep_turn env) started ∙ unmeasured c stopped in
      let nothing = ap (λ (x : Controller). x.measured) started ∙ none_yet in
      (
        nothing,
        ap (λ (x : Controller). x.scan.events) ended
            ∙ ap₂ (λ (l : List Event) m. l ++ (shown m ++ (print_end_line ∷ [])))
                (ap (λ (x : Controller). x.scan.events) (sym started)) none_yet,
        ap (λ (x : Controller). x.measured) ended,
        ap (λ (x : Controller). x.is_already_scanning) ended,
        ap (λ (x : Controller). x.ad7606_is_scanning) ended,
        ap (λ (x : Controller). x.ad7606_stop_scan) ended,
      )

  -- From a controller that is not scanning, with the index 0 and no measurement kept, the command's
  -- first number is how many frequencies are measured, the next two are the first frequency and the
  -- step, and the fourth the channel, from 1; but none is measured when the flag that stops a scan
  -- is already set. A turn is one of the scan's own part of the loop, with the same environment each
  -- time. After one turn for the start and one for each frequency that is measured every such
  -- frequency has been measured, in order and with the reading of its own conversion; one more turn
  -- prints these pairs behind all that has been done, forgets them and ends the scan, with the stop
  -- cleared, when no command has come in between.
  pub frequencies_swept :
      (c : Controller)
      → c.is_already_scanning ≡ false
      → c.scan_index ≡ 0
      → c.measured ≡ []
      → SweptIn (to_measure c) c
  frequencies_swept c idle zeroth none_yet =
      let swept_if = λ (stop : Bool). SweptIn (if stop then 0 else u16 (v env 1)) c in
      elim (Bool-cases c.ad7606_stop_scan) [
        | inl stopped ↦ subst swept_if (sym stopped) (swept_none c idle stopped none_yet)
        | inr free ↦ subst swept_if (sym free) (swept_all c idle free zeroth none_yet)
      ]
