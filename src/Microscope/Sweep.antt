-- ===== src/Microscope/Sweep.antt =====
-- The frequency scan over its turns.
use pico_cpp.Common.{
  ℕ, zero, suc, ◌+◌, ◌*◌, ◌<◌, ◌≡◌, ◌∙◌, refl, sym, ap, ap₂, arith, List, [], ◌∷◌, ◌++◌,
}
use pico_cpp.Common.{true, false, none, some, ltb, u16, sub32, get_or}
use pico_cpp.Common.{get_elem?, Bool-cases, inl, inr}
use mathlib.Core.Path.{subst}
use mathlib.Core.List.{append_assoc, append-nil}
use pico_cpp.Microscope.Board.{sleep_ms}
use pico_cpp.Microscope.Converters.{set_freq}
use pico_cpp.Microscope.Scanner.{
  Scan, emit, convert, spi_word, get_values_from_adc, get_result_from_adc,
}
use pico_cpp.Microscope.Scanner.{com_receive_isr}
use pico_cpp.Microscope.Commands.{Controller}
use pico_cpp.Microscope.Chips.{Env, v}
use pico_cpp.Microscope.Loop.{sweep_turn, sweep_start, sweep_measure, sweep_end}

unfoldable pub turns : Env → ℕ → Controller → Controller
turns env zero c = c
turns env (suc n) c = turns env n (sweep_turn env c)

module _ (env : Env) where
  -- A word of the `k`-th conversion.
  unfoldable pub reading : ℕ → ℕ → ℕ
  reading k channel = elim (get_elem? (env.words k) channel) [
    | none ↦ env.outside channel
    | some word ↦ word
  ]

  -- `n` measurements from the `j`-th: its frequency, and what the conversion of its turn reads.
  unfoldable pub points : ℕ → ℕ → ℕ → ℕ → ℕ → ℕ → List (ℕ × ℕ)
  unfolding reading
  points first step k channel j zero = []
  points first step k channel j (suc n) =
      (u16 (first + j * step), reading (k + j) channel) ∷ points first step k channel (suc j) n

  pub convert_reads :
      (s : Scan) (channel : ℕ)
      → spi_word env.words env.outside (convert env.words env.outside s) channel
        ≡ reading s.conversions channel
  unfolding convert emit get_values_from_adc get_result_from_adc com_receive_isr spi_word reading
  convert_reads s channel = elim (Bool-cases s.adc.z_state) [
    | inl z ↦ rw z refl
    | inr plain ↦ rw plain refl
  ]

  -- The scan in front of its `j`-th measurement.
  pub record Sweeping (n first step channel k j : ℕ) (got : List (ℕ × ℕ)) (c : Controller)
      : Type 0 where
    pub under_way : c.is_already_scanning ≡ true
    pub goes_on : c.ad7606_stop_scan ≡ false
    pub index : c.scan_index ≡ j
    pub count : get_or c.scan_buf 0 0 ≡ n
    pub frequency : get_or c.scan_buf 1 0 ≡ u16 (first + j * step)
    pub increment : get_or c.scan_buf 2 0 ≡ step
    pub reads : c.current_channel ≡ channel
    pub done : c.scan.conversions ≡ k + j
    pub so_far : c.measured ≡ got

  module _ (n first step channel k : ℕ) (small : n < 65536) where
    measures :
        (j : ℕ) (got : List (ℕ × ℕ)) (c : Controller)
        → j < n
        → Sweeping n first step channel k j got c
        → sweep_turn env c ≡ sweep_measure env c
    unfolding sweep_turn
    measures j got c left w =
        let more : ltb c.scan_index (get_or c.scan_buf 0 0) ≡ true =
          ap₂ ltb w.index w.count ∙ ground arith in
        rw (w.under_way, more, w.goes_on) refl

    measured_next :
        (j : ℕ) (got : List (ℕ × ℕ)) (c : Controller)
        → j < n
        → Sweeping n first step channel k j got c
        → Sweeping n first step channel k
            (suc j)
            (got ++ (u16 (first + j * step), reading (k + j) channel) ∷ [])
            (sweep_measure env c)
    unfolding sweep_measure emit convert
    measured_next j got c left w =
        let word = λ (i : ℕ). get_or c.scan_buf i 0 in
        let s = emit (set_freq (word 1) ++ (sleep_ms (word 4) ∷ [])) c.scan in
        let read = convert_reads s c.current_channel ∙ ap₂ reading w.done w.reads in
        record {
          under_way = w.under_way;
          goes_on = w.goes_on;
          index = ap (λ i. u16 (i + 1)) w.index ∙ omega arith;
          count = w.count;
          frequency = ap₂ (λ a b. u16 (a + b)) w.frequency w.increment ∙ grind arith;
          increment = w.increment;
          reads = w.reads;
          done = ap (λ i. i + 1) w.done ∙ omega arith;
          so_far = ap₂ (λ l q. l ++ q ∷ []) w.so_far (ap₂ (λ (a b : ℕ). (a, b)) w.frequency read);
        }

    pub sweeps :
        (m j : ℕ) (got : List (ℕ × ℕ)) (c : Controller)
        → j + m ≡ n
        → Sweeping n first step channel k j got c
        → Sweeping n first step channel k n (got ++ points first step k channel j m) (turns env m c)
    unfolding turns points
    sweeps zero j got c e w =
        let at_end : j ≡ n = omega (arith, e) in
        subst (λ i. Sweeping n first step channel k i (got ++ []) c) at_end
          (subst (λ l. Sweeping n first step channel k j l c) (sym (append-nil got)) w)
    sweeps (suc m) j got c e w =
        let one : ℕ × ℕ = (u16 (first + j * step), reading (k + j) channel) in
        let left : j < n = omega (arith, e) in
        let next = measured_next j got c left w in
        let rest =
          sweeps m (suc j) (got ++ one ∷ []) (sweep_measure env c) (omega (arith, e)) next in
        subst
          (λ t.
            Sweeping n first step channel k n (got ++ one ∷ points first step k channel (suc j) m)
              (turns env m t))
          (sym (measures j got c left w))
          (subst (λ l. Sweeping n first step channel k n l (turns env m (sweep_measure env c)))
            (append_assoc got (one ∷ []) (points first step k channel (suc j) m)) rest)

  pub starts :
      (c : Controller) → c.is_already_scanning ≡ false → sweep_turn env c ≡ sweep_start env c
  unfolding sweep_turn
  starts c idle = rw idle refl

  pub ends :
      (n first step channel k : ℕ) (got : List (ℕ × ℕ)) (c : Controller)
      → Sweeping n first step channel k n got c
      → sweep_turn env c ≡ sweep_end env c
  unfolding sweep_turn
  ends n first step channel k got c w =
      let no_more : ltb c.scan_index (get_or c.scan_buf 0 0) ≡ false =
        ap₂ ltb w.index w.count ∙ ground arith in
      rw (w.under_way, no_more) refl

  pub begun :
      (c : Controller)
      → c.ad7606_stop_scan ≡ false
      → c.scan_index ≡ 0
      → c.measured ≡ []
      → Sweeping
          (u16 (v env 1))
          (u16 (v env 2))
          (u16 (v env 3))
          (sub32 (u16 (v env 4)) 1)
          c.scan.conversions
          0
          []
          (sweep_start env c)
  unfolding sweep_start
  begun c free zeroth none_yet = record {
    under_way = refl;
    goes_on = free;
    index = zeroth;
    count = refl;
    frequency = omega arith;
    increment = refl;
    reads = refl;
    done = omega arith;
    so_far = none_yet;
  }
