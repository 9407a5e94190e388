-- ===== src/Microscope/Driver.antt =====
-- spi_master/physical_devices/LinearDriver.cpp: the three linear drives, each on two ports. The
-- doubles are exact here: `t_abs` is a whole number, and a delay is cut off to whole microseconds.
use pico_cpp.Common.{ℕ, zero, suc, ◌-◌, ◌*◌, ◌/◌, ◌^◌}
use pico_cpp.Common.{List, [], ◌∷◌, ◌++◌, Option, none, some, Bool, ◌==◌, ◌||◌, ltb, leb}
use pico_cpp.Common.{if◌then◌else◌}
use pico_cpp.Microscope.Board.{Event, sleep_us, enable, disable}

unfoldable pub drive_ports : ℕ → ℕ × ℕ
drive_ports command =
    if command == 95 then (20, 21) else if command == 99 then (22, 28) else (18, 19)

unfoldable pub pulses : ℕ → ℕ → ℕ → ℕ → List Event
pulses zero b low high = []
pulses (suc n) b low high =
    disable b ∷ sleep_us low ∷ enable b ∷ sleep_us high ∷ pulses n b low high

-- From the ports to the last level.
unfoldable pub drive : ℕ × ℕ → ℕ → ℕ → ℕ → List Event
unfolding pulses
drive ports n low high =
    enable ports.0 ∷ (pulses n ports.1 low high ++ (disable ports.0 ∷ disable ports.1 ∷ []))

-- `none` stands for a frequency of 0, by which the source divides, for a negative one, and for a share
-- `p` above 1000 or below 0, with which a delay is negative. A negative `n` is no pulse.
unfoldable pub activate : ℕ → ℕ → ℕ → ℕ → Bool → Option (List Event)
unfolding drive_ports drive
activate command freq p n dir =
    let t_abs = 1000000 / freq in
    let t_low = p * t_abs / 1000 in
    let t_high = (1000 - p) * t_abs / 1000 in
    let ports = drive_ports command in
    let swapped : ℕ × ℕ = if dir then (ports.1, ports.0) else ports in
    if freq == 0 || leb (2 ^ 31) freq || ltb 1000 p
    then none
    else some (drive swapped (if ltb n (2 ^ 31) then n else 0) t_low t_high)
