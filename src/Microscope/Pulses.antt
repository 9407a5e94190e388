-- ===== src/Microscope/Pulses.antt =====
-- What a drive does to its ports, and how long it takes.
use pico_cpp.Common.{
  ℕ, zero, suc, ◌+◌, ◌-◌, ◌*◌, ◌/◌, ◌^◌, ◌<◌, ◌≤◌, ◌≡◌, ◌≢◌, ◌∙◌, refl, sym, ap, arith,
}
use pico_cpp.Common.{List, [], ◌∷◌, ◌++◌, some, Bool, true, false, ◌==◌, ltb, leb}
use pico_cpp.Common.{if◌then◌else◌, Bool-cases, inl, inr}
use native.Mathlib.Nat.{add-mul, mul-add, mul-le-mul_left}
use pico_cpp.Microscope.Board.{Event, gpio_put, sleep_us, disable}
use pico_cpp.Microscope.Sent.{levels}
use pico_cpp.Microscope.Driver.{drive_ports, pulses, drive, activate}

-- The time that is slept, and how often a port goes from low to high.
unfoldable pub slept : List Event → ℕ
slept [] = 0
slept (sleep_us t ∷ es) = t + slept es
slept (e ∷ es) = slept es

unfoldable pub rises : ℕ → Bool → List Event → ℕ
rises port level [] = 0
rises port level (gpio_put q value ∷ es) =
    let now : Bool = if q == port then value else level in
    (if value then if q == port then if level then 0 else 1 else 0 else 0) + rises port now es
rises port level (e ∷ es) = rises port level es

slept-pulses :
    (n b low high : ℕ) (rest : List Event)
    → slept (pulses n b low high ++ rest) ≡ n * (low + high) + slept rest
unfolding slept pulses
slept-pulses zero b low high rest = omega arith
slept-pulses (suc n) b low high rest = grind (arith, slept-pulses n b low high rest)

rises-pulses :
    (n b low high : ℕ) (level : Bool) (rest : List Event)
    → ((l : Bool) → rises b l rest ≡ 0)
    → rises b level (pulses n b low high ++ rest) ≡ n
unfolding rises pulses
rises-pulses zero b low high level rest none_after = none_after level
rises-pulses (suc n) b low high level rest none_after =
    let same : (b == b) ≡ true = ground arith in
    rw (same, rises)
      (ap (λ m. 0 + (1 + m)) (rises-pulses n b low high true rest none_after) ∙ omega arith)

-- The levels after a list of calls that ends by setting both ports.
levels-pulses :
    (n a b low high q : ℕ) (before : ℕ → Bool)
    → levels (pulses n b low high ++ (disable a ∷ disable b ∷ [])) before q
      ≡ (if q == b then false else if q == a then false else before q)
unfolding levels pulses
levels-pulses zero a b low high q before = refl
levels-pulses (suc n) a b low high q before =
    levels-pulses n a b low high q
      (λ r. if r == b then true else if r == b then false else before r)
    ∙ ground arith

module _ (a b : ℕ) (differ : a ≢ b) (n low high : ℕ) (before : ℕ → Bool) where
  drive_lem :
      let es = drive (a, b) n low high in
      (levels es before a ≡ false)
      × (levels es before b ≡ false)
      × ((q : ℕ) → q ≢ a → q ≢ b → levels es before q ≡ before q)
      × (rises b (before b) es ≡ n)
      × (slept es ≡ n * (low + high))
  unfolding drive levels rises slept
  drive_lem =
      let raised : ℕ → Bool = λ r. if r == a then true else before r in
      let other : (a == b) ≡ false = ground arith in
      (
        levels-pulses n a b low high a raised ∙ ground arith,
        levels-pulses n a b low high b raised ∙ ground arith,
        λ q na nb. levels-pulses n a b low high q raised ∙ ground arith,
        rw other (
            omega (
              arith,
              rises-pulses n b low high (before b) (disable a ∷ disable b ∷ []) (λ l. ground arith),
            )),
        slept-pulses n b low high (disable a ∷ disable b ∷ []) ∙ omega arith,
      )

ports_differ : (command : ℕ) → (drive_ports command).0 ≢ (drive_ports command).1
unfolding drive_ports
ports_differ command e = elim (Bool-cases (command == 95)) [
  | inl y ↦ absurd (omega (arith, rw (y, drive_ports) at e))
  | inr not_y ↦ elim (Bool-cases (command == 99)) [
    | inl z ↦ absurd (omega (arith, rw (not_y, z) at e))
    | inr not_z ↦ absurd (omega (arith, rw (not_y, not_z) at e))
  ]
]

share_sum : (p t : ℕ) → p ≤ 1000 → p * t + (1000 - p) * t ≡ 1000 * t
share_sum p t h =
    let whole : p + (1000 - p) ≡ 1000 = omega arith in
    sym (add-mul p (1000 - p) t) ∙ ap (λ k. k * t) whole

-- A period is as long as its two parts, or one longer.
period :
    (p t : ℕ) → p ≤ 1000 → let s = p * t / 1000 + (1000 - p) * t / 1000 in (s ≤ t) × (t ≤ s + 1)
period p t h = (omega (arith, share_sum p t h), omega (arith, share_sum p t h))

slept_bounds :
    (n p t : ℕ)
    → p ≤ 1000
    → let s = p * t / 1000 + (1000 - p) * t / 1000 in (n * s ≤ n * t) × (n * t ≤ n * s + n)
slept_bounds n p t h =
    bounds n (p * t / 1000 + (1000 - p) * t / 1000) t (period p t h).0 (period p t h).1
  where
    bounds : (n s t : ℕ) → s ≤ t → t ≤ s + 1 → (n * s ≤ n * t) × (n * t ≤ n * s + n)
    bounds n s t h k = (mul-le-mul_left n h, omega (arith, mul-le-mul_left n k, mul-add n s 1))

activates :
    (command freq p n : ℕ) (dir : Bool)
    → 0 < freq
    → freq < 2 ^ 31
    → p ≤ 1000
    → n < 2 ^ 31
    → let ports = drive_ports command in
      activate command freq p n dir
      ≡ some (
          drive
            (if dir then (ports.1, ports.0) else ports)
            n
            (p * (1000000 / freq) / 1000)
            ((1000 - p) * (1000000 / freq) / 1000))
unfolding activate
activates command freq p n dir positive sf sp sn =
    let one : (freq == 0) ≡ false = ground arith in
    let two : leb (2 ^ 31) freq ≡ false = ground arith in
    let three : ltb 1000 p ≡ false = ground arith in
    let four : ltb n (2 ^ 31) ≡ true = ground arith in rw (activate, one, two, three, four) refl

-- With a frequency above 0 and a share of at most 1000 the drive of the command is moved: both of its
-- ports are low afterwards and no other port is changed, the port that the direction selects is
-- raised `n` times, and a period of the frequency in whole microseconds is slept for each of these
-- times, or one microsecond less.
pub activate_lem :
    (command freq p n : ℕ) (dir : Bool) (before : ℕ → Bool) (q : ℕ)
    → 0 < freq
    → freq < 2 ^ 31
    → p ≤ 1000
    → n < 2 ^ 31
    → q ≢ (drive_ports command).0
    → q ≢ (drive_ports command).1
    → let ports = drive_ports command in
      let raised = if dir then ports.0 else ports.1 in
      (es : List Event) × (activate command freq p n dir ≡ some es)
      × (levels es before ports.0 ≡ false)
      × (levels es before ports.1 ≡ false)
      × (levels es before q ≡ before q)
      × (rises raised (before raised) es ≡ n)
      × (slept es ≤ n * (1000000 / freq))
      × (n * (1000000 / freq) ≤ slept es + n)
unfolding activate
activate_lem command freq p n true before q positive sf sp sn na nb =
    let t = 1000000 / freq in
    let ports = drive_ports command in
    let es = drive (ports.1, ports.0) n (p * t / 1000) ((1000 - p) * t / 1000) in
    let d =
      drive_lem ports.1 ports.0 (λ e. ports_differ command (sym e)) n (p * t / 1000)
        ((1000 - p) * t / 1000) before in
    let time = slept_bounds n p t sp in
    (
      es,
      activates command freq p n true positive sf sp sn,
      d.1,
      d.0,
      d.2 q nb na,
      d.3,
      rw d.4 time.0,
      rw d.4 time.1,
    )
activate_lem command freq p n false before q positive sf sp sn na nb =
    let t = 1000000 / freq in
    let ports = drive_ports command in
    let es = drive ports n (p * t / 1000) ((1000 - p) * t / 1000) in
    let d =
      drive_lem ports.0 ports.1 (ports_differ command) n (p * t / 1000) ((1000 - p) * t / 1000)
        before in
    let time = slept_bounds n p t sp in
    (
      es,
      activates command freq p n false positive sf sp sn,
      d.0,
      d.1,
      d.2 q na nb,
      d.3,
      rw d.4 time.0,
      rw d.4 time.1,
    )
