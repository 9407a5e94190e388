-- ===== src/Ws2812/Transform.antt =====
-- ws2812_parallel.c: the colours of all strips, scaled by the brightness, into bit planes.
use pico_cpp.Common.{ℕ, zero, suc, ◌*◌, List, [], ◌∷◌, ltb, if◌then◌else◌, nonzero, u32}
use pico_cpp.Common.{◌<<<◌, ◌>>>◌, bit_and, bit_or, get_or, replicate}

abbrev pub value_plane_count : ℕ
value_plane_count = 12

-- `strip_t`.
pub record StripData : Type 0 where
  pub data_bytes : List ℕ
  pub data_len : ℕ
  pub frac_brightness : ℕ

unfoldable pub scaled_value : StripData → ℕ → ℕ → ℕ
scaled_value strip v frac_brightness =
    let value = u32 (get_or strip.data_bytes v 0 * strip.frac_brightness) >>> 8 in
    u32 (value * frac_brightness) >>> 8

-- One plane, with what is left of the value.
unfoldable pub set_plane : ℕ → ℕ → ℕ → ℕ
set_plane plane i value = if nonzero (bit_and value 1) then bit_or plane (u32 (1 <<< i)) else plane

-- The inner loop, from the last plane on, while a bit is left.
unfoldable pub set_planes : List ℕ → ℕ → ℕ → List ℕ × ℕ
unfolding set_plane
set_planes [] i value = ([], value)
set_planes (plane ∷ planes) i value =
    let (rest, left) = set_planes planes i value in
    if nonzero left then (set_plane plane i left ∷ rest, left >>> 1) else (plane ∷ rest, left)

-- The loop over the strips from strip `i` on.
unfoldable pub strips_loop : List StripData → ℕ → ℕ → ℕ → List ℕ → List ℕ
unfolding scaled_value set_planes
strips_loop [] i v frac_brightness planes = planes
strips_loop (strip ∷ strips) i v frac_brightness planes =
    strips_loop strips (suc i) v frac_brightness (
      if ltb v strip.data_len
      then (set_planes planes i (scaled_value strip v frac_brightness)).0
      else planes)

-- `values[v]`, `values[v + 1]` and so on, as many as are left.
unfoldable pub values_from : ℕ → ℕ → List StripData → ℕ → List (List ℕ)
unfolding strips_loop
values_from zero v strips frac_brightness = []
values_from (suc left) v strips frac_brightness =
    strips_loop strips 0 v frac_brightness (replicate value_plane_count 0)
    ∷ values_from left (suc v) strips frac_brightness

unfoldable pub transform_strips : List StripData → ℕ → ℕ → List (List ℕ)
unfolding values_from
transform_strips strips value_length frac_brightness =
    values_from value_length 0 strips frac_brightness
