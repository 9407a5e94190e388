-- ===== src/Ws2812/Planes.antt =====
-- ws2812_parallel.c: the sum of two values in bit planes.
use pico_cpp.Common.{ℕ, List, [], ◌∷◌, ◌++◌, bit_and, bit_or, bit_xor, take, drop}

-- The loop over the low planes, from the last on: the sums and the carry out of the first.
unfoldable pub add_fraction : List ℕ → List ℕ → List ℕ × ℕ
add_fraction [] e = ([], 0)
add_fraction (s_plane ∷ s) [] = ([], 0)
add_fraction (s_plane ∷ s) (e_plane ∷ e) =
    let (d, carry_plane) = add_fraction s e in
    (
      bit_xor (bit_xor e_plane s_plane) carry_plane ∷ d,
      bit_or (bit_and e_plane s_plane) (bit_and carry_plane (bit_xor s_plane e_plane)),
    )

-- The loop over the other planes, from the last on.
unfoldable pub ripple : List ℕ → ℕ → List ℕ × ℕ
ripple [] carry_in = ([], carry_in)
ripple (s_plane ∷ s) carry_in =
    let (d, carry_plane) = ripple s carry_in in
    (bit_xor s_plane carry_plane ∷ d, bit_and carry_plane s_plane)

-- `d` of `add_error(d, s, e)`: 8 planes of the value, then those of the fraction.
unfoldable pub add_error : List ℕ → List ℕ → List ℕ
unfolding add_fraction ripple
add_error s e =
    let (low, carry_plane) = add_fraction (drop 8 s) (drop 8 e) in
    (ripple (take 8 s) carry_plane).0 ++ low

unfoldable pub dither_values : List (List ℕ) → List (List ℕ) → List (List ℕ)
unfolding add_error
dither_values [] old_state = []
dither_values (c ∷ colors) [] = []
dither_values (c ∷ colors) (old ∷ old_state) = add_error c old ∷ dither_values colors old_state
