-- ===== src/Ws2812/Strips.antt =====
-- ws2812_parallel.c: after transform_strips the planes hold every strip's scaled colour.
use pico_cpp.Common.{
  ℕ, zero, suc, ◌+◌, ◌*◌, ◌%◌, ◌^◌, ◌≤◌, ◌<◌, ◌≡◌, ◌≢◌, ◌∙◌, refl, ap, sym, arith,
}
use pico_cpp.Common.{List, [], ◌∷◌, ltb, if◌then◌else◌}
use pico_cpp.Common.{get_elem?, length, length-replicate, replicate, some, Bool-cases, inl, inr}
use pico_cpp.Common.{lane-zero}
use pico_cpp.Ws2812.Dither.{strip_value, below}
use pico_cpp.Ws2812.Transform.{StripData, scaled_value, set_planes, strips_loop}
use pico_cpp.Ws2812.Transform.{values_from, transform_strips}
use mathlib.Core.Path.{subst}
use pico_cpp.Ws2812.Scaled.{Clear, Clear-value, length-set_planes, set_planes_lem, set_planes_other}

-- The planes after one strip.
after_strip : StripData → ℕ → ℕ → ℕ → List ℕ → List ℕ
after_strip strip i v b planes =
    if ltb v strip.data_len then (set_planes planes i (scaled_value strip v b)).0 else planes

length-after_strip :
    (strip : StripData) (i v b : ℕ) (planes : List ℕ)
    → length (after_strip strip i v b planes) ≡ length planes
unfolding after_strip
length-after_strip strip i v b planes = elim (Bool-cases (ltb v strip.data_len)) [
  | inl inside ↦ rw (after_strip, inside) (length-set_planes planes i (scaled_value strip v b))
  | inr beyond ↦ rw (after_strip, beyond) refl
]

after_other :
    (strip : StripData) (i k v b : ℕ) (planes : List ℕ)
    → i < 32
    → i ≢ k
    → (strip_value (after_strip strip i v b planes) k ≡ strip_value planes k)
      × (Clear k planes → Clear k (after_strip strip i v b planes))
      × (length (after_strip strip i v b planes) ≡ length planes)
unfolding after_strip
after_other strip i k v b planes h differ = elim (Bool-cases (ltb v strip.data_len)) [
  | inl inside ↦
      let o = set_planes_other planes i k (scaled_value strip v b) h differ in
      (
        rw (after_strip, inside) o.0,
        rw (after_strip, inside) o.1,
        rw (after_strip, inside) (length-set_planes planes i (scaled_value strip v b)),
      )
  | inr beyond ↦ (
    rw (after_strip, beyond) refl,
    rw (after_strip, beyond) (λ c. c),
    rw (after_strip, beyond) refl,
  )
]

low_part : (x left value p : ℕ) → x < p → x + left * p ≡ value → p ≡ 4096 → x ≡ value % 4096
low_part x left value p h e is =
    let f : x + left * 4096 ≡ value = ap (λ q. x + left * q) (sym is) ∙ e in omega arith

-- What a strip's place holds: its scaled colour, as far as it fits in 12 bits.
abbrev pub shown : StripData → ℕ → ℕ → ℕ
shown strip v b = if ltb v strip.data_len then scaled_value strip v b % 2 ^ 12 else 0

after_own :
    (strip : StripData) (i v b : ℕ) (planes : List ℕ)
    → i < 32
    → Clear i planes
    → length planes ≡ 12
    → (strip_value (after_strip strip i v b planes) i ≡ shown strip v b)
      × (length (after_strip strip i v b planes) ≡ length planes)
unfolding after_strip
after_own strip i v b planes h c size = elim (Bool-cases (ltb v strip.data_len)) [
  | inl inside ↦
      let value = scaled_value strip v b in
      let r = set_planes planes i value in
      let long = length-set_planes planes i value in
      let small = below r.0 (length planes) i long in
      let power : 2 ^ length planes ≡ 4096 = ap (λ n. 2 ^ n) size in
      (
        rw (after_strip, inside)
            (low_part (strip_value r.0 i) r.1 value (2 ^ length planes) small
              (set_planes_lem planes i value h c) power),
        rw (after_strip, inside) long,
      )
  | inr beyond ↦ (rw (after_strip, beyond) (Clear-value i planes c), rw (after_strip, beyond) refl)
]

later_strips :
    (strips : List StripData) (i k v b : ℕ) (planes : List ℕ)
    → k < i
    → i + length strips ≤ 32
    → strip_value (strips_loop strips i v b planes) k ≡ strip_value planes k
unfolding strips_loop after_strip
later_strips [] i k v b planes before room = refl
later_strips (strip ∷ strips) i k v b planes before room =
    let o = after_other strip i k v b planes (omega arith) (omega arith) in
    later_strips strips (suc i) k v b (after_strip strip i v b planes) (omega arith) (omega arith)
    ∙ o.0

one_value :
    (strips : List StripData) (strip : StripData) (i k v b : ℕ) (planes : List ℕ)
    → get_elem? strips k ≡ some strip
    → i + length strips ≤ 32
    → Clear (i + k) planes
    → length planes ≡ 12
    → strip_value (strips_loop strips i v b planes) (i + k) ≡ shown strip v b
unfolding strips_loop after_strip
one_value [] strip i k v b planes here room c size = absurd (cc here)
one_value (s ∷ strips) strip i zero v b planes here room c size =
    let at_i : i + 0 ≡ i = omega arith in
    let clear : Clear i planes = subst (λ n. Clear n planes) at_i c in
    let is : s ≡ strip = cc here in
    let own = after_own s i v b planes (omega arith) clear size in
    ap (strip_value (strips_loop strips (suc i) v b (after_strip s i v b planes))) at_i
    ∙ later_strips strips (suc i) i v b (after_strip s i v b planes) (omega arith) (omega arith)
    ∙ own.0
    ∙ ap (λ x. shown x v b) is
one_value (s ∷ strips) strip i (suc k) v b planes here room c size =
    let next : i + suc k ≡ suc i + k = omega arith in
    let o = after_other s i (i + suc k) v b planes (omega arith) (omega arith) in
    let clear : Clear (suc i + k) (after_strip s i v b planes) =
      subst (λ n. Clear n (after_strip s i v b planes)) next (o.1 c) in
    ap (strip_value (strips_loop strips (suc i) v b (after_strip s i v b planes))) next
    ∙ one_value strips strip (suc i) k v b (after_strip s i v b planes) here (omega arith) clear
        (o.2 ∙ size)

length-strips_loop :
    (strips : List StripData) (i v b : ℕ) (planes : List ℕ)
    → length (strips_loop strips i v b planes) ≡ length planes
unfolding strips_loop after_strip
length-strips_loop [] i v b planes = refl
length-strips_loop (strip ∷ strips) i v b planes =
    length-strips_loop strips (suc i) v b (after_strip strip i v b planes)
    ∙ length-after_strip strip i v b planes

blank-Clear : (k n : ℕ) → Clear k (replicate n 0)
blank-Clear k zero = tt
blank-Clear k (suc n) = (lane-zero k, blank-Clear k n)

value_at :
    (strips : List StripData) (b left v k : ℕ)
    → k < left
    → get_elem? (values_from left v strips b) k
      ≡ some (strips_loop strips 0 (v + k) b (replicate 12 0))
unfolding values_from
value_at strips b zero v k h = absurd (omega arith)
value_at strips b (suc left) v zero h =
    let e : v + 0 ≡ v = omega arith in
    ap (λ x. some (strips_loop strips 0 x b (replicate 12 0))) (sym e)
value_at strips b (suc left) v (suc k) h =
    let e : suc v + k ≡ v + suc k = omega arith in
    value_at strips b left (suc v) k (omega arith)
    ∙ ap (λ x. some (strips_loop strips 0 x b (replicate 12 0))) e

-- For up to 32 strips: at every position `v` below the length that is asked for there are 12 planes,
-- and the bits of each strip in them are its colour scaled by its own and the common brightness,
-- without what does not fit in 12 bits, or 0 behind the strip's end.
pub transform_strips_lem :
    (strips : List StripData) (strip : StripData) (k v value_length b : ℕ)
    → get_elem? strips k ≡ some strip
    → length strips ≤ 32
    → v < value_length
    → (planes : List ℕ) × (get_elem? (transform_strips strips value_length b) v ≡ some planes)
      × (length planes ≡ 12)
      × (strip_value planes k ≡ shown strip v b)
unfolding transform_strips
transform_strips_lem strips strip k v value_length b here few inside =
    let planes = strips_loop strips 0 v b (replicate 12 0) in
    let blank = length-replicate {A = ℕ} 12 0 in
    let at_k : 0 + k ≡ k = omega arith in
    let at_v : 0 + v ≡ v = omega arith in
    (
      planes,
      value_at strips b value_length 0 v inside
          ∙ ap (λ x. some (strips_loop strips 0 x b (replicate 12 0))) at_v,
      length-strips_loop strips 0 v b (replicate 12 0) ∙ blank,
      ap (strip_value planes) (sym at_k)
          ∙ one_value strips strip 0 k v b (replicate 12 0) here (omega arith)
              (blank-Clear (0 + k) 12) blank,
    )
