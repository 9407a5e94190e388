-- ===== src/Tcp/Receive.antt =====
-- picow_tcp_server.c and picow_tcp_client.c: how a packet is copied into the buffer. Both
-- programs have the same lines.
use pico_cpp.Common.{ℕ, ◌+◌, ◌-◌, ◌≤◌, ◌<◌, ◌≡◌, refl, ap, sym, ◌∙◌, arith, List, [], ◌∷◌, ◌++◌}
use mathlib.Core.List.{append_assoc}
use pico_cpp.Common.{
  length, take, splice, ltb, if◌then◌else◌, u16, min, length-splice, Bool-cases, inl, inr, true,
}
use pico_cpp.Common.{length-take, length-append, take-append_self}

abbrev pub buf_size : ℕ
buf_size = 2048

-- `err_t`, as far as the programs return it.
pub data Err : Type 0 where
  err_ok err_abrt err_val err_other : Err

-- How many bytes are asked of `pbuf_copy_partial`, which copies that many from the packet's front.
unfoldable pub wanted : ℕ → List ℕ → ℕ
wanted filled payload =
    let buffer_left = u16 (buf_size - filled) in
    if ltb buffer_left (length payload) then buffer_left else length payload

-- `pbuf_copy_partial` of lwIP, as `pbuf_copy_partial payload n`: the bytes it copies out of a
-- packet when `n` are asked for.
abbrev pub CopiesFront : (List ℕ → ℕ → List ℕ) → Type 0
CopiesFront copy = (payload : List ℕ) (n : ℕ) → copy payload n ≡ take n payload

-- The buffer and its length once a packet has been copied to its end.
unfoldable pub receive : (List ℕ → ℕ → List ℕ) → List ℕ → ℕ → List ℕ → List ℕ × ℕ
unfolding wanted
receive pbuf_copy_partial buf filled payload =
    if ltb 0 (length payload)
    then (let bytes = pbuf_copy_partial payload (wanted filled payload) in
        (splice buf filled bytes, filled + length bytes))
    else (buf, filled)

-- The first `filled` bytes are what has come so far.
pub record Holds (got : List ℕ) (buf : List ℕ) (filled : ℕ) : Type 0 where
  pub size : length buf ≡ buf_size
  pub count : length got ≡ filled
  pub front : take filled buf ≡ got

wanted_all :
    (filled : ℕ) (payload : List ℕ)
    → filled + length payload ≤ buf_size
    → wanted filled payload ≡ length payload
unfolding wanted
wanted_all filled payload h = ground arith

wanted_room :
    (filled : ℕ) (payload : List ℕ) → filled ≤ buf_size → filled + wanted filled payload ≤ buf_size
unfolding wanted
wanted_room filled payload h = ground arith

pub take_all : (xs : List ℕ) → take (length xs) xs ≡ xs
take_all [] = refl
take_all (x ∷ xs) = ap (λ l. x ∷ l) (take_all xs)

append_nil : (xs : List ℕ) → xs ++ [] ≡ xs
append_nil [] = refl
append_nil (x ∷ xs) = ap (λ l. x ∷ l) (append_nil xs)

module _ (copy : List ℕ → ℕ → List ℕ) (law : CopiesFront copy) where
  receive_fitting :
      (buf : List ℕ) (filled : ℕ) (payload : List ℕ)
      → filled + length payload ≤ buf_size
      → 0 < length payload
      → receive copy buf filled payload ≡ (splice buf filled payload, filled + length payload)
  unfolding receive
  receive_fitting buf filled payload fits some_bytes =
      let all : copy payload (wanted filled payload) ≡ payload =
        law payload (wanted filled payload)
        ∙ rw (wanted_all filled payload fits) (take_all payload) in
      let c : ltb 0 (length payload) ≡ true = ground arith in rw (c, all) refl

  receive_empty : (buf : List ℕ) (filled : ℕ) → receive copy buf filled [] ≡ (buf, filled)
  unfolding receive
  receive_empty buf filled = refl

  Holds-splice :
      (got buf : List ℕ) (filled : ℕ) (payload : List ℕ)
      → Holds got buf filled
      → filled + length payload ≤ buf_size
      → Holds (got ++ payload) (splice buf filled payload) (filled + length payload)
  Holds-splice got buf filled payload h fits = record {
    size = length-splice buf filled payload (rw h.size fits) ∙ h.size;
    count = omega (arith, length-append got payload, h.count);
    front = rw h.front (
        ap (take (filled + length payload)) (sym (append_assoc got payload _))
        ∙ take-append_self (filled + length payload) (got ++ payload) _
            (omega (arith, length-append got payload, h.count)));
  }

  -- A packet that fits is appended to what has come so far.
  pub receive-Holds :
      (got buf : List ℕ) (filled : ℕ) (payload : List ℕ)
      → Holds got buf filled
      → filled + length payload ≤ buf_size
      → Holds
          (got ++ payload)
          (receive copy buf filled payload).0
          (receive copy buf filled payload).1
        × ((receive copy buf filled payload).1 ≡ filled + length payload)
  receive-Holds got buf filled [] h fits =
      rw (receive_empty buf filled, append_nil got) (h, omega arith)
  receive-Holds got buf filled (b ∷ bs) h fits =
      rw (receive_fitting buf filled (b ∷ bs) fits (omega arith))
        (Holds-splice got buf filled (b ∷ bs) h fits, refl)

  -- No packet, however long, makes the buffer overflow or moves its length past its size.
  pub receive_bounded :
      (buf : List ℕ) (filled : ℕ) (payload : List ℕ)
      → length buf ≡ buf_size
      → filled ≤ buf_size
      → (length (receive copy buf filled payload).0 ≡ buf_size)
        × ((receive copy buf filled payload).1 ≤ buf_size)
        × (filled ≤ (receive copy buf filled payload).1)
  unfolding receive
  receive_bounded buf filled payload size h =
      let n = wanted filled payload in
      let room = wanted_room filled payload h in
      let few : length (copy payload n) ≡ min n (length payload) =
        ap length (law payload n) ∙ length-take n payload in
      elim (Bool-cases (ltb 0 (length payload))) [
        | inl c ↦ rw c (
          omega (arith, length-splice buf filled (copy payload n) (omega arith)),
          omega arith,
          omega arith,
        )
        | inr c ↦ rw c (size, h, omega arith)
      ]
