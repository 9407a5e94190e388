-- ===== src/Dhcp/Lookup.antt =====
-- dhcpserver.c: `opt_find` against the list of options that a message encodes.
use pico_cpp.Common.{ℕ, zero, suc, ◌+◌, ◌*◌, ◌≤◌, ◌<◌, ◌≡◌, ◌≢◌, refl, ap, sym, ◌∙◌, arith}
use pico_cpp.Common.{List, [], ◌∷◌, ◌++◌, some, length, get_elem?}
use pico_cpp.Common.{length-append, ◌==◌, All, Option-cases, inl, inr, if◌then◌else◌}
use mathlib.Core.List.{append_assoc}
use pico_cpp.Dhcp.Options.{Find, found, missing, opt_find, opt_find_loop}

-- An option is its code and its payload.
abbrev pub encode : List (ℕ × List ℕ) → List ℕ
encode [] = []
encode ((c, p) ∷ os) = c ∷ length p ∷ (p ++ encode os)

-- Where the first option with the code stands, if the encoding starts at `i`.
abbrev pub position : List (ℕ × List ℕ) → ℕ → ℕ → Find
position [] cmd i = missing
position ((c, p) ∷ os) cmd i = if c == cmd then found i else position os cmd (i + (2 + length p))

get_elem?-behind :
    (pre : List ℕ) (x : ℕ) (rest : List ℕ) → get_elem? (pre ++ (x ∷ rest)) (length pre) ≡ some x
get_elem?-behind [] x rest = refl
get_elem?-behind (y ∷ pre) x rest = get_elem?-behind pre x rest

loop_on_encode :
    (os : List (ℕ × List ℕ)) (fuel cmd i : ℕ) (pre rest opt : List ℕ)
    → All (λ o. o.0 ≢ 255) os
    → opt ≡ pre ++ (encode os ++ (255 ∷ rest))
    → i ≡ length pre
    → i + length (encode os) < 308
    → length os < fuel
    → opt_find_loop fuel opt cmd i ≡ position os cmd i
unfolding opt_find_loop
loop_on_encode os zero cmd i pre rest opt codes e at fits f = absurd (omega arith)
loop_on_encode [] (suc fuel) cmd i pre rest opt codes e at fits f =
    let here : get_elem? opt i ≡ some 255 = rw (e, at) (get_elem?-behind pre 255 rest) in
    ground arith
loop_on_encode ((c, p) ∷ os) (suc fuel) cmd i pre rest opt codes e at fits f =
    let tail : List ℕ = p ++ encode os ++ (255 ∷ rest) in
    let here : get_elem? opt i ≡ some c = rw (e, at) (get_elem?-behind pre c _) in
    let split : opt ≡ (pre ++ (c ∷ [])) ++ (length p ∷ tail) =
      e ∙ sym (append_assoc pre (c ∷ []) (length p ∷ tail)) in
    let at_next : i + 1 ≡ length (pre ++ (c ∷ [])) = omega (arith, length-append pre (c ∷ [])) in
    let next : get_elem? opt (i + 1) ≡ some (length p) =
      rw (split, at_next) (get_elem?-behind (pre ++ (c ∷ [])) (length p) tail) in
    let moved : opt ≡ (pre ++ (c ∷ length p ∷ p)) ++ (encode os ++ (255 ∷ rest)) =
      e
      ∙ ap (λ l. pre ++ (c ∷ length p ∷ l)) (append_assoc p (encode os) (255 ∷ rest))
      ∙ sym (append_assoc pre (c ∷ length p ∷ p) (encode os ++ (255 ∷ rest))) in
    let at_rest : i + (2 + length p) ≡ length (pre ++ (c ∷ length p ∷ p)) =
      omega (arith, length-append pre (c ∷ length p ∷ p)) in
    let size : i + (2 + length p) + length (encode os) < 308 =
      omega (arith, length-append p (encode os)) in
    let fewer : length os < fuel = omega arith in
    let further =
      loop_on_encode os fuel cmd (i + (2 + length p)) (pre ++ (c ∷ length p ∷ p)) rest opt codes.1
        moved at_rest size fewer in
    ground (arith, codes.0)

length-encode : (os : List (ℕ × List ℕ)) → 2 * length os ≤ length (encode os)
length-encode [] = omega arith
length-encode ((c, p) ∷ os) = omega (arith, length-encode os, length-append p (encode os))

-- On options that encode a list, end marker included, the search finds the first option with the
-- code where the encoding puts it, and reports a code that is not in the list as missing. No code
-- of the list may be the end marker, and the marker has to be among the 308 bytes that are read.
pub opt_find-encode :
    (os : List (ℕ × List ℕ)) (cmd : ℕ) (rest : List ℕ)
    → All (λ o. o.0 ≢ 255) os
    → length (encode os) < 308
    → opt_find (encode os ++ (255 ∷ rest)) cmd ≡ position os cmd 0
unfolding opt_find
opt_find-encode os cmd rest codes fits =
    loop_on_encode os 155 cmd 0 [] rest (encode os ++ (255 ∷ rest)) codes refl refl (omega arith)
      (omega (arith, length-encode os))

-- Fuel for the bytes that are left is as good as any other.
fuel_enough :
    (f g : ℕ) (opt : List ℕ) (cmd i : ℕ)
    → 308 ≤ i + 2 * f
    → 308 ≤ i + 2 * g
    → opt_find_loop f opt cmd i ≡ opt_find_loop g opt cmd i
unfolding opt_find_loop
fuel_enough zero zero opt cmd i h l = refl
fuel_enough zero (suc g) opt cmd i h l = ground arith
fuel_enough (suc f) zero opt cmd i h l = ground arith
fuel_enough (suc f) (suc g) opt cmd i h l = elim (Option-cases (get_elem? opt (i + 1))) [
  | inl out ↦ ground arith
  | inr (n, e) ↦ ground (arith, fuel_enough f g opt cmd (i + (2 + n)))
]

-- The 155 rounds that the model allows are as many as the C loop can use: with any larger bound
-- the result is the same, whatever the bytes.
pub opt_find_enough :
    (g : ℕ) (opt : List ℕ) (cmd : ℕ) → 155 ≤ g → opt_find opt cmd ≡ opt_find_loop g opt cmd 0
unfolding opt_find
opt_find_enough g opt cmd h = fuel_enough 155 g opt cmd 0 (omega arith) (omega arith)

-- A hit is at the code that was asked for, among the bytes that the loop reads.
hit_lem :
    (f : ℕ) (opt : List ℕ) (cmd i o : ℕ)
    → opt_find_loop f opt cmd i ≡ found o
    → (o < 308) × (get_elem? opt o ≡ some cmd)
unfolding opt_find_loop
hit_lem zero opt cmd i o h = cc
hit_lem (suc f) opt cmd i o h = elim (Option-cases (get_elem? opt (i + 1))) [
  | inl out ↦ ground arith
  | inr (n, e) ↦ ground (arith, hit_lem f opt cmd (i + (2 + n)) o)
]

-- What the search finds is the code that was asked for, at an index below 308, whatever the bytes.
pub opt_find-found :
    (opt : List ℕ) (cmd o : ℕ)
    → opt_find opt cmd ≡ found o
    → (o < 308) × (get_elem? opt o ≡ some cmd)
unfolding opt_find
opt_find-found opt cmd o h = hit_lem 155 opt cmd 0 o h
