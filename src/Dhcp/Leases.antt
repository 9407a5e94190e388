-- ===== src/Dhcp/Leases.antt =====
-- dhcpserver.c: which addresses are offered and granted.
use pico_cpp.Common.{same_bytes, same_bytes_eq, same_bytes_refl}
use pico_cpp.Common.{ℕ, zero, suc, ◌+◌, ◌<◌, ◌≡◌, ◌≢◌, refl, ◌∙◌, arith}
use pico_cpp.Common.{List, [], ◌∷◌, some, true, false, length, get_elem?}
use pico_cpp.Common.{Bool-cases, ◌⊎◌, inl, inr}
use pico_cpp.Dhcp.Server.{Lease, expired}
use pico_cpp.Dhcp.Server.{no_mac, max_ip, look_at, discover}

-- A lease that may be offered to the client: its own, a free one, or one that has run out.
abbrev pub Suitable : List ℕ → ℕ → Lease → Type 0
Suitable chaddr now l = (l.mac ≡ chaddr) ⊎ (l.mac ≡ no_mac) ⊎ (expired l.expiry now ≡ true)

-- `r` is the index of a suitable lease of the list that starts at index `i`.
pub record Picked (chaddr : List ℕ) (ticks : ℕ → ℕ) (ls : List Lease) (i r : ℕ) : Type 0 where
  pub index : ℕ
  pub chosen : Lease
  pub at : get_elem? ls index ≡ some chosen
  pub place : r ≡ i + index
  pub suitable : Suitable chaddr (ticks r) chosen

look_at_lem :
    (l : Lease) (i yi now : ℕ) (chaddr : List ℕ)
    → ((look_at l i yi now).0 ≡ yi) ⊎ (((look_at l i yi now).0 ≡ i) × Suitable chaddr now l)
unfolding look_at
look_at_lem l i yi now chaddr = ground (arith, same_bytes_eq l.mac no_mac)

module _ (chaddr : List ℕ) (ticks : ℕ → ℕ) (l : Lease) (ls : List Lease) (i yi : ℕ) where
  discover_mine : same_bytes l.mac chaddr ≡ true → discover chaddr ticks (l ∷ ls) i yi ≡ (i, l ∷ ls)
  unfolding discover
  discover_mine h = ground arith

  discover_other :
      same_bytes l.mac chaddr ≡ false
      → discover chaddr ticks (l ∷ ls) i yi ≡ (
        (discover chaddr ticks ls (i + 1) (look_at l i yi (ticks i)).0).0,
        (look_at l i yi (ticks i)).1
            ∷ (discover chaddr ticks ls (i + 1) (look_at l i yi (ticks i)).0).1,
      )
  unfolding discover
  discover_other h = ground arith

Picked-cons :
    (chaddr : List ℕ) (ticks : ℕ → ℕ) (l : Lease) (ls : List Lease) (i yi yi' r : ℕ)
    → (yi' ≡ yi) ⊎ ((yi' ≡ i) × Suitable chaddr (ticks i) l)
    → (r ≡ yi') ⊎ Picked chaddr ticks ls (i + 1) r
    → (r ≡ yi) ⊎ Picked chaddr ticks (l ∷ ls) i r
Picked-cons chaddr ticks l ls i yi yi' r first (inr p) = inr (record {
  index = suc p.index;
  chosen = p.chosen;
  at = p.at;
  place = omega (arith, p.place);
  suitable = p.suitable;
})
Picked-cons chaddr ticks l ls i yi yi' r (inl kept) (inl e) = inl (e ∙ kept)
Picked-cons chaddr ticks l ls i yi yi' r (inr (here, fits)) (inl e) = inr (record {
  index = 0;
  chosen = l;
  at = refl;
  place = omega arith;
  suitable = let same : r ≡ i = e ∙ here in rw same fits;
})

-- The search ends with what it began with, or with a suitable lease.
pub discover_picks :
    (chaddr : List ℕ) (ticks : ℕ → ℕ) (ls : List Lease) (i yi : ℕ)
    → ((discover chaddr ticks ls i yi).0 ≡ yi)
      ⊎ Picked chaddr ticks ls i (discover chaddr ticks ls i yi).0
discover_picks chaddr ticks [] i yi = unfold discover in inl refl
discover_picks chaddr ticks (l ∷ ls) i yi = elim (Bool-cases (same_bytes l.mac chaddr)) [
  | inl own ↦ rw (discover_mine chaddr ticks l ls i yi own) (
      inr (record {
        index = 0;
        chosen = l;
        at = refl;
        place = omega arith;
        suitable = inl (same_bytes_eq l.mac chaddr own);
      }))
  | inr other ↦ rw (discover_other chaddr ticks l ls i yi other) (
      Picked-cons chaddr ticks l ls i yi (look_at l i yi (ticks i)).0 _
        (look_at_lem l i yi (ticks i) chaddr)
        (discover_picks chaddr ticks ls (i + 1) (look_at l i yi (ticks i)).0))
]

-- A discover that starts from "none found" ends with an index below the number of leases only if
-- the lease there is the client's own, free, or expired at the time it is looked at.
pub discover_offers :
    (chaddr : List ℕ) (ticks : ℕ → ℕ) (ls : List Lease) (r : ℕ)
    → length ls ≡ max_ip
    → (discover chaddr ticks ls 0 max_ip).0 ≡ r
    → r < max_ip
    → (l : Lease) × (get_elem? ls r ≡ some l) × Suitable chaddr (ticks r) l
discover_offers chaddr ticks ls r len e h = elim (discover_picks chaddr ticks ls 0 max_ip) [
  | inl nothing ↦ absurd (omega arith)
  | inr p ↦
      let same : p.index ≡ r = omega (arith, p.place) in
      (p.chosen, rw same at p.at, rw e at p.suitable)
]

-- A client that has a lease is offered the address of the first lease that is its own.
pub discover_own :
    (chaddr : List ℕ) (ticks : ℕ → ℕ) (ls : List Lease) (i yi k : ℕ) (l : Lease)
    → get_elem? ls k ≡ some l
    → l.mac ≡ chaddr
    → ((j : ℕ) (m : Lease) → j < k → get_elem? ls j ≡ some m → m.mac ≢ chaddr)
    → (discover chaddr ticks ls i yi).0 ≡ i + k
discover_own chaddr ticks [] i yi k l at own first = cc
discover_own chaddr ticks (m ∷ ls) i yi zero l at own first =
    let mine : same_bytes m.mac chaddr ≡ true = ground (arith, same_bytes_refl chaddr) in
    rw (discover_mine chaddr ticks m ls i yi mine) (omega arith)
discover_own chaddr ticks (m ∷ ls) i yi (suc k) l at own first =
    elim (Bool-cases (same_bytes m.mac chaddr)) [
      | inl mine ↦ absurd (first 0 m (omega arith) refl (same_bytes_eq m.mac chaddr mine))
      | inr other ↦ rw (discover_other chaddr ticks m ls i yi other) (
          discover_own chaddr ticks ls (i + 1) (look_at m i yi (ticks i)).0 k l at own
            (λ j n below e. first (suc j) n (omega arith) e)
          ∙ omega arith)
    ]

look_at_keeps :
    (l : Lease) (i yi now : ℕ) → ((look_at l i yi now).1 ≡ l) ⊎ (expired l.expiry now ≡ true)
unfolding look_at
look_at_keeps l i yi now = ground arith

-- A discover takes no lease away that has not expired: each stands as it was, or had run out when
-- it was looked at.
pub discover_keeps :
    (chaddr : List ℕ) (ticks : ℕ → ℕ) (ls : List Lease) (i yi k : ℕ) (l : Lease)
    → get_elem? ls k ≡ some l
    → (get_elem? (discover chaddr ticks ls i yi).1 k ≡ some l)
      ⊎ (expired l.expiry (ticks (i + k)) ≡ true)
discover_keeps chaddr ticks [] i yi k l at = cc
discover_keeps chaddr ticks (m ∷ ls) i yi zero l at = elim (Bool-cases (same_bytes m.mac chaddr)) [
  | inl mine ↦ rw (discover_mine chaddr ticks m ls i yi mine) (inl at)
  | inr other ↦
      rw (discover_other chaddr ticks m ls i yi other)
        (ground (arith, look_at_keeps m i yi (ticks i)))
]
discover_keeps chaddr ticks (m ∷ ls) i yi (suc k) l at =
    elim (Bool-cases (same_bytes m.mac chaddr)) [
      | inl mine ↦ rw (discover_mine chaddr ticks m ls i yi mine) (inl at)
      | inr other ↦
          let same : i + 1 + k ≡ i + suc k = omega arith in
          rw (discover_other chaddr ticks m ls i yi other) (
            rw same at (discover_keeps chaddr ticks ls (i + 1) (look_at m i yi (ticks i)).0 k l at))
    ]
