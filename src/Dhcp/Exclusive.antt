-- ===== src/Dhcp/Exclusive.antt =====
-- dhcpserver.c: an address that has been granted stays its client's, whatever packets come.
use pico_cpp.Common.{same_bytes, same_bytes_eq, same_bytes_refl}
use mathlib.Core.Path.{subst}
use pico_cpp.Common.{ℕ, ◌+◌, ◌≡◌, ◌≢◌, ◌⊎◌, inl, inr, sym, ap, ◌∙◌, arith}
use pico_cpp.Common.{
  List, Bool, Option, none, some, true, false, ◌==◌, get_elem?, take, drop, Bool-cases,
}
use pico_cpp.Dhcp.Server.{Lease, Server, Msg, Outcome, ignored, replied, fault, no_mac, max_ip}
use pico_cpp.Dhcp.Server.{expired, discover, finish, on_discover, on_request, grant}
use pico_cpp.Dhcp.Server.{dhcp_server_process}
use pico_cpp.Dhcp.Options.{Find, found, missing, overread, opt_find}
use pico_cpp.Dhcp.Leases.{Suitable, discover_keeps, discover_picks}
use pico_cpp.Dhcp.Grants.{slot, grant-Holds, grant_taken}

-- The server behind a packet, which a fault does not leave.
abbrev pub server_of : Outcome → Option Server
server_of (ignored d) = some d
server_of (replied d m n) = some d
server_of fault = none

-- The packets between two states of the server, of any clients and in any order: the lease `k` has
-- not expired by the clock at which a discover would look at it.
pub data Later (k : ℕ) (d : Server) : Server → Type 0 where
  here : Later k d d
  after :
      {e f : Server} (l : Lease) (tot_len len : ℕ) (packet : Msg) (ticks : ℕ → ℕ) (now : ℕ)
      → Later k d e
      → get_elem? e.lease k ≡ some l
      → expired l.expiry (ticks k) ≡ false
      → server_of (dhcp_server_process e tot_len len packet ticks now) ≡ some f
      → Later k d f

-- The lease `k` belongs to the client.
abbrev Owned : List ℕ → ℕ → Server → Type 0
Owned chaddr k d = (l : Lease) × (get_elem? d.lease k ≡ some l) × (l.mac ≡ chaddr)

finish_leaves :
    (d f : Server) (msg : Msg) (yi kind : ℕ) → server_of (finish d msg yi kind) ≡ some f → f ≡ d
unfolding finish
finish_leaves d f msg yi kind h = ground arith

on_discover_leaves :
    (d f : Server) (msg : Msg) (ticks : ℕ → ℕ)
    → server_of (on_discover d msg ticks) ≡ some f
    → f.lease ≡ (discover (take 6 msg.chaddr) ticks d.lease 0 max_ip).1
unfolding on_discover finish
on_discover_leaves d f msg ticks h = ground arith

-- The packet with the fields of an answer.
abbrev answering : Server → Msg → Msg
answering d packet = record packet { op = 2; yiaddr = take 4 d.ip }

-- A packet is ignored, searches for an address to offer, or asks for one.
process_cases :
    (d f : Server) (tot_len len : ℕ) (packet : Msg) (ticks : ℕ → ℕ) (now : ℕ)
    → server_of (dhcp_server_process d tot_len len packet ticks now) ≡ some f
    → (f ≡ d)
      ⊎ (server_of (on_discover d (answering d packet) ticks) ≡ some f)
      ⊎ (server_of (on_request d (answering d packet) now) ≡ some f)
unfolding dhcp_server_process
process_cases d f tot_len len packet ticks now h = ground arith

-- The last byte of the address that is asked for.
abbrev asked_in : List ℕ → Find → ℕ
asked_in opt missing = 0
asked_in opt overread = 0
asked_in opt (found o) = elim (get_elem? opt (o + 5)) [ none ↦ 0 | some last ↦ last ]

abbrev asked_for : Msg → ℕ
asked_for msg = asked_in (drop 4 msg.options) (opt_find (drop 4 msg.options) 50)

request_cases :
    (d f : Server) (msg : Msg) (now : ℕ)
    → server_of (on_request d msg now) ≡ some f
    → (f ≡ d) ⊎ (server_of (grant d msg (asked_for msg) now) ≡ some f)
unfolding on_request
request_cases d f msg now h = ground arith

grant_cases :
    (d f : Server) (msg : Msg) (last now : ℕ)
    → server_of (grant d msg last now) ≡ some f
    → (f ≡ d) ⊎ ((m : Msg) × (n : ℕ) × (grant d msg last now ≡ replied f m n))
unfolding grant finish
grant_cases d f msg last now h = ground arith

-- An answer to a request moves no lease from a client to another.
grant_keeps :
    (chaddr : List ℕ) (k : ℕ) (d f : Server) (msg m : Msg) (last now n : ℕ) (l : Lease)
    → get_elem? d.lease k ≡ some l
    → l.mac ≡ chaddr
    → chaddr ≢ no_mac
    → grant d msg last now ≡ replied f m n
    → Owned chaddr k f
grant_keeps chaddr k d f msg m last now n l at own real granted =
    let h = grant-Holds d msg last now f m n granted in
    elim (Bool-cases (slot last == k)) [
      | inr other ↦ (l, h.others k (λ e. ground arith) ∙ at, own)
      | inl same ↦
          let here : slot last ≡ k = ground arith in
          elim (Bool-cases (same_bytes chaddr (take 6 msg.chaddr))) [
            | inl mine ↦ (
              h.owner,
              ap (get_elem? f.lease) (sym here) ∙ h.at,
              h.owned ∙ sym (same_bytes_eq chaddr (take 6 msg.chaddr) mine),
            )
            | inr others ↦
                let refused =
                  grant_taken d msg last now l (ap (get_elem? d.lease) here ∙ at)
                    (λ e. ground (arith, same_bytes_refl chaddr)) (λ e. real (sym own ∙ e)) in
                cc
          ]
    ]

owned_at :
    (ls : List Lease) (k : ℕ) (chaddr : List ℕ) (l l' : Lease)
    → get_elem? ls k ≡ some l
    → get_elem? ls k ≡ some l'
    → l'.mac ≡ chaddr
    → l.mac ≡ chaddr
owned_at ls k chaddr l l' at at' own = cc

not_both : (b : Bool) → b ≡ true → b ≡ false → ⊥
not_both b h h' = cc

-- A lease that another client holds and that has not expired is not one that may be offered.
unsuitable :
    (chaddr : List ℕ) (k : ℕ) (ticks : ℕ → ℕ) (ls : List Lease) (l l' : Lease)
    → get_elem? ls k ≡ some l
    → get_elem? ls k ≡ some l'
    → l.mac ≢ chaddr
    → l.mac ≢ no_mac
    → expired l.expiry (ticks k) ≡ false
    → ¬ Suitable chaddr (ticks k) l'
unsuitable chaddr k ticks ls l l' at at' other taken fresh (inl own) =
    other (owned_at ls k chaddr l l' at at' own)
unsuitable chaddr k ticks ls l l' at at' other taken fresh (inr (inl free)) =
    taken (owned_at ls k no_mac l l' at at' free)
unsuitable chaddr k ticks ls l l' at at' other taken fresh (inr (inr gone)) =
    let same : l' ≡ l = cc in
    not_both (expired l.expiry (ticks k))
      (ap (λ (x : Lease). expired x.expiry (ticks k)) (sym same) ∙ gone) fresh

Owned-Later :
    (chaddr : List ℕ) (k : ℕ) (d e : Server)
    → chaddr ≢ no_mac
    → Owned chaddr k d
    → Later k d e
    → Owned chaddr k e
Owned-Later chaddr k d e real start here = start
Owned-Later chaddr k d f real start
      (after {e = e} l tot_len len packet ticks now before at fresh h) =
    let (l', at', own') = Owned-Later chaddr k d e real start before in
    let first : 0 + k ≡ k = omega arith in
    let fresh_at = subst (λ i. expired l.expiry (ticks i) ≡ true) first in
    let own : l.mac ≡ chaddr = owned_at e.lease k chaddr l l' at at' own' in
    elim (process_cases e f tot_len len packet ticks now h) [
      | inl same ↦ subst (Owned chaddr k) (sym same) (l, at, own)
      | inr (inl offers) ↦
          let left = on_discover_leaves e f (answering e packet) ticks offers in
          elim (discover_keeps (take 6 packet.chaddr) ticks e.lease 0 max_ip k l at) [
            | inl kept ↦ (l, ap (λ ls. get_elem? ls k) left ∙ kept, own)
            | inr gone ↦ absurd (not_both (expired l.expiry (ticks k)) (fresh_at gone) fresh)
          ]
      | inr (inr asks) ↦ elim (request_cases e f (answering e packet) now asks) [
        | inl same ↦ subst (Owned chaddr k) (sym same) (l, at, own)
        | inr granted ↦
            elim (grant_cases e f (answering e packet) (asked_for (answering e packet)) now
              granted) [
                | inl same ↦ subst (Owned chaddr k) (sym same) (l, at, own)
                | inr (m, n, answered) ↦
                    grant_keeps chaddr k e f (answering e packet) m _ now n l at own real answered
              ]
      ]
    ]

-- Two clients never hold one address. Once it is granted to a client with a nonzero hardware
-- address, packets of any clients may come in any order, discovers and further requests among them,
-- none of which faults: as long as the lease has not expired by the clock at which a discover would
-- look at it, at each of these packets and now, a request for the address that comes from another
-- client is ignored and changes nothing, and the search of another client's discover does not end
-- with it.
pub grant_exclusive :
    (d d' e : Server) (msg_a msg_b m : Msg) (last now_a now_b n : ℕ) (l : Lease) (ticks : ℕ → ℕ)
    → grant d msg_a last now_a ≡ replied d' m n
    → take 6 msg_a.chaddr ≢ no_mac
    → Later (slot last) d' e
    → get_elem? e.lease (slot last) ≡ some l
    → expired l.expiry (ticks (slot last)) ≡ false
    → take 6 msg_a.chaddr ≢ take 6 msg_b.chaddr
    → (grant e msg_b last now_b ≡ ignored e)
      × ((discover (take 6 msg_b.chaddr) ticks e.lease 0 max_ip).0 ≢ slot last)
grant_exclusive d d' e msg_a msg_b m last now_a now_b n l ticks granted real later at fresh other =
    let h = grant-Holds d msg_a last now_a d' m n granted in
    let (l', at', own') = Owned-Later _ (slot last) d' e real (h.owner, h.at, h.owned) later in
    let own : l.mac ≡ take 6 msg_a.chaddr = owned_at e.lease (slot last) _ l l' at at' own' in
    let taken : l.mac ≢ no_mac = λ z. real (sym own ∙ z) in
    let different : l.mac ≢ take 6 msg_b.chaddr = λ z. other (sym own ∙ z) in
    (
      grant_taken e msg_b last now_b l at different taken,
      λ offered. elim (discover_picks (take 6 msg_b.chaddr) ticks e.lease 0 max_ip) [
        | inl nothing ↦ absurd (omega (arith, offered, nothing, h.in_range))
        | inr p ↦
            let place : p.index ≡ slot last = omega (arith, p.place, offered) in
            let chosen : get_elem? e.lease (slot last) ≡ some p.chosen =
              ap (get_elem? e.lease) (sym place) ∙ p.at in
            unsuitable (take 6 msg_b.chaddr) (slot last) ticks e.lease l p.chosen at chosen
              different taken fresh
              (subst (λ i. Suitable (take 6 msg_b.chaddr) (ticks i) p.chosen) offered p.suitable)
      ],
    )
