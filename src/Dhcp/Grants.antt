-- ===== src/Dhcp/Grants.antt =====
-- dhcpserver.c: what a request for an address does to the leases.
use pico_cpp.Common.{same_bytes, same_bytes_eq}
use pico_cpp.Common.{ℕ, ◌+◌, ◌*◌, ◌-◌, ◌≤◌, ◌<◌, ◌≡◌, ◌≢◌, sym, ◌∙◌, arith}
use pico_cpp.Common.{List, none, some, false, get_elem?}
use pico_cpp.Common.{take, set, Option-cases, Bool-cases, inl, inr, u8}
use pico_cpp.Common.{
  leb, u16, u32, ◌>>>◌, get_elem?-set_self, get_elem?-set_ne, lt-length_of_get_elem?,
}
use pico_cpp.Dhcp.Server.{Lease, Server, Msg, ignored, replied, fault, no_mac}
use pico_cpp.Dhcp.Server.{max_ip, base_ip, claim, grant, finish}

-- The lease that a request for the address with last byte `last` is about.
abbrev pub slot : ℕ → ℕ
slot last = u8 (last + 256 - base_ip)

claim_mac : (l l' : Lease) (chaddr : List ℕ) → claim l chaddr ≡ some l' → l'.mac ≡ chaddr
unfolding claim
claim_mac l l' chaddr h = ground (arith, same_bytes_eq l.mac chaddr)

same_bytes_ne : (xs ys : List ℕ) → xs ≢ ys → same_bytes xs ys ≡ false
same_bytes_ne xs ys h = elim (Bool-cases (same_bytes xs ys)) [
  | inl e ↦ absurd (h (same_bytes_eq xs ys e))
  | inr e ↦ e
]

claim_refused :
    (l : Lease) (chaddr : List ℕ) → l.mac ≢ chaddr → l.mac ≢ no_mac → claim l chaddr ≡ none
unfolding claim
claim_refused l chaddr other taken =
    ground (arith, same_bytes_ne l.mac chaddr other, same_bytes_ne l.mac no_mac taken)

-- What holds once an address has been granted.
pub record Holds (d : Server) (chaddr : List ℕ) (last : ℕ) (d' : Server) : Type 0 where
  pub owner : Lease
  pub in_range : slot last < max_ip
  pub at : get_elem? d'.lease (slot last) ≡ some owner
  pub owned : owner.mac ≡ chaddr
  pub others : (j : ℕ) → slot last ≢ j → get_elem? d'.lease j ≡ get_elem? d.lease j

module _ (d : Server) (msg : Msg) (last now : ℕ) where
  abbrev renewed : Lease → Lease
  renewed l = record l { expiry = u16 (u32 (now + 24 * 60 * 60 * 1000) >>> 16) }

  grant_at :
      (l l' : Lease)
      → slot last < max_ip
      → get_elem? d.lease (slot last) ≡ some l
      → claim l (take 6 msg.chaddr) ≡ some l'
      → grant d msg last now
        ≡ finish (record d { lease = set d.lease (slot last) (renewed l') }) msg (slot last) 5
  unfolding grant
  grant_at l l' h at c = ground arith

  grant_far : max_ip ≤ slot last → grant d msg last now ≡ ignored d
  unfolding grant
  grant_far h = ground arith

  grant_absent :
      slot last < max_ip → get_elem? d.lease (slot last) ≡ none → grant d msg last now ≡ fault
  unfolding grant
  grant_absent h e = ground arith

  grant_refused :
      (l : Lease)
      → slot last < max_ip
      → get_elem? d.lease (slot last) ≡ some l
      → claim l (take 6 msg.chaddr) ≡ none
      → grant d msg last now ≡ ignored d
  unfolding grant
  grant_refused l h at c = ground arith

  pub finish_server :
      (e d' : Server) (m : Msg) (n yi kind : ℕ) → finish e msg yi kind ≡ replied d' m n → d' ≡ e
  unfolding finish
  finish_server e d' m n yi kind h = ground arith

  Holds-claim :
      (l l' : Lease) (d' : Server)
      → slot last < max_ip
      → get_elem? d.lease (slot last) ≡ some l
      → claim l (take 6 msg.chaddr) ≡ some l'
      → d' ≡ record d { lease = set d.lease (slot last) (renewed l') }
      → Holds d (take 6 msg.chaddr) last d'
  Holds-claim l l' d' h at c e = record {
    owner = renewed l';
    in_range = h;
    at = rw e (
        get_elem?-set_self d.lease (slot last) (renewed l')
          (lt-length_of_get_elem? d.lease (slot last) l at));
    owned = claim_mac l l' (take 6 msg.chaddr) c;
    others = λ j ne. rw e (get_elem?-set_ne d.lease (slot last) j (renewed l') ne);
  }

  -- A request that is granted makes the lease the client's and leaves every other lease alone.
  pub grant-Holds :
      (d' : Server) (m : Msg) (n : ℕ)
      → grant d msg last now ≡ replied d' m n
      → Holds d (take 6 msg.chaddr) last d'
  grant-Holds d' m n granted = elim (Bool-cases (leb max_ip (slot last))) [
    | inl far ↦ cc (grant_far (ground arith))
    | inr near ↦
        let h : slot last < max_ip = ground arith in
        elim (Option-cases (get_elem? d.lease (slot last))) [
          | inl out ↦ cc (grant_absent h out)
          | inr (l, at) ↦ elim (Option-cases (claim l (take 6 msg.chaddr))) [
            | inl refused ↦ cc (grant_refused l h at refused)
            | inr (l', c) ↦
                Holds-claim l l' d' h at c
                  (finish_server _ d' m n (slot last) 5 (sym (grant_at l l' h at c) ∙ granted))
          ]
        ]
  ]

  -- A lease that another client holds is neither granted nor changed.
  pub grant_taken :
      (l : Lease)
      → get_elem? d.lease (slot last) ≡ some l
      → l.mac ≢ take 6 msg.chaddr
      → l.mac ≢ no_mac
      → grant d msg last now ≡ ignored d
  grant_taken l at other taken = elim (Bool-cases (leb max_ip (slot last))) [
    | inl far ↦ grant_far (ground arith)
    | inr near ↦ grant_refused l (ground arith) at (claim_refused l (take 6 msg.chaddr) other taken)
  ]
