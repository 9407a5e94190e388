-- ===== src/Dhcp/Reply.antt =====
-- dhcpserver.c: the options of a reply, read back with `opt_find`.
use pico_cpp.Common.{ℕ, ◌+◌, ◌≡◌, refl, arith}
use pico_cpp.Common.{List, [], ◌∷◌, ◌++◌, take, drop, set}
use pico_cpp.Dhcp.Options.{opt_find, opt_write_n, opt_write_u8, opt_write_u32}
use pico_cpp.Dhcp.Options.{opt_write_end}
use pico_cpp.Dhcp.Server.{Lease, Server, Msg, replied, finish}
use pico_cpp.Dhcp.Lookup.{encode, position, opt_find-encode}

-- The options of a reply, in order: the message type, the server, the mask, the router, the name
-- server and the lease time in seconds.
abbrev pub reply_options : Server → ℕ → List (ℕ × List ℕ)
reply_options d kind =
    (53, kind ∷ [])
    ∷ (54, take 4 d.ip)
    ∷ (1, take 4 d.nm)
    ∷ (3, take 4 d.ip)
    ∷ (6, take 4 d.ip)
    ∷ (51, 0 ∷ 1 ∷ 0x51 ∷ 0x80 ∷ [])
    ∷ []

-- The four bytes of an address.
abbrev pub address : ℕ → ℕ → ℕ → ℕ → List ℕ
address a b c e = a ∷ b ∷ c ∷ e ∷ []

-- A reply is 274 bytes long, carries the chosen address in the last byte of `yiaddr`, keeps the
-- magic cookie, and a client that looks for an option with the same search finds each of the six
-- where it stands in the list, and no other, for a server whose addresses have four bytes.
pub finish_readable :
    (a b c e a' b' c' e' : ℕ) (leases : List Lease) (msg : Msg) (k0 k1 k2 k3 : ℕ) (rest : List ℕ)
    (yi kind : ℕ)
    → let d : Server = record { ip = address a b c e; nm = address a' b' c' e'; lease = leases } in
      msg.options ≡ k0 ∷ k1 ∷ k2 ∷ k3 ∷ rest
      → (m : Msg) × (finish d msg yi kind ≡ replied d m 274)
        × (m.yiaddr ≡ set msg.yiaddr 3 (16 + yi))
        × (take 4 m.options ≡ take 4 msg.options)
        × ((cmd : ℕ) → opt_find (drop 4 m.options) cmd ≡ position (reply_options d kind) cmd 0)
finish_readable a b c e a' b' c' e' leases msg k0 k1 k2 k3 rest yi kind opts =
    let d : Server = record { ip = address a b c e; nm = address a' b' c' e'; lease = leases } in
    (
      sent,
      writes,
      refl,
      rw opts,
      λ cmd. opt_find-encode (reply_options d kind) cmd left (omega arith) (omega arith),
    )
  where
    left : List ℕ
    left = drop 1 (drop 6 (drop 6 (drop 6 (drop 6 (drop 6 (drop 3 rest))))))

    server : Server
    server = record { ip = address a b c e; nm = address a' b' c' e'; lease = leases }

    sent : Msg
    sent = record msg {
      yiaddr = set msg.yiaddr 3 (16 + yi);
      options = k0 ∷ k1 ∷ k2 ∷ k3 ∷ (encode (reply_options server kind) ++ (255 ∷ left));
    }

    writes : finish server msg yi kind ≡ replied server sent 274
    writes = unfold finish opt_write_n opt_write_u8 opt_write_u32 opt_write_end in rw opts
