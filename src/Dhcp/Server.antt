-- ===== src/Dhcp/Server.antt =====
-- dhcpserver.c: the leases and `dhcp_server_process`. lwIP's copy of the packet into `dhcp_msg`
-- and the millisecond clock are arguments; what the copy does not reach is whatever stood there.
use pico_cpp.Common.{same_bytes}
use pico_cpp.Common.{ℕ, ◌+◌, ◌*◌, ◌-◌, ◌^◌, List, [], ◌∷◌, Option, none, some}
use pico_cpp.Common.{Bool, true, false, bit_or, ltb, leb, ◌==◌, if◌then◌else◌}
use pico_cpp.Common.{get_elem?, set, take, drop, replicate, u8, u16, u32, sub32, ◌<<<◌, ◌>>>◌}
use pico_cpp.Dhcp.Options.{found, missing, overread, opt_find, Cursor, opt_write_n}
use pico_cpp.Dhcp.Options.{opt_write_u8, opt_write_u32, opt_write_end}

-- `dhcp_server_lease_t`; a free lease has the zero address.
pub record Lease : Type 0 where
  pub mac : List ℕ
  pub expiry : ℕ

-- `dhcp_server_t` without its socket; the addresses are their four bytes in memory.
pub record Server : Type 0 where
  pub ip : List ℕ
  pub nm : List ℕ
  pub lease : List Lease

-- The fields of `dhcp_msg_t` that the code uses, and `header` for those that it sends back as
-- they came.
pub record Msg : Type 0 where
  pub op : ℕ
  pub header : List ℕ
  pub yiaddr : List ℕ
  pub chaddr : List ℕ
  pub options : List ℕ

abbrev pub max_ip : ℕ
max_ip = 8

abbrev pub base_ip : ℕ
base_ip = 16

abbrev pub no_mac : List ℕ
no_mac = replicate 6 0

-- `(int32_t)(expiry - ticks) < 0` for the 16 bits kept of the time.
unfoldable pub expired : ℕ → ℕ → Bool
expired expiry ticks = leb (2 ^ 31) (sub32 (bit_or (u32 (expiry <<< 16)) 0xffff) ticks)

-- What one round does to a lease that is not the client's, and to `yi`, while none is chosen.
unfoldable pub look_at : Lease → ℕ → ℕ → ℕ → ℕ × Lease
unfolding same_bytes expired
look_at l i yi now =
    if yi == max_ip
    then (let yi' = if same_bytes l.mac no_mac then i else yi in
        if expired l.expiry now then (i, record l { mac = no_mac }) else (yi', l))
    else (yi, l)

-- The search for an address to offer, from lease `i` on; `ticks i` is the clock in round `i`.
unfoldable pub discover : List ℕ → (ℕ → ℕ) → List Lease → ℕ → ℕ → ℕ × List Lease
discover chaddr ticks [] i yi = (yi, [])
discover chaddr ticks (l ∷ ls) i yi = elim (same_bytes l.mac chaddr) [
  | true ↦ (i, l ∷ ls)
  | false ↦
      let (yi', l') = look_at l i yi (ticks i) in
      let (r, ls') = discover chaddr ticks ls (i + 1) yi' in (r, l' ∷ ls')
]

-- `fault` is a read outside the options.
pub data Outcome : Type 0 where
  ignored : Server → Outcome
  replied : Server → Msg → ℕ → Outcome
  fault : Outcome

-- The options that follow the message type, and the length of the reply: 240 bytes come before
-- the options, which begin with the cookie.
unfoldable pub finish : Server → Msg → ℕ → ℕ → Outcome
finish d msg yi msg_type =
    let c_0 : Cursor = record { bytes = msg.options; at = 4 } in
    let c_1 = opt_write_u8 c_0 53 msg_type in
    let c_2 = opt_write_n c_1 54 4 d.ip in
    let c_3 = opt_write_n c_2 1 4 d.nm in
    let c_4 = opt_write_n c_3 3 4 d.ip in
    let c_5 = opt_write_n c_4 6 4 d.ip in
    let c_6 = opt_write_u32 c_5 51 (24 * 60 * 60) in
    let c_7 = opt_write_end c_6 in
    replied d (record msg { yiaddr = set msg.yiaddr 3 (base_ip + yi); options = c_7.bytes })
      (236 + c_7.at)

unfoldable pub on_discover : Server → Msg → (ℕ → ℕ) → Outcome
on_discover d msg ticks =
    let (yi, leases) = discover (take 6 msg.chaddr) ticks d.lease 0 max_ip in
    let d' = record d { lease = leases } in if yi == max_ip then ignored d' else finish d' msg yi 2

-- The lease that a client may have: its own, or a free one, which becomes its own.
unfoldable pub claim : Lease → List ℕ → Option Lease
claim l chaddr =
    if same_bytes l.mac chaddr
    then some l
    else (if same_bytes l.mac no_mac then some (record l { mac = chaddr }) else none)

-- A request for the address whose last byte is `last`.
unfoldable pub grant : Server → Msg → ℕ → ℕ → Outcome
unfolding claim
grant d msg last now =
    let yi = u8 (last + 256 - base_ip) in
    if leb max_ip yi then ignored d else elim (get_elem? d.lease yi) [
      | none ↦ fault
      | some l ↦ elim (claim l (take 6 msg.chaddr)) [
        | none ↦ ignored d
        | some l' ↦
            let l'' = record l' { expiry = u16 (u32 (now + 24 * 60 * 60 * 1000) >>> 16) } in
            finish (record d { lease = set d.lease yi l'' }) msg yi 5
      ]
    ]

unfoldable pub on_request : Server → Msg → ℕ → Outcome
on_request d msg now =
    let opt = drop 4 msg.options in
    elim (opt_find opt 50) [
      | missing ↦ ignored d
      | overread ↦ fault
      | found o ↦ elim (get_elem? opt (o + 4)) [
        | none ↦ fault
        | some _ ↦
            if same_bytes (take 3 (drop (o + 2) opt)) (take 3 d.ip)
            then elim (get_elem? opt (o + 5)) [ none ↦ fault | some last ↦ grant d msg last now ]
            else ignored d
      ]
    ]

-- `tot_len` is the packet's length, `len` what the copy returned; `now` is the clock for a
-- request, `ticks` for the rounds of a discover.
unfoldable pub dhcp_server_process : Server → ℕ → ℕ → Msg → (ℕ → ℕ) → ℕ → Outcome
dhcp_server_process d tot_len len packet ticks now =
    if ltb tot_len 243
    then ignored d
    else (if ltb len 243
        then ignored d
        else (let msg = record packet { op = 2; yiaddr = take 4 d.ip } in
            let opt = drop 4 msg.options in
            elim (opt_find opt 53) [
              | missing ↦ ignored d
              | overread ↦ fault
              | found m ↦ elim (get_elem? opt (m + 2)) [
                | none ↦ fault
                | some kind ↦
                    if kind == 1
                    then on_discover d msg ticks
                    else (if kind == 3 then on_request d msg now else ignored d)
              ]
            ]))

unfoldable pub dhcp_server_init : List ℕ → List ℕ → Server
dhcp_server_init ip nm = record {
  ip = ip;
  nm = nm;
  lease = replicate max_ip (record { mac = no_mac; expiry = 0 });
}
