-- ===== src/Tests/Dhcp.antt =====
-- dhcpserver.c: the theorems on two clients and a server with eight free leases.
use pico_cpp.Common.{same_bytes}
use pico_cpp.Common.{
  ℕ, u16, u32, ◌>>>◌, zero, suc, ◌+◌, ◌*◌, ◌<◌, ◌≡◌, ◌≢◌, ◌⊎◌, refl, arith, List, [], ◌∷◌, ◌++◌,
}
use pico_cpp.Common.{some, true, false, get_elem?, replicate, take, drop, set}
use pico_cpp.Dhcp.Options.{found, opt_find, opt_find_loop}
use pico_cpp.Dhcp.Server.{Lease, Server, Msg, ignored, replied, grant, claim, finish, discover}
use pico_cpp.Dhcp.Server.{dhcp_server_process, on_discover}
use pico_cpp.Dhcp.Server.{max_ip, expired, look_at, no_mac}
use pico_cpp.Dhcp.Lookup.{encode, position, opt_find-encode, opt_find_enough, opt_find-found}
use pico_cpp.Dhcp.Leases.{Suitable, discover_offers, discover_own, discover_keeps}
use pico_cpp.Dhcp.Grants.{Holds, grant-Holds}
use pico_cpp.Dhcp.Exclusive.{server_of, here, after, grant_exclusive}
use pico_cpp.Dhcp.Reply.{reply_options, finish_readable, address}

abbrev options : List ℕ
options = encode ((53, 3 ∷ []) ∷ (50, 192 ∷ 168 ∷ 4 ∷ 18 ∷ []) ∷ [])

opt_find-encode_example :
    opt_find (encode ((53, 3 ∷ []) ∷ (50, 192 ∷ 168 ∷ 4 ∷ 18 ∷ []) ∷ []) ++ (255 ∷ 0 ∷ [])) 50
    ≡ found 3
opt_find-encode_example =
    opt_find-encode ((53, 3 ∷ []) ∷ (50, 192 ∷ 168 ∷ 4 ∷ 18 ∷ []) ∷ []) 50 (0 ∷ [])
      (omega arith, (omega arith, tt)) (omega arith)

opt_find_enough_example :
    opt_find (53 ∷ 1 ∷ 3 ∷ 255 ∷ []) 53 ≡ opt_find_loop 200 (53 ∷ 1 ∷ 3 ∷ 255 ∷ []) 53 0
opt_find_enough_example = opt_find_enough 200 (53 ∷ 1 ∷ 3 ∷ 255 ∷ []) 53 (omega arith)

found_53 : opt_find (53 ∷ 1 ∷ 3 ∷ 255 ∷ []) 53 ≡ found 0
unfolding opt_find
found_53 = refl

opt_find-found_example : (0 < 308) × (get_elem? {A = ℕ} (53 ∷ 1 ∷ 3 ∷ 255 ∷ []) 0 ≡ some 53)
opt_find-found_example = opt_find-found (53 ∷ 1 ∷ 3 ∷ 255 ∷ []) 53 0 found_53

abbrev server : Server
server = record {
  ip = address 192 168 4 1;
  nm = address 255 255 255 0;
  lease = replicate max_ip (record { mac = no_mac; expiry = 0 });
}

abbrev request_of : List ℕ → Msg
request_of chaddr = record {
  op = 2;
  header = [];
  yiaddr = 192 ∷ 168 ∷ 4 ∷ 1 ∷ [];
  chaddr = chaddr;
  options = 99 ∷ 130 ∷ 83 ∷ 99 ∷ replicate 308 0;
}

abbrev alice : List ℕ
alice = 1 ∷ 2 ∷ 3 ∷ 4 ∷ 5 ∷ 6 ∷ []

abbrev bob : List ℕ
bob = 6 ∷ 5 ∷ 4 ∷ 3 ∷ 2 ∷ 1 ∷ []

finish_readable_example :
    (m : Msg) × (finish server (request_of alice) 2 5 ≡ replied server m 274)
    × (m.yiaddr ≡ 192 ∷ 168 ∷ 4 ∷ 18 ∷ [])
    × (take 4 m.options ≡ 99 ∷ 130 ∷ 83 ∷ 99 ∷ [])
    × ((cmd : ℕ) → opt_find (drop 4 m.options) cmd ≡ position (reply_options server 5) cmd 0)
finish_readable_example =
    finish_readable 192 168 4 1 255 255 255 0 server.lease (request_of alice) 99 130 83 99
      (replicate 308 0) 2 5 refl

-- Alice has been granted 192.168.4.18.
abbrev alice_has : Lease
alice_has = record { mac = alice; expiry = u16 (u32 (0 + 24 * 60 * 60 * 1000) >>> 16) }

abbrev granted : Server
granted = record server { lease = set server.lease 2 alice_has }

abbrev granted_reply : (m : Msg) × (finish granted (request_of alice) 2 5 ≡ replied granted m 274)
granted_reply =
    let r =
      finish_readable 192 168 4 1 255 255 255 0 granted.lease (request_of alice) 99 130 83 99
        (replicate 308 0) 2 5 refl in
    (r.0, r.1)

granting : grant server (request_of alice) 18 0 ≡ replied granted granted_reply.0 274
unfolding grant claim same_bytes
granting = granted_reply.1

grant-Holds_example : Holds server alice 18 granted
grant-Holds_example =
    grant-Holds server (request_of alice) 18 0 granted granted_reply.0 274 granting

-- A discover of Bob, which comes behind the grant.
abbrev bob_asks : Msg
bob_asks = record (request_of bob) {
  options = 99 ∷ 130 ∷ 83 ∷ 99 ∷ 53 ∷ 1 ∷ 1 ∷ 255 ∷ replicate 304 0;
}

bob_offered : server_of (dhcp_server_process granted 300 300 bob_asks (λ i. 5) 5) ≡ some granted
unfolding dhcp_server_process opt_find opt_find_loop on_discover discover look_at same_bytes expired
    finish
bob_offered = refl

still_alice : expired 1318 5 ≡ false
unfolding expired
still_alice = refl

grant_exclusive_example :
    (grant granted (request_of bob) 18 7 ≡ ignored granted)
    × ((discover bob (λ i. 7) granted.lease 0 8).0 ≢ 2)
unfolding expired
grant_exclusive_example =
    grant_exclusive server granted granted (request_of alice) (request_of bob) granted_reply.0 18 0
      7 274 alice_has (λ i. 7) granting (λ e. cc e)
      (after alice_has 300 300 bob_asks (λ i. 5) 5 here refl still_alice bob_offered) refl refl
      (λ e. cc e)

discover_offers_example : (l : Lease) × (get_elem? server.lease 0 ≡ some l) × Suitable bob 0 l
unfolding discover look_at same_bytes expired
discover_offers_example = discover_offers bob (λ _. 0) server.lease 0 refl refl (omega arith)

discover_own_example : (discover alice (λ _. 0) granted.lease 0 8).0 ≡ 2
discover_own_example =
    discover_own alice (λ _. 0) granted.lease 0 8 2 alice_has refl refl
      (λ j m below at. not_alice j m below at)
  where
    not_alice : (j : ℕ) (m : Lease) → j < 2 → get_elem? granted.lease j ≡ some m → m.mac ≢ alice
    not_alice zero m below at own = cc
    not_alice (suc zero) m below at own = cc
    not_alice (suc (suc j)) m below at own = absurd (omega arith)

discover_keeps_example :
    (get_elem? (discover bob (λ _. 0) granted.lease 0 8).1 2 ≡ some alice_has)
    ⊎ (expired alice_has.expiry 0 ≡ true)
discover_keeps_example = discover_keeps bob (λ _. 0) granted.lease 0 8 2 alice_has refl
