-- ===== src/Tests/Ntp.antt =====
-- The time client on concrete inputs.
use pico_cpp.Common.{ℕ, suc, ◌+◌, ◌-◌, ◌≡◌, refl, arith, List, [], ◌∷◌, ◌++◌, none}
use pico_cpp.Common.{
  ltb, take, drop, get_or, is_negative, ℤ, pos, negsuc, if◌then◌else◌, u32, replicate,
}
use pico_cpp.Common.{◌==◌, false, Bool-cases, inl, inr}
use pico_cpp.Ntp.Client.{Sdk, Ntp, in_progress, ntp_init, run_ntp_test, ntp_recv, is_due}
use pico_cpp.Ntp.Client.{arm_and_query, after_query, ntp_dns_found}
use pico_cpp.Ntp.Watched.{Documented, starts}
use pico_cpp.Ntp.Recovery.{failure_inside_turn, turns}
use pico_cpp.Ntp.Reply.{Reads, reply_time, stray_packet, be32}

abbrev difference : ℕ → ℕ → ℤ
difference from to = if ltb to from then negsuc (from - suc to) else pos (to - from)

abbrev disarm : ℤ → List ℕ → List ℕ
disarm (pos id) (a ∷ armed) = if a == id then armed else a ∷ armed
disarm alarm armed = armed

-- An alarm pool with one alarm, a clock of microseconds, and packets that are lists of bytes.
abbrev sdk : Sdk
sdk = record {
  make_timeout_time_ms = λ now ms. now + ms;
  absolute_time_diff_us = difference;
  add_alarm_in_ms = λ ms armed. (pos 1, 1 ∷ armed);
  cancel_alarm = disarm;
  pbuf_get_at = λ p i. get_or p i 0;
  pbuf_copy_partial = λ p len offset. take len (drop offset p);
}

sdk-Documented : Documented sdk
sdk-Documented = record {
  arms = λ ms. (0, refl);
  cancels = λ id. itself id;
  no_alarm = λ id. refl;
  ordered = λ now time. sign now time;
}
  where
    itself : (id : ℕ) → disarm (pos id) (id ∷ []) ≡ []
    itself id = ground arith

    sign : (now time : ℕ) → is_negative (difference now time) ≡ ltb time now
    sign now time = elim (Bool-cases (ltb time now)) [
      | inl past ↦ rw past refl
      | inr ahead ↦ rw ahead refl
    ]

abbrev asking : Ntp
asking = run_ntp_test sdk ntp_init 1 in_progress

failure_inside_turn_example :
    ((after_query sdk
        (ntp_dns_found sdk (arm_and_query sdk ntp_init in_progress) 2 none)
        1
        in_progress).armed
      ≡ [])
    × (turns sdk
          (after_query sdk
            (ntp_dns_found sdk (arm_and_query sdk ntp_init in_progress) 2 none)
            1
            in_progress)
          ((100000, in_progress) ∷ [])
        ≡ after_query sdk
            (ntp_dns_found sdk (arm_and_query sdk ntp_init in_progress) 2 none)
            1
            in_progress)
unfolding is_due
failure_inside_turn_example =
    failure_inside_turn sdk sdk-Documented ntp_init starts 1 2 ((100000, in_progress) ∷ []) refl

sdk-Reads : Reads sdk
sdk-Reads = record { at = λ p i h. refl; copies = λ p len offset h. refl }

-- A time in 2026, in a packet of a server of stratum 2.
abbrev packet : List ℕ
packet = 0x24 ∷ 2 ∷ replicate 38 0 ++ be32 (u32 (1795000000 + 2208988800)) ++ replicate 4 0

reply_time_example :
    (ntp_recv sdk asking 9 packet asking.ntp_server_address 123).times ≡ 1795000000 ∷ asking.times
reply_time_example =
    reply_time sdk sdk-Reads asking 9 packet 1795000000 refl refl (omega arith) (omega arith) refl

stray_packet_example :
    ((ntp_recv sdk ntp_init 9 packet 77 123).times ≡ [])
    × ((ntp_recv sdk ntp_init 9 packet 77 123).dns_request_sent ≡ false)
stray_packet_example = stray_packet sdk ntp_init 9 packet 77 123 refl
