-- ===== src/Ntp/Recovery.antt =====
-- picow_ntp_client.c: the client always asks again when the callbacks run between the loop's turns,
-- and can be stuck when one runs inside a turn.
use pico_cpp.Common.{ℕ, suc, ◌≡◌, ◌∙◌, refl, ap, arith, List, [], ◌∷◌}
use pico_cpp.Common.{Option, none, true, false, pos}
use pico_cpp.Ntp.Client.{Sdk, Ntp, DnsResult, in_progress, ntp_result}
use pico_cpp.Ntp.Client.{ntp_dns_found, is_due}
use pico_cpp.Ntp.Client.{arm_and_query, after_query, run_ntp_test}
use pico_cpp.Ntp.Watched.{Documented, Reachable, Sound, waiting, resting, client-Sound, ends_armed}
use pico_cpp.Ntp.Watched.{not_sent_when_due}

module _ (sdk : Sdk) where
  result_clears :
      (s : Ntp) (now : ℕ) (result : Option ℕ)
      → (ntp_result sdk s now result).dns_request_sent ≡ false
  unfolding ntp_result
  result_clears s now result = refl

  abbrev pub turns : Ntp → List (ℕ × DnsResult) → Ntp
  turns s [] = s
  turns s (x ∷ later) = turns (run_ntp_test sdk s x.0 x.1) later

  stays : (s : Ntp) (later : List (ℕ × DnsResult)) → s.dns_request_sent ≡ true → turns s later ≡ s
  unfolding run_ntp_test is_due
  stays s [] sent = refl
  stays s (x ∷ later) sent =
      let early : is_due sdk s x.0 ≡ false = rw (is_due, sent) (ground arith) in
      let same : run_ntp_test sdk s x.0 x.1 ≡ s = rw (run_ntp_test, early) refl in
      ap (λ y. turns y later) same ∙ stays s later sent

  cleared :
      (s : Ntp) (t : ℕ) → Sound (ntp_result sdk s t none) → (ntp_result sdk s t none).armed ≡ []
  cleared s t (waiting id sent alarm armed) = absurd (cc (sent, result_clears s t none))
  cleared s t (resting sent alarm armed) = armed

  disarmed :
      Documented sdk
      → (s : Ntp) (t : ℕ) → Sound s
      → s.dns_request_sent ≡ false
      → (ntp_result sdk (arm_and_query sdk s in_progress) t none).armed ≡ []
  unfolding arm_and_query
  disarmed known s t (waiting id sent alarm armed) free = absurd (cc (sent, free))
  disarmed known s t (resting sent alarm armed) free =
      let new = known.arms 10000 in
      let added : sdk.add_alarm_in_ms 10000 s.armed ≡ (pos (suc new.0), suc new.0 ∷ []) =
        ap (sdk.add_alarm_in_ms 10000) armed ∙ new.1 in
      cleared (arm_and_query sdk s in_progress) t (
        ends_armed sdk known (arm_and_query sdk s in_progress) t new.0 none (ap (λ x. x.0) added)
          (ap (λ x. x.1) added))

  -- A turn asks for a name, and the failure of that query is called back before the turn goes on,
  -- as it can be when lwIP runs in interrupts. Then the turn sets the flag of a request under way
  -- with no alarm armed, and no later turn of the loop does anything.
  pub failure_inside_turn :
      Documented sdk
      → (s : Ntp) → Reachable sdk s
      → (now t : ℕ) (later : List (ℕ × DnsResult)) → is_due sdk s now ≡ true
      → ((after_query sdk
            (ntp_dns_found sdk (arm_and_query sdk s in_progress) t none)
            now
            in_progress).armed
          ≡ [])
        × (turns
              (after_query sdk
                (ntp_dns_found sdk (arm_and_query sdk s in_progress) t none)
                now
                in_progress)
              later
            ≡ after_query sdk
                (ntp_dns_found sdk (arm_and_query sdk s in_progress) t none)
                now
                in_progress)
  unfolding after_query ntp_dns_found
  failure_inside_turn known s r now t later due = (
    disarmed known s t (client-Sound sdk known s r) (not_sent_when_due sdk known s now due),
    stays _ later refl,
  )
