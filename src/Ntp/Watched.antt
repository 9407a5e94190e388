-- ===== src/Ntp/Watched.antt =====
-- picow_ntp_client.c: what holds between the turns of the loop, the callbacks and the alarm.
use pico_cpp.Common.{ℕ, suc, ◌≡◌, ◌∙◌, refl, ap, sym, arith, List, [], ◌∷◌}
use pico_cpp.Common.{Option, none, some, true, false, ltb, Bool-cases, inl, inr, pos}
use pico_cpp.Common.{is_negative, sub32}
use mathlib.Core.Path.{subst}
use pico_cpp.Ntp.Client.{Sdk, Ntp, DnsResult, cached, in_progress, failed, ntp_init, ntp_result}
use pico_cpp.Ntp.Client.{ntp_request, ntp_failed_handler, ntp_dns_found, ntp_recv, is_due, is_reply}
use pico_cpp.Ntp.Client.{arm_and_query, after_query, run_ntp_test, seconds_since_1900}

-- What the SDK documents: a new alarm has a positive id, a cancelled one does not fire, and times
-- are ordered.
pub record Documented (sdk : Sdk) : Type 0 where
  pub arms : (ms : ℕ) → (id : ℕ) × (sdk.add_alarm_in_ms ms [] ≡ (pos (suc id), suc id ∷ []))
  pub cancels : (id : ℕ) → sdk.cancel_alarm (pos id) (id ∷ []) ≡ []
  pub no_alarm : (id : ℕ) → sdk.cancel_alarm (pos id) [] ≡ []
  pub ordered : (now time : ℕ) → is_negative (sdk.absolute_time_diff_us now time) ≡ ltb time now

-- The alarm pool disarms an alarm that goes off, and calls the handler.
abbrev pub fire : Sdk → Ntp → ℕ → List ℕ → Ntp
fire sdk state now [] = state
fire sdk state now (id ∷ armed) = (ntp_failed_handler sdk (record state { armed = armed }) now).0

-- The orders of the loop's turns, the callbacks of lwIP and the alarm, each as a whole.
pub data Reachable (sdk : Sdk) : Ntp → Type 0 where
  starts : Reachable sdk ntp_init
  loops :
      (s : Ntp) (now : ℕ) (answer : DnsResult)
      → Reachable sdk s
      → Reachable sdk (run_ntp_test sdk s now answer)
  finds :
      (s : Ntp) (now : ℕ) (ipaddr : Option ℕ)
      → Reachable sdk s
      → Reachable sdk (ntp_dns_found sdk s now ipaddr)
  receives :
      (s : Ntp) (now : ℕ) (p : List ℕ) (addr port : ℕ)
      → Reachable sdk s
      → Reachable sdk (ntp_recv sdk s now p addr port)
  alarms : (s : Ntp) (now : ℕ) → Reachable sdk s → Reachable sdk (fire sdk s now s.armed)

-- A request is under way exactly while its alarm is armed, and no other alarm is.
pub data Sound (s : Ntp) : Type 0 where
  waiting :
      (id : ℕ)
      → s.dns_request_sent ≡ true
      → s.ntp_resend_alarm ≡ pos (suc id)
      → s.armed ≡ suc id ∷ []
      → Sound s
  resting : s.dns_request_sent ≡ false → s.ntp_resend_alarm ≡ pos 0 → s.armed ≡ [] → Sound s

module _ (sdk : Sdk) (known : Documented sdk) where
  -- The end of a request whose alarm is armed, or has gone off, and the end of none.
  pub ends_armed :
      (s : Ntp) (now id : ℕ) (result : Option ℕ)
      → s.ntp_resend_alarm ≡ pos (suc id)
      → s.armed ≡ suc id ∷ []
      → Sound (ntp_result sdk s now result)
  unfolding ntp_result
  ends_armed s now id none alarm armed =
      resting refl (rw (ntp_result, alarm) refl)
        (rw (ntp_result, alarm, armed) (known.cancels (suc id)))
  ends_armed s now id (some epoch) alarm armed =
      resting refl (rw (ntp_result, alarm) refl)
        (rw (ntp_result, alarm, armed) (known.cancels (suc id)))

  ends_fired :
      (s : Ntp) (now id : ℕ) (result : Option ℕ)
      → s.ntp_resend_alarm ≡ pos (suc id)
      → s.armed ≡ []
      → Sound (ntp_result sdk s now result)
  unfolding ntp_result
  ends_fired s now id none alarm armed =
      resting refl (rw (ntp_result, alarm) refl)
        (rw (ntp_result, alarm, armed) (known.no_alarm (suc id)))
  ends_fired s now id (some epoch) alarm armed =
      resting refl (rw (ntp_result, alarm) refl)
        (rw (ntp_result, alarm, armed) (known.no_alarm (suc id)))

  ends_none :
      (s : Ntp) (now : ℕ) (result : Option ℕ)
      → s.ntp_resend_alarm ≡ pos 0
      → s.armed ≡ []
      → Sound (ntp_result sdk s now result)
  unfolding ntp_result
  ends_none s now none alarm armed =
      resting refl (rw (ntp_result, alarm) refl) (rw (ntp_result, alarm) armed)
  ends_none s now (some epoch) alarm armed =
      resting refl (rw (ntp_result, alarm) refl) (rw (ntp_result, alarm) armed)

  result-Sound :
      (s : Ntp) (now : ℕ) (result : Option ℕ) → Sound s → Sound (ntp_result sdk s now result)
  result-Sound s now result (waiting id sent alarm armed) = ends_armed s now id result alarm armed
  result-Sound s now result (resting sent alarm armed) = ends_none s now result alarm armed

  request-Sound : (s : Ntp) → Sound s → Sound (ntp_request sdk s)
  unfolding ntp_request
  request-Sound s (waiting id sent alarm armed) = waiting id sent alarm armed
  request-Sound s (resting sent alarm armed) = resting sent alarm armed

  found-Sound :
      (s : Ntp) (now : ℕ) (ipaddr : Option ℕ) → Sound s → Sound (ntp_dns_found sdk s now ipaddr)
  unfolding ntp_dns_found
  found-Sound s now none w = result-Sound s now none w
  found-Sound s now (some ipaddr) (waiting id sent alarm armed) =
      request-Sound (record s { ntp_server_address = ipaddr }) (waiting id sent alarm armed)
  found-Sound s now (some ipaddr) (resting sent alarm armed) =
      request-Sound (record s { ntp_server_address = ipaddr }) (resting sent alarm armed)

  recv-Sound :
      (s : Ntp) (now : ℕ) (p : List ℕ) (addr port : ℕ)
      → Sound s
      → Sound (ntp_recv sdk s now p addr port)
  unfolding ntp_recv
  recv-Sound s now p addr port w = elim (Bool-cases (is_reply sdk s p addr port)) [
    | inl good ↦
        rw (ntp_recv, good)
          (result-Sound s now (some (sub32 (seconds_since_1900 sdk p) 2208988800)) w)
    | inr bad ↦ rw (ntp_recv, bad) (result-Sound s now none w)
  ]

  fire-Sound :
      (s : Ntp) (now : ℕ) (armed : List ℕ)
      → s.armed ≡ armed
      → Sound s
      → Sound (fire sdk s now armed)
  unfolding ntp_failed_handler
  fire-Sound s now [] e w = w
  fire-Sound s now (id ∷ others) e (waiting k sent alarm armed) =
      let last : others ≡ [] = cc (e, armed) in
      ends_fired (record s { armed = others }) now k none alarm last
  fire-Sound s now (id ∷ others) e (resting sent alarm armed) = absurd (cc (e, armed))

  -- The state once an alarm has been armed for the query, and the loop's flag set.
  asked : Ntp → DnsResult → ℕ → Ntp
  asked s answer id = record (arm_and_query sdk s answer) {
    ntp_resend_alarm = pos (suc id);
    armed = suc id ∷ [];
    dns_request_sent = true;
  }

  arm_lem :
      (s : Ntp) (answer : DnsResult) (id : ℕ)
      → sdk.add_alarm_in_ms 10000 s.armed ≡ (pos (suc id), suc id ∷ [])
      → record (arm_and_query sdk s answer) { dns_request_sent = true } ≡ asked s answer id
  unfolding asked arm_and_query
  arm_lem s answer id added = rw (arm_and_query, added) refl

  query-Sound :
      (s : Ntp) (now : ℕ) (answer : DnsResult)
      → s.armed ≡ []
      → Sound (after_query sdk (arm_and_query sdk s answer) now answer)
  unfolding after_query asked
  query-Sound s now answer armed =
      let new = known.arms 10000 in
      let added : sdk.add_alarm_in_ms 10000 s.armed ≡ (pos (suc new.0), suc new.0 ∷ []) =
        ap (sdk.add_alarm_in_ms 10000) armed ∙ new.1 in
      let e = arm_lem s answer new.0 added in by_answer answer new.0 e
    where
      by_answer :
          (answer : DnsResult) (id : ℕ)
          → record (arm_and_query sdk s answer) { dns_request_sent = true } ≡ asked s answer id
          → Sound (after_query sdk (arm_and_query sdk s answer) now answer)
      by_answer (cached ipaddr) id e =
          subst (λ x. Sound (ntp_request sdk x)) (sym e)
            (request-Sound (asked s (cached ipaddr) id) (waiting id refl refl refl))
      by_answer in_progress id e = subst Sound (sym e) (waiting id refl refl refl)
      by_answer failed id e =
          subst (λ x. Sound (ntp_result sdk x now none)) (sym e)
            (ends_armed (asked s failed id) now id none refl refl)

  pub not_sent_when_due : (s : Ntp) (now : ℕ) → is_due sdk s now ≡ true → s.dns_request_sent ≡ false
  unfolding is_due
  not_sent_when_due s now due = ground arith

  loop-Sound :
      (s : Ntp) (now : ℕ) (answer : DnsResult) → Sound s → Sound (run_ntp_test sdk s now answer)
  unfolding run_ntp_test
  loop-Sound s now answer (waiting id sent alarm armed) = elim (Bool-cases (is_due sdk s now)) [
    | inl due ↦ absurd (cc (not_sent_when_due s now due, sent))
    | inr early ↦ rw (run_ntp_test, early) (waiting id sent alarm armed)
  ]
  loop-Sound s now answer (resting sent alarm armed) = elim (Bool-cases (is_due sdk s now)) [
    | inl due ↦ rw (run_ntp_test, due) (query-Sound s now answer armed)
    | inr early ↦ rw (run_ntp_test, early) (resting sent alarm armed)
  ]

  pub client-Sound : (s : Ntp) → Reachable sdk s → Sound s
  client-Sound s starts = resting refl refl refl
  client-Sound s (loops b now answer r) = loop-Sound b now answer (client-Sound b r)
  client-Sound s (finds b now ipaddr r) = found-Sound b now ipaddr (client-Sound b r)
  client-Sound s (receives b now p addr port r) = recv-Sound b now p addr port (client-Sound b r)
  client-Sound s (alarms b now r) = fire-Sound b now b.armed refl (client-Sound b r)
