-- ===== src/Hid/Dispatch.antt =====
-- host_cdc_msc_hid/hid_app.c: which handler a report with an id reaches.
use pico_cpp.Common.{ℕ, zero, suc, ◌<◌, ◌≡◌, ◌≢◌, ◌∙◌, refl, ap, arith}
use pico_cpp.Common.{List, [], ◌∷◌, ◌++◌, Option, none, some, true, false, ◌==◌}
use pico_cpp.Common.{get_elem?, length, All, set}
use pico_cpp.Common.{◌&&◌}
use pico_cpp.Common.{get_elem?-set_self, lt-length_of_get_elem?}
use pico_cpp.Hid.Host.{Tusb, Host, ReportInfo, HidInfo}
use pico_cpp.Hid.Host.{print}
use pico_cpp.Hid.Host.{find_info}
use pico_cpp.Hid.Host.{select_info, use_info, process_generic_report, request_next, mounted}
use pico_cpp.Hid.Host.{tuh_hid_report_received_cb, parse_generic, tuh_hid_mount_cb}
use pico_cpp.Hid.Host.{report_count_line, protocol_line}

-- The other infos with their ids apart from `id`.
abbrev pub Others : ℕ → List ReportInfo → Type 0
Others id = All (λ info. id ≢ info.report_id)

found_behind :
    (before after : List ReportInfo) (info : ReportInfo) (id count : ℕ)
    → Others id before
    → info.report_id ≡ id
    → length before < count
    → find_info (before ++ info ∷ after) count id ≡ some info
unfolding find_info
found_behind [] after info id zero others is room = absurd (omega arith)
found_behind [] after info id (suc count) others is room =
    let same : (id == info.report_id) ≡ true = ground arith in rw (find_info, same) refl
found_behind (x ∷ before) after info id zero others is room = absurd (omega arith)
found_behind (x ∷ before) after info id (suc count) others is room =
    let differs : (id == x.report_id) ≡ false = ground arith in
    let rest = found_behind before after info id count others.1 is (omega arith) in
    rw (find_info, differs) rest

-- The values of TinyUSB's protocols.
pub record Protocols (tusb : Tusb) : Type 0 where
  pub none_is : tusb.protocol_none ≡ 0
  pub keyboard_is : tusb.protocol_keyboard ≡ 1
  pub mouse_is : tusb.protocol_mouse ≡ 2

selected :
    (before after : List ReportInfo) (info : ReportInfo) (id count : ℕ) (payload : List ℕ)
    → Others id before
    → info.report_id ≡ id
    → id ≢ 0
    → length before < count
    → select_info
        (record { report_count = count; report_info = before ++ info ∷ after })
        (id ∷ payload)
      ≡ (some info, payload)
unfolding select_info
selected [] after info id count payload others is some_id room =
    let not_zero : (count == 1) && (info.report_id == 0) ≡ false = ground arith in
    rw (select_info, not_zero, found_behind [] after info id count others is room) refl
selected (x ∷ before) after info id count payload others is some_id room =
    let several : (count == 1) && (x.report_id == 0) ≡ false = ground arith in
    rw (select_info, several, found_behind (x ∷ before) after info id count others is room) refl

same_result : (r : Option Host) → elim r [ none ↦ none | some h ↦ some (request_next h true) ] ≡ r
unfolding request_next
same_result none = refl
same_result (some h) = refl

module _ (tusb : Tusb) (values : Protocols tusb) (h : Host) (dev_addr i : ℕ) where
  -- The state that a device without a boot protocol leaves when it is mounted.
  abbrev pub after_mount : ℕ → List ReportInfo → Host
  after_mount count infos =
      print
        (record (print h (mounted dev_addr i ∷ protocol_line 0 ∷ [])) {
          hid_info = set h.hid_info i (record { report_count = count; report_info = infos });
        })
        (report_count_line count ∷ [])

  mount_parses :
      (desc : List ℕ) (old : HidInfo) (count : ℕ) (infos : List ReportInfo)
      → get_elem? h.hid_info i ≡ some old
      → tusb.parse_report_descriptor old.report_info 4 desc ≡ (count, infos)
      → tuh_hid_mount_cb tusb h dev_addr i 0 desc true ≡ some (after_mount count infos)
  unfolding tuh_hid_mount_cb parse_generic request_next
  mount_parses desc old count infos here parsed =
      rw (tuh_hid_mount_cb, values.none_is, parse_generic, here, parsed) refl

  generic_here :
      (m : Host) (info : HidInfo) (report : List ℕ)
      → get_elem? m.hid_info i ≡ some info
      → process_generic_report tusb m i report
        ≡ use_info tusb m (select_info info report).0 (select_info info report).1
  unfolding process_generic_report
  generic_here m info report here = rw (process_generic_report, here) refl

  received_generic :
      (m : Host) (report : List ℕ)
      → tuh_hid_report_received_cb tusb m i 0 report true ≡ process_generic_report tusb m i report
  unfolding tuh_hid_report_received_cb
  received_generic m report =
      rw (tuh_hid_report_received_cb, values.keyboard_is, values.mouse_is)
        (same_result (process_generic_report tusb m i report))

  -- A device without a boot protocol is mounted at an instance that exists, and its descriptor lists
  -- `info` with a report id that is not 0 and that no info before it has. Then a report with that id
  -- in front is handled by `info`'s usage, with the bytes behind the id.
  pub mounted_report :
      (desc payload : List ℕ) (old : HidInfo) (before after : List ReportInfo) (info : ReportInfo)
      (id count : ℕ)
      → get_elem? h.hid_info i ≡ some old
      → tusb.parse_report_descriptor old.report_info 4 desc ≡ (count, before ++ info ∷ after)
      → Others id before
      → info.report_id ≡ id
      → id ≢ 0
      → length before < count
      → (m : Host) × (tuh_hid_mount_cb tusb h dev_addr i 0 desc true ≡ some m)
        × (tuh_hid_report_received_cb tusb m i 0 (id ∷ payload) true
            ≡ use_info tusb m (some info) payload)
  mounted_report desc payload old before after info id count here parsed others is some_id room =
      let infos = before ++ info ∷ after in
      let m = after_mount count infos in
      let now : HidInfo = record { report_count = count; report_info = infos } in
      let stored : get_elem? m.hid_info i ≡ some now =
        get_elem?-set_self h.hid_info i now (lt-length_of_get_elem? h.hid_info i old here) in
      let chosen = selected before after info id count payload others is some_id room in
      (
        m,
        mount_parses desc old count infos here parsed,
        received_generic m (id ∷ payload)
            ∙ generic_here m now (id ∷ payload) stored
            ∙ ap (λ p. use_info tusb m p.0 p.1) chosen,
      )
