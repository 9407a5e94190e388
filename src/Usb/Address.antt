-- ===== src/Usb/Address.antt =====
-- usb/device/dev_lowlevel: the two phases of SET_ADDRESS, a bus reset, and the bytes that are
-- echoed from EP1 to EP2.
use pico_cpp.Common.{ℕ, ◌+◌, ◌^◌, ◌%◌, ◌≤◌, ◌≡◌, refl, ap, arith, ◌∙◌, []}
use pico_cpp.Common.{Bool, true, false, some, bit_and, bit_or, bit_xor, length, take, drop, u8, u16}
use pico_cpp.Common.{bit_and_low, nonzero, if◌then◌else◌}
use pico_cpp.Usb.Hw.{UsbHw, BufferControl, Interrupts}
use pico_cpp.Usb.Descriptors.{epx_data, endpoints, ep1_out, ep2_in}
use pico_cpp.Usb.Descriptors.{on_ep1_out, on_ep2_in}
use pico_cpp.Usb.Transfer.{ok, ◌>>=◌, Device, update, usb_start_transfer}
use pico_cpp.Usb.Transfer.{usb_get_endpoint_configuration, ep_is_tx}
use pico_cpp.Usb.Control.{usb_set_device_address, usb_acknowledge_out_request, usb_bus_reset}
use pico_cpp.Usb.Control.{usb_handle_setup_packet}
use pico_cpp.Usb.Interrupt.{ep0_in_handler, usb_handle_buff_done, isr_usbctrl}
use pico_cpp.Usb.Interrupt.{usb_handle_buff_status}
use pico_cpp.Usb.Packet.{Started, start_in_lem, start_out_lem}
use pico_cpp.Usb.Enumerate.{reply_lem}

module _ (hw : UsbHw) (law : BufferControl hw) where
  pub acknowledge_lem :
      (d : Device)
      → 64 ≤ length d.ep0_buf_a_data
      → (d' : Device) × (usb_acknowledge_out_request hw d ≡ ok d') × Started hw d 1 0 d'
  unfolding usb_acknowledge_out_request
  acknowledge_lem d room =
      let (d', sends, started, bytes) =
        reply_lem hw law d [] [] 0 room (omega arith) (omega arith) in
      (d', sends, started)

  -- SET_ADDRESS is acknowledged, with an empty packet, under the old address; the controller gets
  -- the new one only when that packet has gone out. The buffer of endpoint 0 has room for a packet,
  -- and the masks of the buffer control register are those of the datasheet.
  pub set_address_phases :
      (d : Device)
      → d.setup_packet.bm_request_type ≡ 0
      → d.setup_packet.b_request ≡ 5
      → 64 ≤ length d.ep0_buf_a_data
      → (d' : Device) × (d'' : Device) × (usb_handle_setup_packet hw d ≡ ok d')
        × (bit_and (d'.buffer_control 1) hw.len_mask ≡ 0)
        × (d'.dev_addr_ctrl ≡ d.dev_addr_ctrl)
        × (ep0_in_handler hw d' ≡ ok d'')
        × (d''.dev_addr_ctrl ≡ d.setup_packet.w_value % 256)
        × (d''.should_set_address ≡ false)
  unfolding usb_handle_setup_packet usb_set_device_address ep0_in_handler
      usb_get_endpoint_configuration
  set_address_phases d dir req room =
      let addr : ℕ = u8 (bit_and d.setup_packet.w_value 0xff) in
      let asked = record d {
        next_pid = update d.next_pid 1 1;
        dev_addr = addr;
        should_set_address = true;
      } in
      let (d', sends, started) = acknowledge_lem asked room in
      let d'' = record d' { dev_addr_ctrl = d'.dev_addr; should_set_address = false } in
      (
        d',
        d'',
        ground arith,
        started.length_field,
        started.keeps.address_reg,
        rw (started.keeps.pending),
        started.keeps.address ∙ omega (arith, bit_and_low 8 d.setup_packet.w_value),
        refl,
      )

  -- A packet of up to 64 bytes that the host has sent to EP1 is sent back on EP2, byte for byte, and
  -- no other bytes. The buffers have their size, and the masks of the buffer control register are
  -- those of the datasheet.
  pub echo_lem :
      (d : Device) (n : ℕ)
      → bit_and (d.buffer_control 2) hw.len_mask ≡ n
      → n ≤ 64
      → 128 ≤ length d.epx_data_bytes
      → (d' : Device) × (usb_handle_buff_done hw d 1 false ≡ ok d')
        × (bit_and (d'.buffer_control 3) hw.len_mask ≡ n)
        × (take n (drop 64 d'.epx_data_bytes) ≡ take n d.epx_data_bytes)
  unfolding usb_handle_buff_done endpoints ep_is_tx usb_get_endpoint_configuration
  echo_lem d n received small room =
      let n' : ℕ = u16 (bit_and (d.buffer_control 2) hw.len_mask) in
      let same : n' ≡ n = omega arith in
      let (d', sends, started, bytes) =
        start_in_lem hw law d 3 n
          (record {
            descriptor = some ep2_in;
            handler = some on_ep2_in;
            has_endpoint_control = some tt;
            data_buffer = epx_data 64;
          })
          ep2_in d.epx_data_bytes refl refl refl room small (omega arith) in
      (
        d',
        ap (λ k. usb_start_transfer hw d (some 3) d.epx_data_bytes k) same ∙ sends,
        started.length_field,
        bytes,
      )

  -- Once EP2 has sent its packet, EP1 waits for a packet of up to 64 bytes.
  pub rearm_lem :
      (d : Device)
      → (d' : Device) × (usb_handle_buff_done hw d 2 true ≡ ok d')
        × (bit_and (d'.buffer_control 2) hw.len_mask ≡ 64)
  unfolding usb_handle_buff_done endpoints ep_is_tx usb_get_endpoint_configuration
  rearm_lem d =
      let (d', arms, started) =
        start_out_lem hw law d 2 64
          (record {
            descriptor = some ep1_out;
            handler = some on_ep1_out;
            has_endpoint_control = some tt;
            data_buffer = epx_data 0;
          })
          ep1_out [] refl refl refl (omega arith) in
      (d', arms, started.length_field)

-- The interrupt bits that are up, as the three Booleans.
abbrev pub status_of : UsbHw → Bool → Bool → Bool → ℕ
status_of hw s b r =
    (if s then hw.setup_req else 0)
    + (if b then hw.buff_status else 0)
    + (if r then hw.bus_reset else 0)

-- The tests of the handler on such a status, and that it has handled all of it.
abbrev TestsRead : ℕ → ℕ → ℕ → Bool → Bool → Bool → Type 0
TestsRead x y z s b r =
    let status : ℕ = (if s then x else 0) + (if b then y else 0) + (if r then z else 0) in
    let h_1 : ℕ = if s then bit_or 0 x else 0 in
    let h_2 : ℕ = if b then bit_or h_1 y else h_1 in
    (nonzero (bit_and status x) ≡ s)
    × (nonzero (bit_and status y) ≡ b)
    × (nonzero (bit_and status z) ≡ r)
    × (bit_xor status (if r then bit_or h_2 z else h_2) ≡ 0)

tests_on_bits : (s b r : Bool) → TestsRead (2 ^ 16) (2 ^ 4) (2 ^ 12) s b r
tests_on_bits true true true = (refl, refl, refl, refl)
tests_on_bits true true false = (refl, refl, refl, refl)
tests_on_bits true false true = (refl, refl, refl, refl)
tests_on_bits true false false = (refl, refl, refl, refl)
tests_on_bits false true true = (refl, refl, refl, refl)
tests_on_bits false true false = (refl, refl, refl, refl)
tests_on_bits false false true = (refl, refl, refl, refl)
tests_on_bits false false false = (refl, refl, refl, refl)

tests_at : (x y z : ℕ) (s b r : Bool) → x ≡ 2 ^ 16 → y ≡ 2 ^ 4 → z ≡ 2 ^ 12 → TestsRead x y z s b r
tests_at x y z s b r p q t = rw (p, q, t) (tests_on_bits s b r)

-- The interrupt handler serves the causes that are up in the order setup packet, finished
-- buffers, bus reset, each on what the one before has left, and does not panic on any of the
-- eight combinations. The bits of the three causes are those of the datasheet.
pub isr_order :
    (hw : UsbHw) (d : Device) (s b r : Bool)
    → Interrupts hw
    → isr_usbctrl hw d (status_of hw s b r) ≡ (
        (if s then usb_handle_setup_packet hw d else ok d) >>= λ d_1.
        (if b then usb_handle_buff_status hw d_1 else ok d_1) >>= λ d_2.
        ok (if r then usb_bus_reset d_2 else d_2))
unfolding isr_usbctrl
isr_order hw d s b r law =
    let (t_s, t_b, t_r, all_handled) =
      tests_at hw.setup_req hw.buff_status hw.bus_reset s b r law.setup_bit law.status_bit
        law.reset_bit in
    rw (t_s, t_b, t_r, all_handled)
