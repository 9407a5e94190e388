-- ===== src/Usb/Safety.antt =====
-- usb/device/dev_lowlevel: setup packets that are answered without a fault.
use pico_cpp.Common.{ℕ, zero, suc, ◌^◌, ◌%◌, ◌/◌, ◌≤◌, ◌≡◌, ◌≢◌, ◌⊎◌, inl, inr, refl}
use pico_cpp.Common.{arith, ◌∙◌, List, [], min, Bool, true, false, some, bit_and, length}
use pico_cpp.Common.{splice, length-splice, ◌==◌, u8, ◌>>>◌, bit_and_low, if◌then◌else◌, get_elem?}
use pico_cpp.Common.{==_iff}
use pico_cpp.Usb.Hw.{UsbHw, BufferControl}
use pico_cpp.Usb.Descriptors.{device_descriptor, lang_descriptor, descriptor_strings}
use pico_cpp.Usb.Transfer.{Result, ok, Device, update, SetupPacket}
use pico_cpp.Usb.Transfer.{usb_get_endpoint_configuration}
use pico_cpp.Usb.Control.{usb_set_device_address, usb_acknowledge_out_request}
use pico_cpp.Usb.Control.{usb_set_device_configuration, usb_handle_setup_packet, get_descriptor}
use pico_cpp.Usb.Control.{set_request, usb_handle_device_descriptor, usb_handle_config_descriptor}
use pico_cpp.Usb.Control.{usb_handle_string_descriptor, string_descriptor}
use pico_cpp.Usb.Buffers.{Ready, Keeps-Ready, memcpy_fits}
use pico_cpp.Usb.Enumerate.{reply_lem, config_reply, string_reply, config_answer, string_bytes}
use pico_cpp.Usb.Address.{acknowledge_lem}

-- A run that ends, with the buffers as they should be.
abbrev Ends : Result Device → Type 0
Ends r = (d' : Device) × (r ≡ ok d') × Ready d'

module _ (hw : UsbHw) (law : BufferControl hw) where
  device_Ends :
      (d : Device) (pkt : SetupPacket) → Ready d → Ends (usb_handle_device_descriptor hw d pkt)
  unfolding usb_handle_device_descriptor usb_get_endpoint_configuration
  device_Ends d pkt r =
      let asked = record d { next_pid = update d.next_pid 1 1 } in
      let (d', sends, started, bytes) =
        reply_lem hw law asked device_descriptor [] (min 18 pkt.w_length) r.ep0_room (omega arith)
          (omega arith) in
      (
        d',
        sends,
        Keeps-Ready started.keeps (record {
          ep0_room = r.ep0_room;
          epx_room = r.epx_room;
          ep0_buf_size = r.ep0_buf_size;
        }),
      )

  config_Ends :
      (d : Device) (pkt : SetupPacket) → Ready d → Ends (usb_handle_config_descriptor hw d pkt)
  config_Ends d pkt r =
      let answer : List ℕ = config_answer pkt.w_length in
      let small : length answer ≤ 32 = ground arith in
      let (d', sends, started, bytes) = config_reply hw law d pkt r.ep0_buf_size r.ep0_room in
      (
        d',
        sends,
        Keeps-Ready started.keeps (record {
          ep0_room = r.ep0_room;
          epx_room = r.epx_room;
          ep0_buf_size =
              length-splice d.ep0_buf 0 answer (omega (arith, r.ep0_buf_size)) ∙ r.ep0_buf_size;
        }),
      )

  lang_Ends :
      (d : Device) (pkt : SetupPacket)
      → pkt.w_value % 256 ≡ 0
      → Ready d
      → Ends (usb_handle_string_descriptor hw d pkt)
  unfolding usb_handle_string_descriptor string_descriptor
  lang_Ends d pkt zeroth r =
      let filled : List ℕ = splice d.ep0_buf 0 lang_descriptor in
      let room : length lang_descriptor ≤ length d.ep0_buf = omega (arith, r.ep0_buf_size) in
      let number : bit_and pkt.w_value 0xff ≡ 0 = bit_and_low 8 pkt.w_value ∙ zeroth in
      let (d', sends, started, bytes) =
        reply_lem hw law (record d { ep0_buf = filled }) lang_descriptor _ (min 4 pkt.w_length)
          r.ep0_room (omega arith) (omega arith) in
      rw (number, memcpy_fits d.ep0_buf 0 lang_descriptor room)
        (
          d',
          sends,
          Keeps-Ready started.keeps (record {
            ep0_room = r.ep0_room;
            epx_room = r.epx_room;
            ep0_buf_size = length-splice d.ep0_buf 0 lang_descriptor room ∙ r.ep0_buf_size;
          }),
        )

  numbered_Ends :
      (d : Device) (pkt : SetupPacket) (k : ℕ) (str : List ℕ)
      → pkt.w_value % 256 ≡ suc k
      → get_elem? descriptor_strings k ≡ some str
      → length (string_bytes str) ≤ 64
      → Ready d
      → Ends (usb_handle_string_descriptor hw d pkt)
  numbered_Ends d pkt k str index at short r =
      let (d', sends, started, bytes) =
        string_reply hw law d pkt k str index at r.ep0_buf_size r.ep0_room in
      (
        d',
        sends,
        Keeps-Ready started.keeps (record {
          ep0_room = r.ep0_room;
          epx_room = r.epx_room;
          ep0_buf_size =
              length-splice d.ep0_buf 0 (string_bytes str) (omega (arith, r.ep0_buf_size))
              ∙ r.ep0_buf_size;
        }),
      )

  string_Ends :
      (i : ℕ) (d : Device) (pkt : SetupPacket)
      → pkt.w_value % 256 ≡ i
      → i ≤ 2
      → Ready d
      → Ends (usb_handle_string_descriptor hw d pkt)
  unfolding descriptor_strings
  string_Ends zero d pkt e small r = lang_Ends d pkt e r
  string_Ends (suc zero) d pkt e small r = numbered_Ends d pkt 0 _ e refl (omega arith) r
  string_Ends (suc (suc zero)) d pkt e small r = numbered_Ends d pkt 1 _ e refl (omega arith) r
  string_Ends (suc (suc (suc i))) d pkt e small r = absurd (omega arith)

  acknowledge_Ends : (d : Device) → Ready d → Ends (usb_acknowledge_out_request hw d)
  acknowledge_Ends d r =
      let (d', sends, started) = acknowledge_lem hw law d r.ep0_room in
      (d', sends, Keeps-Ready started.keeps r)

  configured_Ends : (d : Device) → Ready d → Ends (usb_set_device_configuration hw d)
  unfolding usb_set_device_configuration
  configured_Ends d r =
      let (d', sends, ready) = acknowledge_Ends d r in
      (
        record d' { configured = true },
        rw sends,
        record {
          ep0_room = ready.ep0_room;
          epx_room = ready.epx_room;
          ep0_buf_size = ready.ep0_buf_size;
        },
      )

  -- A branch on a test, each side of which ends.
  Ends-if :
      (b : Bool) (x y : Result Device)
      → (b ≡ true → Ends x)
      → (b ≡ false → Ends y)
      → Ends (if b then x else y)
  Ends-if true x y f g = f refl
  Ends-if false x y f g = g refl

  set_Ends : (d : Device) (pkt : SetupPacket) → Ready d → Ends (set_request hw d pkt)
  unfolding set_request usb_set_device_address
  set_Ends d pkt r =
      Ends-if (pkt.b_request == 0x05) _ _
        (λ _.
          acknowledge_Ends
            (record d { dev_addr = u8 (bit_and pkt.w_value 0xff); should_set_address = true })
            (record {
              ep0_room = r.ep0_room;
              epx_room = r.epx_room;
              ep0_buf_size = r.ep0_buf_size;
            }))
        (λ _.
          Ends-if (pkt.b_request == 0x09) _ _ (λ _. configured_Ends d r)
            (λ _. acknowledge_Ends d r))

  get_Ends :
      (d : Device) (pkt : SetupPacket)
      → Ready d
      → (pkt.w_value / 2 ^ 8 ≢ 3) ⊎ (pkt.w_value % 256 ≤ 2)
      → Ends (get_descriptor hw d pkt)
  unfolding get_descriptor
  get_Ends d pkt r known =
      Ends-if (pkt.w_value >>> 8 == 0x01) _ _ (λ _. device_Ends d pkt r)
        (λ _.
          Ends-if (pkt.w_value >>> 8 == 0x02) _ _ (λ _. config_Ends d pkt r)
            (λ _.
              Ends-if (pkt.w_value >>> 8 == 0x03) _ _
                (λ e. elim known [
                  | inl other ↦ absurd (other ((==_iff _ 3).0 e))
                  | inr low ↦ string_Ends _ d pkt refl low r
                ])
                (λ _. (d, refl, r))))

  -- Every setup packet is served without a fault and leaves the buffers their sizes, if they have
  -- them at first, unless it asks for a string by a number above 2. The masks of the buffer control
  -- register are those of the datasheet.
  pub usb_handle_setup_packet_safe :
      (d : Device)
      → Ready d
      → (d.setup_packet.w_value / 2 ^ 8 ≢ 3) ⊎ (d.setup_packet.w_value % 256 ≤ 2)
      → (d' : Device) × (usb_handle_setup_packet hw d ≡ ok d') × Ready d'
  unfolding usb_handle_setup_packet usb_get_endpoint_configuration
  usb_handle_setup_packet_safe d r known =
      let d1 = record d { next_pid = update d.next_pid 1 1 } in
      let r1 : Ready d1 = record {
        ep0_room = r.ep0_room;
        epx_room = r.epx_room;
        ep0_buf_size = r.ep0_buf_size;
      } in
      Ends-if (d.setup_packet.bm_request_type == 0x00) _ _ (λ _. set_Ends d1 d.setup_packet r1)
        (λ _.
          Ends-if (d.setup_packet.bm_request_type == 0x80) _ _
            (λ _.
              Ends-if (d.setup_packet.b_request == 0x06) _ _
                (λ _. get_Ends d1 d.setup_packet r1 known) (λ _. (d1, refl, r1)))
            (λ _. (d1, refl, r1)))
