-- ===== src/Tests/Usb.antt =====
-- usb/device/dev_lowlevel: the theorems on a device with empty buffers and real requests.
use pico_cpp.Common.{ℕ, ◌≡◌, refl, arith, inr, List, [], ◌∷◌}
use pico_cpp.Common.{true, false, bit_and, replicate, take, drop, ◌==◌, if◌then◌else◌}
use pico_cpp.Usb.Hw.{rp2040, rp2040-BufferControl, rp2040-Interrupts}
use pico_cpp.Usb.Descriptors.{descriptor_strings}
use pico_cpp.Usb.Transfer.{ok, err, out_of_range, ◌>>=◌, Device, SetupPacket}
use pico_cpp.Usb.Control.{usb_handle_setup_packet, usb_bus_reset, usb_handle_config_descriptor}
use pico_cpp.Usb.Control.{usb_handle_string_descriptor}
use pico_cpp.Usb.Interrupt.{ep0_in_handler, usb_handle_buff_done, isr_usbctrl}
use pico_cpp.Usb.Buffers.{Ready}
use pico_cpp.Usb.Enumerate.{config_answer, string_bytes, usb_handle_config_descriptor_lem}
use pico_cpp.Usb.Enumerate.{usb_handle_string_descriptor_lem}
use pico_cpp.Usb.Strings.{descriptor_of, strings_answered}
use pico_cpp.Usb.Address.{set_address_phases, echo_lem, isr_order, status_of}
use pico_cpp.Usb.Safety.{usb_handle_setup_packet_safe}

abbrev request : ℕ → ℕ → ℕ → ℕ → SetupPacket
request kind number value size = record {
  bm_request_type = kind;
  b_request = number;
  w_value = value;
  w_index = 0;
  w_length = size;
}

-- A device that has been asked, with 5 bytes in EP1.
abbrev device : SetupPacket → Device
device pkt = record {
  should_set_address = false;
  dev_addr = 0;
  configured = false;
  ep0_buf = replicate 64 0;
  next_pid = λ _. 0;
  buffer_control = λ i. if i == 2 then 5 else 0;
  endpoint_control = λ _. 0;
  setup_packet = pkt;
  ep0_buf_a_data = replicate 64 0;
  epx_data_bytes = replicate 192 9;
  dev_addr_ctrl = 0;
  buf_status = 0;
  muxing = 0;
  pwr = 0;
  main_ctrl = 0;
  sie_ctrl = 0;
  inte = 0;
}

device-Ready : (pkt : SetupPacket) → Ready (device pkt)
device-Ready pkt = record { ep0_room = omega arith; epx_room = omega arith; ep0_buf_size = refl }

abbrev get_string : SetupPacket
get_string = request 0x80 0x06 0x0302 255

usb_handle_setup_packet_safe_example :
    (d' : Device) × (usb_handle_setup_packet rp2040 (device get_string) ≡ ok d') × Ready d'
usb_handle_setup_packet_safe_example =
    usb_handle_setup_packet_safe rp2040 rp2040-BufferControl (device get_string)
      (device-Ready get_string) (inr (omega arith))

abbrev set_address : SetupPacket
set_address = request 0 5 19 0

set_address_phases_example :
    (d' : Device) × (d'' : Device) × (usb_handle_setup_packet rp2040 (device set_address) ≡ ok d')
    × (bit_and (d'.buffer_control 1) rp2040.len_mask ≡ 0)
    × (d'.dev_addr_ctrl ≡ 0)
    × (ep0_in_handler rp2040 d' ≡ ok d'')
    × (d''.dev_addr_ctrl ≡ 19)
    × (d''.should_set_address ≡ false)
set_address_phases_example =
    set_address_phases rp2040 rp2040-BufferControl (device set_address) refl refl (omega arith)

echo_lem_example :
    (d' : Device) × (usb_handle_buff_done rp2040 (device get_string) 1 false ≡ ok d')
    × (bit_and (d'.buffer_control 3) rp2040.len_mask ≡ 5)
    × (take 5 (drop 64 d'.epx_data_bytes) ≡ take 5 (replicate 192 9))
echo_lem_example =
    echo_lem rp2040 rp2040-BufferControl (device get_string) 5 refl (omega arith) (omega arith)

isr_order_example : isr_usbctrl rp2040 (device get_string) (status_of rp2040 true false true) ≡ (
    usb_handle_setup_packet rp2040 (device get_string) >>= λ d_1.
    ok d_1 >>= λ d_2. ok (usb_bus_reset d_2))
isr_order_example = isr_order rp2040 (device get_string) true false true rp2040-Interrupts

abbrev get_config : SetupPacket
get_config = request 0x80 0x06 0x0200 32

usb_handle_config_descriptor_lem_example :
    (d' : Device) × (usb_handle_config_descriptor rp2040 (device get_config) get_config ≡ ok d')
    × (bit_and (d'.buffer_control 1) rp2040.len_mask ≡ 32)
    × (take 32 d'.ep0_buf_a_data ≡ take 32 (config_answer 32))
usb_handle_config_descriptor_lem_example =
    usb_handle_config_descriptor_lem rp2040 rp2040-BufferControl (device get_config) get_config
      (device-Ready get_config)

abbrev raspberry_pi : List ℕ
raspberry_pi =
    b'R' ∷ b'a' ∷ b's' ∷ b'p' ∷ b'b' ∷ b'e' ∷ b'r' ∷ b'r' ∷ b'y' ∷ b' ' ∷ b'P' ∷ b'i' ∷ []

abbrev get_vendor : SetupPacket
get_vendor = request 0x80 0x06 0x0301 255

usb_handle_string_descriptor_lem_example :
    (d' : Device) × (usb_handle_string_descriptor rp2040 (device get_vendor) get_vendor ≡ ok d')
    × (bit_and (d'.buffer_control 1) rp2040.len_mask ≡ 26)
    × (take 26 d'.ep0_buf_a_data ≡ take 26 (string_bytes raspberry_pi))
unfolding descriptor_strings
usb_handle_string_descriptor_lem_example =
    usb_handle_string_descriptor_lem rp2040 rp2040-BufferControl (device get_vendor) get_vendor 0
      raspberry_pi refl refl (device-Ready get_vendor)

strings_answered_example :
    (d' : Device) × (usb_handle_string_descriptor rp2040 (device get_vendor) get_vendor ≡ ok d')
    × (bit_and (d'.buffer_control 1) rp2040.len_mask ≡ 26)
    × (take 26 d'.ep0_buf_a_data ≡ take 26 (descriptor_of raspberry_pi))
strings_answered_example =
    strings_answered rp2040 rp2040-BufferControl (device get_vendor) get_vendor
      (device-Ready get_vendor)

no_third_string :
    usb_handle_string_descriptor rp2040 (device get_vendor) (request 0x80 0x06 0x0303 255)
    ≡ err out_of_range
no_third_string =
    strings_answered rp2040 rp2040-BufferControl (device get_vendor) (request 0x80 0x06 0x0303 255)
      (device-Ready get_vendor)
