-- ===== src/Usb/Enumerate.antt =====
-- usb/device/dev_lowlevel: what the host reads while it enumerates the device.
use pico_cpp.Common.{ℕ, zero, suc, ◌+◌, ◌*◌, ◌-◌, ◌%◌, ◌≤◌, ◌≡◌, refl, ap, arith, ◌∙◌}
use pico_cpp.Common.{List, [], ◌∷◌, ◌++◌, min, none, some, bit_and}
use pico_cpp.Common.{leb, if◌then◌else◌, length, take, splice, u8, get_elem?, bit_and_low}
use pico_cpp.Common.{length-splice, splice-splice, length-append, take-append_left}
use pico_cpp.Usb.Hw.{UsbHw, BufferControl}
use mathlib.Core.List.{append_assoc}
use pico_cpp.Usb.Descriptors.{on_ep0_in, ep0_buf_a, endpoint_bytes, ep1_out, ep2_in, endpoints}
use pico_cpp.Usb.Descriptors.{config_descriptor, interface_descriptor, ep0_in, descriptor_strings}
use pico_cpp.Usb.Transfer.{ok, SetupPacket, Device, memcpy}
use pico_cpp.Usb.Transfer.{usb_get_endpoint_configuration, usb_start_transfer, ep_is_tx}
use pico_cpp.Usb.Control.{string_loop, usb_prepare_string_descriptor, fill_config}
use pico_cpp.Usb.Control.{usb_handle_config_descriptor, usb_handle_string_descriptor}
use pico_cpp.Usb.Control.{string_descriptor}
use pico_cpp.Usb.Packet.{Started, start_in_lem}
use pico_cpp.Usb.Buffers.{memcpy_fits, Ready}

-- A copy right behind what has been copied to the front of the buffer.
memcpy_next :
    (dst xs ys : List ℕ) (n : ℕ)
    → n ≡ length xs
    → length (xs ++ ys) ≤ length dst
    → memcpy (splice dst 0 xs) n ys ≡ ok (splice dst 0 (xs ++ ys))
memcpy_next dst xs ys n e h =
    let fits : length xs + length ys ≤ length (splice dst 0 xs) =
      omega (arith, length-splice dst 0 xs, length-append xs ys) in
    rw e (memcpy_fits (splice dst 0 xs) (length xs) ys fits ∙ ap ok (splice-splice dst xs ys))

-- The whole configuration: its own descriptor, the interface and the endpoints from EP1 on.
abbrev pub full_config : List ℕ
full_config =
    config_descriptor ++ (interface_descriptor ++ (endpoint_bytes ep1_out ++ endpoint_bytes ep2_in))

-- What a request of `w_length` bytes is answered from.
abbrev pub config_answer : ℕ → List ℕ
config_answer w_length = if leb 32 w_length then full_config else config_descriptor

pub fill_config_lem :
    (ep0 : List ℕ) (w_length : ℕ)
    → length ep0 ≡ 64
    → fill_config ep0 w_length
      ≡ ok (splice ep0 0 (config_answer w_length), length (config_answer w_length))
unfolding fill_config endpoints
fill_config_lem ep0 w_length h = ground (
  arith,
  memcpy_fits ep0 0 config_descriptor,
  memcpy_next ep0 config_descriptor interface_descriptor 9,
  memcpy_next ep0 (config_descriptor ++ interface_descriptor) (endpoint_bytes ep1_out) 18,
  memcpy_next ep0 (config_descriptor ++ (interface_descriptor ++ endpoint_bytes ep1_out))
      (endpoint_bytes ep2_in) 25,
)

-- The characters of a string descriptor: each byte and a zero, and so for the terminator.
abbrev pub utf16 : List ℕ → List ℕ
utf16 [] = 0 ∷ 0 ∷ []
utf16 (c ∷ cs) = c ∷ 0 ∷ utf16 cs

length-utf16 : (cs : List ℕ) → length (utf16 cs) ≡ 2 * length cs + 2
length-utf16 [] = refl
length-utf16 (c ∷ cs) = omega (arith, length-utf16 cs)

string_loop_lem :
    (cs dst xs : List ℕ) (n : ℕ)
    → n ≡ length xs
    → length (xs ++ utf16 cs) ≤ length dst
    → string_loop cs n (splice dst 0 xs) ≡ ok (splice dst 0 (xs ++ utf16 cs))
unfolding string_loop
string_loop_lem [] dst xs n e h = memcpy_next dst xs (0 ∷ 0 ∷ []) n e h
string_loop_lem (c ∷ cs) dst xs n e h =
    let ys : List ℕ = xs ++ (c ∷ 0 ∷ []) in
    let joined : ys ++ utf16 cs ≡ xs ++ utf16 (c ∷ cs) = append_assoc xs (c ∷ 0 ∷ []) (utf16 cs) in
    let room : length ys ≤ length dst =
      omega (
        arith,
        length-append xs (c ∷ 0 ∷ []),
        length-append xs (utf16 (c ∷ cs)),
        length-utf16 cs,
      ) in
    let rest = string_loop_lem cs dst ys (n + 2) (omega (arith, length-append xs (c ∷ 0 ∷ []))) in
    rw (memcpy_next dst xs (c ∷ 0 ∷ []) n e room) (rw joined at (rest (rw joined h)))

abbrev pub string_bytes : List ℕ → List ℕ
string_bytes str = u8 (2 + length str * 2) ∷ 0x03 ∷ utf16 str

prepare_lem :
    (str dst : List ℕ)
    → length (string_bytes str) ≤ length dst
    → usb_prepare_string_descriptor str dst
      ≡ ok (splice dst 0 (string_bytes str), u8 (2 + length str * 2))
unfolding usb_prepare_string_descriptor
prepare_lem str dst h =
    let head : List ℕ = u8 (2 + length str * 2) ∷ 0x03 ∷ [] in
    let room : length head ≤ length dst = omega (arith, length-utf16 str) in
    rw (memcpy_fits dst 0 head room, string_loop_lem str dst head 2 refl h)

string_fits : (k : ℕ) (str : List ℕ) → get_elem? descriptor_strings k ≡ some str → length str ≤ 16
unfolding descriptor_strings
string_fits zero str e = ground arith
string_fits (suc zero) str e = ground arith
string_fits (suc (suc k)) str e = cc

pub string_at :
    (ep0 : List ℕ) (i k : ℕ) (str : List ℕ)
    → i ≡ suc k
    → get_elem? descriptor_strings k ≡ some str
    → length (string_bytes str) ≤ length ep0
    → length str ≤ 16
    → string_descriptor ep0 i ≡ ok (splice ep0 0 (string_bytes str), 2 + length str * 2)
unfolding string_descriptor
string_at ep0 i k str e at room short =
    let cut : u8 (2 + length str * 2) ≡ 2 + length str * 2 = omega arith in
    let k_of : i - 1 ≡ k = omega arith in ground (arith, prepare_lem str ep0 room)

module _ (hw : UsbHw) (law : BufferControl hw) where
  pub reply_lem :
      (d : Device) (answer rest : List ℕ) (n : ℕ)
      → 64 ≤ length d.ep0_buf_a_data
      → n ≤ length answer
      → n ≤ 64
      → (d' : Device) × (usb_start_transfer hw d
            (usb_get_endpoint_configuration 0x80)
            (answer ++ rest)
            n
          ≡ ok d')
        × Started hw d 1 n d'
        × (take n d'.ep0_buf_a_data ≡ take n answer)
  unfolding usb_get_endpoint_configuration endpoints ep_is_tx
  reply_lem d answer rest n room small packet =
      let (d', sends, started, bytes) =
        start_in_lem hw law d 1 n
          (record {
            descriptor = some ep0_in;
            handler = some on_ep0_in;
            has_endpoint_control = none;
            data_buffer = ep0_buf_a;
          })
          ep0_in (answer ++ rest) refl refl refl room packet
          (omega (arith, length-append answer rest)) in
      (d', sends, started, bytes ∙ take-append_left n answer rest small)

  pub config_reply :
      (d : Device) (pkt : SetupPacket)
      → length d.ep0_buf ≡ 64
      → 64 ≤ length d.ep0_buf_a_data
      → let answer = config_answer pkt.w_length in
        let n = min (length answer) pkt.w_length in
        (d' : Device) × (usb_handle_config_descriptor hw d pkt ≡ ok d')
        × Started hw (record d { ep0_buf = splice d.ep0_buf 0 answer }) 1 n d'
        × (take n d'.ep0_buf_a_data ≡ take n answer)
  unfolding usb_handle_config_descriptor
  config_reply d pkt len room =
      let answer : List ℕ = config_answer pkt.w_length in
      let n : ℕ = min (length answer) pkt.w_length in
      let r : List ℕ = splice d.ep0_buf 0 answer in
      rw (fill_config_lem d.ep0_buf pkt.w_length len)
        (reply_lem (record d { ep0_buf = r }) answer _ n room (omega arith) (ground arith))

  -- A request for the configuration descriptor is answered with the first bytes of the whole
  -- configuration if the host asks for all 32, and of its own 9 bytes otherwise, as many of them
  -- as it asks for. The buffers have to have their sizes, and the masks of the buffer control
  -- register are those of the datasheet.
  pub usb_handle_config_descriptor_lem :
      (d : Device) (pkt : SetupPacket)
      → Ready d
      → let answer = config_answer pkt.w_length in
        let n = min (length answer) pkt.w_length in
        (d' : Device) × (usb_handle_config_descriptor hw d pkt ≡ ok d')
        × (bit_and (d'.buffer_control 1) hw.len_mask ≡ n)
        × (take n d'.ep0_buf_a_data ≡ take n answer)
  usb_handle_config_descriptor_lem d pkt ready =
      let (d', sends, started, bytes) = config_reply d pkt ready.ep0_buf_size ready.ep0_room in
      (d', sends, started.length_field, bytes)

  pub string_reply :
      (d : Device) (pkt : SetupPacket) (k : ℕ) (str : List ℕ)
      → pkt.w_value % 256 ≡ suc k
      → get_elem? descriptor_strings k ≡ some str
      → length d.ep0_buf ≡ 64
      → 64 ≤ length d.ep0_buf_a_data
      → let n = min (2 + length str * 2) pkt.w_length in
        (d' : Device) × (usb_handle_string_descriptor hw d pkt ≡ ok d')
        × Started hw (record d { ep0_buf = splice d.ep0_buf 0 (string_bytes str) }) 1 n d'
        × (take n d'.ep0_buf_a_data ≡ take n (string_bytes str))
  unfolding usb_handle_string_descriptor
  string_reply d pkt k str index at len room =
      let n : ℕ = min (2 + length str * 2) pkt.w_length in
      let short : length str ≤ 16 = string_fits k str at in
      let r : List ℕ = splice d.ep0_buf 0 (string_bytes str) in
      let room' : length (string_bytes str) ≤ length d.ep0_buf = omega (arith, length-utf16 str) in
      let number : bit_and pkt.w_value 0xff ≡ suc k = bit_and_low 8 pkt.w_value ∙ index in
      let enough : n ≤ length (string_bytes str) = omega (arith, length-utf16 str) in
      let packet : n ≤ 64 = omega arith in
      rw (string_at d.ep0_buf _ k str number at room' short)
        (reply_lem (record d { ep0_buf = r }) (string_bytes str) _ n room enough packet)

  -- A string descriptor has the length, the type and the characters at two bytes each; the host
  -- gets as many bytes of it as it asks for. Strings are numbered from 1; the buffers have to have
  -- their sizes, and the masks of the buffer control register are those of the datasheet.
  pub usb_handle_string_descriptor_lem :
      (d : Device) (pkt : SetupPacket) (k : ℕ) (str : List ℕ)
      → pkt.w_value % 256 ≡ suc k
      → get_elem? descriptor_strings k ≡ some str
      → Ready d
      → let n = min (2 + length str * 2) pkt.w_length in
        (d' : Device) × (usb_handle_string_descriptor hw d pkt ≡ ok d')
        × (bit_and (d'.buffer_control 1) hw.len_mask ≡ n)
        × (take n d'.ep0_buf_a_data ≡ take n (string_bytes str))
  usb_handle_string_descriptor_lem d pkt k str index at ready =
      let (d', sends, started, bytes) =
        string_reply d pkt k str index at ready.ep0_buf_size ready.ep0_room in
      (d', sends, started.length_field, bytes)
