-- ===== src/Usb/Strings.antt =====
-- usb/device/dev_lowlevel: what the host gets for each index of a string.
use pico_cpp.Common.{ℕ, zero, suc, ◌+◌, ◌*◌, ◌-◌, ◌%◌, ◌≤◌, ◌≡◌, refl, sym, ap, arith, ◌∙◌}
use mathlib.Core.Path.{subst}
use pico_cpp.Common.{List, [], ◌∷◌, ◌++◌, min, none, some, bit_and, Option}
use pico_cpp.Common.{length, take, splice, get_elem?, bit_and_low, take-append_left}
use pico_cpp.Usb.Hw.{UsbHw, BufferControl}
use pico_cpp.Usb.Descriptors.{descriptor_strings, lang_descriptor}
use pico_cpp.Usb.Transfer.{ok, err, out_of_range, SetupPacket, Device}
use pico_cpp.Usb.Control.{usb_handle_string_descriptor, string_descriptor}
use pico_cpp.Usb.Enumerate.{string_bytes, string_reply, reply_lem}
use pico_cpp.Usb.Buffers.{memcpy_fits, Ready}

-- The characters at two bytes each, and the whole descriptor, without a terminator.
abbrev pub wide : List ℕ → List ℕ
wide [] = []
wide (c ∷ cs) = c ∷ 0 ∷ wide cs

abbrev pub descriptor_of : List ℕ → List ℕ
descriptor_of str = (2 + 2 * length str) ∷ 3 ∷ wide str

abbrev pub vendor : List ℕ
vendor = b'R' ∷ b'a' ∷ b's' ∷ b'p' ∷ b'b' ∷ b'e' ∷ b'r' ∷ b'r' ∷ b'y' ∷ b' ' ∷ b'P' ∷ b'i' ∷ []

abbrev pub product : List ℕ
product =
    b'P' ∷ b'i' ∷ b'c' ∷ b'o' ∷ b' ' ∷ b'T' ∷ b'e' ∷ b's' ∷ b't' ∷ b' ' ∷ b'D' ∷ b'e' ∷ b'v' ∷ b'i'
    ∷ b'c' ∷ b'e' ∷ []

-- The descriptors by their index: the languages, with English alone, the vendor and the product.
abbrev pub string_answer : ℕ → Option (List ℕ)
string_answer zero = some (4 ∷ 3 ∷ 9 ∷ 4 ∷ [])
string_answer (suc zero) = some (descriptor_of vendor)
string_answer (suc (suc zero)) = some (descriptor_of product)
string_answer (suc (suc (suc i))) = none

two_strings : (i : ℕ) → 2 ≤ i → get_elem? descriptor_strings i ≡ none
unfolding descriptor_strings
two_strings zero h = absurd (omega arith)
two_strings (suc zero) h = absurd (omega arith)
two_strings (suc (suc i)) h = refl

string_beyond : (ep0 : List ℕ) (i : ℕ) → 3 ≤ i → string_descriptor ep0 i ≡ err out_of_range
unfolding string_descriptor
string_beyond ep0 i h = ground (arith, two_strings (i - 1))

module _ (hw : UsbHw) (law : BufferControl hw) (d : Device) (pkt : SetupPacket) where
  -- The request is answered with as many bytes of a descriptor as the host asks for, or without one
  -- it is a read outside the array.
  abbrev pub Serves : Option (List ℕ) → Type 0
  Serves none = usb_handle_string_descriptor hw d pkt ≡ err out_of_range
  Serves (some answer) =
      let n = min (length answer) pkt.w_length in
      (d' : Device) × (usb_handle_string_descriptor hw d pkt ≡ ok d')
      × (bit_and (d'.buffer_control 1) hw.len_mask ≡ n)
      × (take n d'.ep0_buf_a_data ≡ take n answer)

  languages : Ready d → pkt.w_value % 256 ≡ 0 → Serves (string_answer 0)
  unfolding usb_handle_string_descriptor string_descriptor
  languages ready index =
      let n : ℕ = min 4 pkt.w_length in
      let answer : List ℕ = lang_descriptor in
      let r : List ℕ = splice d.ep0_buf 0 answer in
      let number : bit_and pkt.w_value 0xff ≡ 0 = bit_and_low 8 pkt.w_value ∙ index in
      let copied = memcpy_fits d.ep0_buf 0 answer (omega (arith, ready.ep0_buf_size)) in
      let (d', sends, started, bytes) =
        reply_lem hw law (record d { ep0_buf = r }) answer _ n ready.ep0_room (omega arith)
          (omega arith) in
      rw (number, copied) (d', sends, started.length_field, bytes)

  a_string :
      (k : ℕ) (str : List ℕ)
      → Ready d
      → pkt.w_value % 256 ≡ suc k
      → get_elem? descriptor_strings k ≡ some str
      → string_bytes str ≡ descriptor_of str ++ (0 ∷ 0 ∷ [])
      → length (descriptor_of str) ≡ 2 + length str * 2
      → Serves (some (descriptor_of str))
  a_string k str ready index at split size =
      let n : ℕ = min (2 + length str * 2) pkt.w_length in
      let same : min (length (descriptor_of str)) pkt.w_length ≡ n =
        ap (λ m. min m pkt.w_length) size in
      let (d', sends, started, bytes) =
        string_reply hw law d pkt k str index at ready.ep0_buf_size ready.ep0_room in
      let front =
        ap (take n) split ∙ take-append_left n (descriptor_of str) (0 ∷ 0 ∷ []) (omega arith) in
      (
        d',
        sends,
        started.length_field ∙ sym same,
        subst (λ m. take m d'.ep0_buf_a_data ≡ take m (descriptor_of str)) (sym same)
            (bytes ∙ front),
      )

  by_index : (i : ℕ) → Ready d → pkt.w_value % 256 ≡ i → Serves (string_answer i)
  unfolding descriptor_strings usb_handle_string_descriptor
  by_index zero ready e = languages ready e
  by_index (suc zero) ready e = a_string 0 vendor ready e refl refl refl
  by_index (suc (suc zero)) ready e = a_string 1 product ready e refl refl refl
  by_index (suc (suc (suc i))) ready e =
      let number : 3 ≤ bit_and pkt.w_value 0xff = omega (arith, bit_and_low 8 pkt.w_value) in
      rw (string_beyond d.ep0_buf (bit_and pkt.w_value 0xff) number) refl

  -- A request for a string is answered by the low byte of its value: for 0 with the list of the
  -- languages, English alone, for 1 with the string "Raspberry Pi" and for 2 with "Pico Test Device",
  -- each behind its length and type and with two bytes for a character; as many bytes as the host asks
  -- for are started to be sent. Every index above 2 makes the code read outside `descriptor_strings`.
  -- The buffers have to have their sizes, and the masks of the buffer control register are those of the
  -- datasheet.
  pub strings_answered : Ready d → Serves (string_answer (pkt.w_value % 256))
  strings_answered ready = by_index (pkt.w_value % 256) ready refl
