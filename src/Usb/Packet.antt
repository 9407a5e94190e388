-- ===== src/Usb/Packet.antt =====
-- usb/device/dev_lowlevel: what `usb_start_transfer` hands to the controller.
use pico_cpp.Common.{ℕ, ◌-◌, ◌^◌, ◌≤◌, ◌≡◌, ◌⊎◌, inl, inr, ap, refl, arith, List}
use pico_cpp.Common.{some, true, false, bit_and, bit_or, bit_xor}
use pico_cpp.Common.{if◌then◌else◌, nonzero, length, take, get_elem?, eq_below}
use pico_cpp.Common.{length-take, bit_or-zero, all_below}
use pico_cpp.Usb.Hw.{UsbHw, BufferControl}
use pico_cpp.Usb.Descriptors.{Endpoint, EndpointDescriptor, DataBuffer, ep0_buf_a, epx_data}
use pico_cpp.Usb.Descriptors.{endpoints}
use pico_cpp.Usb.Transfer.{ok, Device, update, buffer_bytes, write_buffer}
use pico_cpp.Usb.Transfer.{with_pid, start_checked, ep_is_tx}
use pico_cpp.Usb.Transfer.{usb_start_transfer}
use pico_cpp.Usb.Buffers.{Fits, Keeps, Wrote, write_buffer_lem}

-- The registers' low bits carry the length, whatever flags stand above.
abbrev flagged : ℕ → ℕ → ℕ → ℕ
flagged full pid len = bit_and (bit_or (bit_or (bit_or len (2 ^ 10)) full) pid) (2 ^ 10 - 1)

len_of_flags :
    (full pid len : ℕ)
    → (full ≡ 0) ⊎ (full ≡ 2 ^ 15)
    → (pid ≡ 0) ⊎ (pid ≡ 2 ^ 13)
    → len ≤ 64
    → flagged full pid len ≡ len
unfolding all_below
len_of_flags full pid len f p h = elim f [
  | inl e ↦ elim p [
    | inl g ↦ rw (e, g) (eq_below 65 (flagged 0 0) (λ l. l) refl len (omega arith))
    | inr g ↦ rw (e, g) (eq_below 65 (flagged 0 (2 ^ 13)) (λ l. l) refl len (omega arith))
  ]
  | inr e ↦ elim p [
    | inl g ↦ rw (e, g) (eq_below 65 (flagged (2 ^ 15) 0) (λ l. l) refl len (omega arith))
    | inr g ↦ rw (e, g) (eq_below 65 (flagged (2 ^ 15) (2 ^ 13)) (λ l. l) refl len (omega arith))
  ]
]

-- What a started transfer leaves for the controller: the length in the low bits, the flag bits
-- for "available", for "full" on an IN endpoint and for the packet identifier, which flips.
pub record Started (hw : UsbHw) (d : Device) (i : ℕ) (len : ℕ) (d' : Device) : Type 0 where
  pub length_field : bit_and (d'.buffer_control i) hw.len_mask ≡ len
  pub flipped : d'.next_pid i ≡ bit_xor (d.next_pid i) 1
  pub keeps : Keeps d d'

module _ (hw : UsbHw) (law : BufferControl hw) where
  control_len :
      (full pid len : ℕ)
      → (full ≡ 0) ⊎ (full ≡ hw.full)
      → len ≤ 64
      → bit_and (with_pid hw (bit_or (bit_or len hw.avail) full) pid) hw.len_mask ≡ len
  control_len full pid len f h = grind (
    arith,
    law.avail_bit,
    law.len_bits,
    law.full_bit,
    law.data0_clear,
    law.data1_bit,
    len_of_flags full (if nonzero pid then hw.data1_pid else hw.data0_pid) len,
  )

  -- The device once the bytes are in the buffer.
  abbrev sent : Device → ℕ → ℕ → Device
  sent d i len = record d {
    buffer_control =
        update d.buffer_control i
          (with_pid hw (bit_or (bit_or len hw.avail) hw.full) (d.next_pid i));
    next_pid = update d.next_pid i (bit_xor (d.next_pid i) 1);
  }

  sent-Started :
      (d d1 : Device) (b : DataBuffer) (i len : ℕ) (bytes : List ℕ)
      → len ≤ 64
      → Wrote d b bytes d1
      → Started hw d i len (sent d1 i len)
  sent-Started d d1 b i len bytes small w = record {
    length_field = ground (arith, control_len hw.full (d1.next_pid i) len (inr refl) small);
    flipped = ground (arith, ap (λ f. bit_xor (f i) 1) w.pids);
    keeps = record {
      ep0_len = w.keeps.ep0_len;
      epx_len = w.keeps.epx_len;
      ep0_buf_kept = w.keeps.ep0_buf_kept;
      address_reg = w.keeps.address_reg;
      address = w.keeps.address;
      pending = w.keeps.pending;
      configured_kept = w.keeps.configured_kept;
      packet = w.keeps.packet;
    };
  }

  start_of_write :
      (d d1 : Device) (i len : ℕ) (e : Endpoint) (de : EndpointDescriptor) (buf : List ℕ)
      → ep_is_tx de ≡ true
      → len ≤ length buf
      → write_buffer d e.data_buffer (take len buf) ≡ ok d1
      → start_checked hw d i e de buf len ≡ ok (sent d1 i len)
  unfolding start_checked
  start_of_write d d1 i len e de buf tx reads w = ground arith

  buffer-sent :
      (d : Device) (b : DataBuffer) (i len : ℕ) → buffer_bytes (sent d i len) b ≡ buffer_bytes d b
  buffer-sent d ep0_buf_a i len = refl
  buffer-sent d (epx_data k) i len = refl

  Fits-take :
      (d : Device) (b : DataBuffer) (len : ℕ) (buf : List ℕ)
      → Fits d b 64
      → len ≤ 64
      → Fits d b (length (take len buf))
  Fits-take d ep0_buf_a len buf h k = omega (arith, length-take len buf)
  Fits-take d (epx_data i) len buf h k = omega (arith, length-take len buf)

  start_in_checked :
      (d : Device) (i len : ℕ) (e : Endpoint) (de : EndpointDescriptor) (buf : List ℕ)
      → ep_is_tx de ≡ true
      → Fits d e.data_buffer 64
      → len ≤ 64
      → len ≤ length buf
      → (d' : Device) × (start_checked hw d i e de buf len ≡ ok d')
        × Started hw d i len d'
        × (take len (buffer_bytes d' e.data_buffer) ≡ take len buf)
  start_in_checked d i len e de buf tx fits small reads =
      let (d1, w) =
        write_buffer_lem d e.data_buffer (take len buf)
          (Fits-take d e.data_buffer len buf fits small) in
      let same : length (take len buf) ≡ len = omega (arith, length-take len buf) in
      (
        sent d1 i len,
        start_of_write d d1 i len e de buf tx reads w.returns,
        sent-Started d d1 e.data_buffer i len (take len buf) small w,
        rw buffer-sent (rw same at w.holds),
      )

  -- Sending: the endpoint is an IN endpoint whose buffer has room for a packet.
  pub start_in_lem :
      (d : Device) (i len : ℕ) (e : Endpoint) (de : EndpointDescriptor) (buf : List ℕ)
      → get_elem? endpoints i ≡ some e
      → e.descriptor ≡ some de
      → ep_is_tx de ≡ true
      → Fits d e.data_buffer 64
      → len ≤ 64
      → len ≤ length buf
      → (d' : Device) × (usb_start_transfer hw d (some i) buf len ≡ ok d')
        × Started hw d i len d'
        × (take len (buffer_bytes d' e.data_buffer) ≡ take len buf)
  start_in_lem d i len e de buf at has tx fits small reads =
      rw enters (start_in_checked d i len e de buf tx fits small reads)
    where
      enters : usb_start_transfer hw d (some i) buf len ≡ start_checked hw d i e de buf len
      enters = unfold usb_start_transfer in ground arith

  -- Receiving: an OUT endpoint's buffer is left to the controller.
  pub start_out_lem :
      (d : Device) (i len : ℕ) (e : Endpoint) (de : EndpointDescriptor) (buf : List ℕ)
      → get_elem? endpoints i ≡ some e
      → e.descriptor ≡ some de
      → ep_is_tx de ≡ false
      → len ≤ 64
      → (d' : Device) × (usb_start_transfer hw d (some i) buf len ≡ ok d') × Started hw d i len d'
  start_out_lem d i len e de buf at has rx small = (armed, enters, started)
    where
      armed : Device
      armed = record d {
        buffer_control =
            update d.buffer_control i (with_pid hw (bit_or len hw.avail) (d.next_pid i));
        next_pid = update d.next_pid i (bit_xor (d.next_pid i) 1);
      }

      enters : usb_start_transfer hw d (some i) buf len ≡ ok armed
      enters = unfold usb_start_transfer start_checked in ground arith

      started : Started hw d i len armed
      started = record {
        length_field = ground (
          arith,
          control_len 0 (d.next_pid i) len (inl refl) small,
          bit_or-zero (bit_or len hw.avail),
        );
        flipped = ground arith;
        keeps = record {
          ep0_len = refl;
          epx_len = refl;
          ep0_buf_kept = refl;
          address_reg = refl;
          address = refl;
          pending = refl;
          configured_kept = refl;
          packet = refl;
        };
      }
