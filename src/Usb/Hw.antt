-- ===== src/Usb/Hw.antt =====
-- usb/device/dev_lowlevel: what the code takes from the Pico SDK and the USB controller, which
-- the repository does not hold: the bit masks of the registers, the address of the controller's
-- RAM, and what a write to the set and clear aliases of a register does.
use pico_cpp.Common.{ℕ, ◌-◌, ◌^◌, ◌≡◌, bit_and, bit_or, refl}

pub record UsbHw : Type 0 where
  -- Buffer control: USB_BUF_CTRL_*.
  pub avail : ℕ
  pub full : ℕ
  pub data0_pid : ℕ
  pub data1_pid : ℕ
  pub len_mask : ℕ
  -- Endpoint control: EP_CTRL_*.
  pub ep_enable : ℕ
  pub ep_interrupt : ℕ
  pub ep_type_lsb : ℕ
  -- Interrupts: USB_INTS_*.
  pub setup_req : ℕ
  pub buff_status : ℕ
  pub bus_reset : ℕ
  -- `(uint32_t) usb_dpram` and the addresses of `ep0_buf_a` and `epx_data` in it.
  pub dpram : ℕ
  pub ep0_buf_a_address : ℕ
  pub epx_data_address : ℕ
  -- The values that `usb_device_init` writes.
  pub muxing_bits : ℕ
  pub pwr_bits : ℕ
  pub main_ctrl_bits : ℕ
  pub ep0_int_1buf : ℕ
  pub pullup_en : ℕ
  -- A write of a mask to the set or the clear alias of a register.
  pub hw_set : ℕ → ℕ → ℕ
  pub hw_clear : ℕ → ℕ → ℕ

-- The bit positions that the RP2040 datasheet gives for buffer control.
pub record BufferControl (hw : UsbHw) : Type 0 where
  pub avail_bit : hw.avail ≡ 2 ^ 10
  pub full_bit : hw.full ≡ 2 ^ 15
  pub data0_clear : hw.data0_pid ≡ 0
  pub data1_bit : hw.data1_pid ≡ 2 ^ 13
  pub len_bits : hw.len_mask ≡ 2 ^ 10 - 1

-- The bit positions that it gives for the interrupt status.
pub record Interrupts (hw : UsbHw) : Type 0 where
  pub setup_bit : hw.setup_req ≡ 2 ^ 16
  pub status_bit : hw.buff_status ≡ 2 ^ 4
  pub reset_bit : hw.bus_reset ≡ 2 ^ 12

-- The values of the RP2040, which meet both.
abbrev pub rp2040 : UsbHw
rp2040 = record {
  avail = 2 ^ 10;
  full = 2 ^ 15;
  data0_pid = 0;
  data1_pid = 2 ^ 13;
  len_mask = 2 ^ 10 - 1;
  ep_enable = 2 ^ 31;
  ep_interrupt = 2 ^ 29;
  ep_type_lsb = 26;
  setup_req = 2 ^ 16;
  buff_status = 2 ^ 4;
  bus_reset = 2 ^ 12;
  dpram = 0x5010_0000;
  ep0_buf_a_address = 0x5010_0100;
  epx_data_address = 0x5010_0180;
  muxing_bits = 9;
  pwr_bits = 12;
  main_ctrl_bits = 1;
  ep0_int_1buf = 2 ^ 29;
  pullup_en = 2 ^ 16;
  hw_set = bit_or;
  hw_clear = λ r m. bit_and r (2 ^ 32 - 1 - m);
}

pub rp2040-BufferControl : BufferControl rp2040
rp2040-BufferControl = record {
  avail_bit = refl;
  full_bit = refl;
  data0_clear = refl;
  data1_bit = refl;
  len_bits = refl;
}

pub rp2040-Interrupts : Interrupts rp2040
rp2040-Interrupts = record { setup_bit = refl; status_bit = refl; reset_bit = refl }
