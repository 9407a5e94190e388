-- ===== src/Usb/Buffers.antt =====
-- usb/device/dev_lowlevel: the data buffers, what a copy to them changes and what it leaves.
use pico_cpp.Common.{ℕ, ◌+◌, ◌≤◌, ◌≡◌, ap, ◌∙◌, refl, arith, List}
use pico_cpp.Common.{length, take, splice}
use pico_cpp.Common.{length-splice, read-splice}
use pico_cpp.Usb.Descriptors.{DataBuffer, ep0_buf_a, epx_data}
use pico_cpp.Usb.Transfer.{ok, Device, buffer_bytes, write_buffer}
use pico_cpp.Usb.Transfer.{memcpy}

-- There is room for `n` bytes from `data_buffer` on.
abbrev pub Fits : Device → DataBuffer → ℕ → Type 0
Fits d ep0_buf_a n = n ≤ length d.ep0_buf_a_data
Fits d (epx_data i) n = i + n ≤ length d.epx_data_bytes

-- What a transfer leaves alone.
pub record Keeps (d d' : Device) : Type 0 where
  pub ep0_len : length d'.ep0_buf_a_data ≡ length d.ep0_buf_a_data
  pub epx_len : length d'.epx_data_bytes ≡ length d.epx_data_bytes
  pub ep0_buf_kept : d'.ep0_buf ≡ d.ep0_buf
  pub address_reg : d'.dev_addr_ctrl ≡ d.dev_addr_ctrl
  pub address : d'.dev_addr ≡ d.dev_addr
  pub pending : d'.should_set_address ≡ d.should_set_address
  pub configured_kept : d'.configured ≡ d.configured
  pub packet : d'.setup_packet ≡ d.setup_packet

-- The buffers have the sizes that the C arrays have: a packet fits each of the three.
pub record Ready (d : Device) : Type 0 where
  pub ep0_room : 64 ≤ length d.ep0_buf_a_data
  pub epx_room : 128 ≤ length d.epx_data_bytes
  pub ep0_buf_size : length d.ep0_buf ≡ 64

pub Keeps-Ready : {d d' : Device} → Keeps d d' → Ready d → Ready d'
Keeps-Ready k r = record {
  ep0_room = omega (arith, k.ep0_len, r.ep0_room);
  epx_room = omega (arith, k.epx_len, r.epx_room);
  ep0_buf_size = ap length k.ep0_buf_kept ∙ r.ep0_buf_size;
}

-- What a copy to a data buffer changes and what it leaves.
pub record Wrote (d : Device) (b : DataBuffer) (bytes : List ℕ) (d' : Device) : Type 0 where
  pub returns : write_buffer d b bytes ≡ ok d'
  pub holds : take (length bytes) (buffer_bytes d' b) ≡ bytes
  pub keeps : Keeps d d'
  pub pids : d'.next_pid ≡ d.next_pid

pub memcpy_fits :
    (dst : List ℕ) (i : ℕ) (src : List ℕ)
    → i + length src ≤ length dst
    → memcpy dst i src ≡ ok (splice dst i src)
unfolding memcpy
memcpy_fits dst i src h = ground arith

pub write_buffer_lem :
    (d : Device) (b : DataBuffer) (bytes : List ℕ)
    → Fits d b (length bytes)
    → (d' : Device) × Wrote d b bytes d'
write_buffer_lem d ep0_buf_a bytes h = (
  record d { ep0_buf_a_data = splice d.ep0_buf_a_data 0 bytes },
  record {
    returns = rw (memcpy_fits d.ep0_buf_a_data 0 bytes (omega arith));
    holds = read-splice d.ep0_buf_a_data 0 bytes (omega arith);
    keeps = record {
      ep0_len = length-splice d.ep0_buf_a_data 0 bytes (omega arith);
      epx_len = refl;
      ep0_buf_kept = refl;
      address_reg = refl;
      address = refl;
      pending = refl;
      configured_kept = refl;
      packet = refl;
    };
    pids = refl;
  },
)
write_buffer_lem d (epx_data i) bytes h = (
  record d { epx_data_bytes = splice d.epx_data_bytes i bytes },
  record {
    returns = rw (memcpy_fits d.epx_data_bytes i bytes (omega arith));
    holds = read-splice d.epx_data_bytes i bytes (omega arith);
    keeps = record {
      ep0_len = refl;
      epx_len = length-splice d.epx_data_bytes i bytes (omega arith);
      ep0_buf_kept = refl;
      address_reg = refl;
      address = refl;
      pending = refl;
      configured_kept = refl;
      packet = refl;
    };
    pids = refl;
  },
)
