-- ===== src/Usb/Descriptors.antt =====
-- usb/device/dev_lowlevel: the descriptors of dev_lowlevel.h and usb_common.h as the bytes that
-- go on the bus (the structs are packed, the core little-endian), and the endpoint table.
use pico_cpp.Common.{ℕ, ◌+◌, List, [], ◌∷◌, Option, none, some, u8, ◌>>>◌, replicate, ◌++◌}

pub record EndpointDescriptor : Type 0 where
  pub b_length : ℕ
  pub b_descriptor_type : ℕ
  pub b_endpoint_address : ℕ
  pub bm_attributes : ℕ
  pub w_max_packet_size : ℕ
  pub b_interval : ℕ

abbrev pub u16_bytes : ℕ → List ℕ
u16_bytes w = u8 w ∷ u8 (w >>> 8) ∷ []

abbrev pub endpoint_bytes : EndpointDescriptor → List ℕ
endpoint_bytes d =
    d.b_length
    ∷ d.b_descriptor_type
    ∷ d.b_endpoint_address
    ∷ d.bm_attributes
    ∷ (u16_bytes d.w_max_packet_size ++ (d.b_interval ∷ []))

abbrev pub ep0_in_addr : ℕ
ep0_in_addr = 0x80

abbrev pub ep0_out_addr : ℕ
ep0_out_addr = 0x00

abbrev pub ep1_out_addr : ℕ
ep1_out_addr = 0x01

abbrev pub ep2_in_addr : ℕ
ep2_in_addr = 0x82

-- A descriptor of the four: 64-byte packets, and 0 for control, 2 for bulk.
abbrev pub endpoint_descriptor : ℕ → ℕ → EndpointDescriptor
endpoint_descriptor address attributes = record {
  b_length = 7;
  b_descriptor_type = 0x05;
  b_endpoint_address = address;
  bm_attributes = attributes;
  w_max_packet_size = 64;
  b_interval = 0;
}

abbrev pub ep0_out : EndpointDescriptor
ep0_out = endpoint_descriptor ep0_out_addr 0

abbrev pub ep0_in : EndpointDescriptor
ep0_in = endpoint_descriptor ep0_in_addr 0

abbrev pub ep1_out : EndpointDescriptor
ep1_out = endpoint_descriptor ep1_out_addr 2

abbrev pub ep2_in : EndpointDescriptor
ep2_in = endpoint_descriptor ep2_in_addr 2

abbrev pub device_descriptor : List ℕ
device_descriptor =
    18 ∷ 0x01 ∷ 0x10 ∷ 0x01 ∷ 0 ∷ 0 ∷ 0 ∷ 64 ∷ 0 ∷ 0 ∷ 1 ∷ 0 ∷ 0 ∷ 0 ∷ 1 ∷ 2 ∷ 0 ∷ 1 ∷ []

abbrev pub interface_descriptor : List ℕ
interface_descriptor = 9 ∷ 0x04 ∷ 0 ∷ 0 ∷ 2 ∷ 0xff ∷ 0 ∷ 0 ∷ 0 ∷ []

-- The sizes of the configuration, interface and two endpoint descriptors.
abbrev pub w_total_length : ℕ
w_total_length = 9 + 9 + 7 + 7

abbrev pub config_descriptor : List ℕ
config_descriptor =
    9 ∷ 0x02 ∷ u8 w_total_length ∷ u8 (w_total_length >>> 8) ∷ 1 ∷ 1 ∷ 0 ∷ 0xc0 ∷ 0x32 ∷ []

abbrev pub lang_descriptor : List ℕ
lang_descriptor = 4 ∷ 0x03 ∷ 0x09 ∷ 0x04 ∷ []

-- C strings, without their terminators.
unfoldable pub descriptor_strings : List (List ℕ)
descriptor_strings =
    (b'R' ∷ b'a' ∷ b's' ∷ b'p' ∷ b'b' ∷ b'e' ∷ b'r' ∷ b'r' ∷ b'y' ∷ b' ' ∷ b'P' ∷ b'i' ∷ [])
    ∷ (b'P' ∷ b'i' ∷ b'c' ∷ b'o' ∷ b' ' ∷ b'T' ∷ b'e' ∷ b's' ∷ b't' ∷ b' ' ∷ b'D' ∷ b'e' ∷ b'v'
        ∷ b'i' ∷ b'c' ∷ b'e' ∷ [])
    ∷ []

-- The functions that `handler` points to.
pub data Handler : Type 0 where
  on_ep0_out on_ep0_in on_ep1_out on_ep2_in : Handler

-- Where `data_buffer` points: EP0 in and out share a buffer, and `epx_data` is used from an index.
pub data DataBuffer : Type 0 where
  ep0_buf_a : DataBuffer
  epx_data : ℕ → DataBuffer

-- `struct usb_endpoint_configuration` but for `next_pid`, the one field that changes. An
-- endpoint's control registers are its own, so they are named by its place in the table.
pub record Endpoint : Type 0 where
  pub descriptor : Option EndpointDescriptor
  pub handler : Option Handler
  pub has_endpoint_control : Option (Unit {0})
  pub data_buffer : DataBuffer

abbrev pub unused : Endpoint
unused = record {
  descriptor = none;
  handler = none;
  has_endpoint_control = none;
  data_buffer = ep0_buf_a;
}

-- `dev_config.endpoints`, USB_NUM_ENDPOINTS (16) long; what is not initialised is zero.
unfoldable pub endpoints : List Endpoint
endpoints =
    record {
      descriptor = some ep0_out;
      handler = some on_ep0_out;
      has_endpoint_control = none;
      data_buffer = ep0_buf_a;
    }
    ∷ record {
      descriptor = some ep0_in;
      handler = some on_ep0_in;
      has_endpoint_control = none;
      data_buffer = ep0_buf_a;
    }
    ∷ record {
      descriptor = some ep1_out;
      handler = some on_ep1_out;
      has_endpoint_control = some tt;
      data_buffer = epx_data 0;
    }
    ∷ record {
      descriptor = some ep2_in;
      handler = some on_ep2_in;
      has_endpoint_control = some tt;
      data_buffer = epx_data 64;
    }
    ∷ replicate 12 unused
