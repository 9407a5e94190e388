-- ===== src/Usb/Transfer.antt =====
-- usb/device/dev_lowlevel: the state of the driver, and the operations below the handlers.
use pico_cpp.Common.{ℕ, ◌+◌, List, [], ◌∷◌}
use pico_cpp.Common.{Option, none, some, Bool, true, false, bit_and, bit_or, bit_xor}
use pico_cpp.Common.{leb, ◌==◌, if◌then◌else◌, nonzero, splice, length, take, drop}
use pico_cpp.Common.{get_elem?}
use pico_cpp.Usb.Hw.{UsbHw}
use pico_cpp.Usb.Descriptors.{Endpoint, EndpointDescriptor, DataBuffer, ep0_buf_a, epx_data}
use pico_cpp.Usb.Descriptors.{endpoints}

-- What C leaves undefined or stops at: a failed `assert`, a null pointer or an access outside
-- an array that the code goes through, and `panic`.
pub data Fault : Type 0 where
  assert_failed null_pointer out_of_range panic : Fault

pub data Result {ℓ} (A : Type ℓ) : Type ℓ where
  ok : A → Result A
  err : Fault → Result A

infixl 5 ◌>>=◌
abbrev pub ◌>>=◌ {ℓ κ} : {A : Type ℓ} {B : Type κ} → Result A → (A → Result B) → Result B
ok a >>= f = f a
err e >>= f = err e

-- `struct usb_setup_packet`.
pub record SetupPacket : Type 0 where
  pub bm_request_type : ℕ
  pub b_request : ℕ
  pub w_value : ℕ
  pub w_index : ℕ
  pub w_length : ℕ

-- The globals of the file, the registers it uses and the controller's RAM. The maps are by an
-- endpoint's place in `endpoints`.
pub record Device : Type 0 where
  pub should_set_address : Bool
  pub dev_addr : ℕ
  pub configured : Bool
  pub ep0_buf : List ℕ
  pub next_pid : ℕ → ℕ
  pub buffer_control : ℕ → ℕ
  pub endpoint_control : ℕ → ℕ
  pub setup_packet : SetupPacket
  pub ep0_buf_a_data : List ℕ
  pub epx_data_bytes : List ℕ
  pub dev_addr_ctrl : ℕ
  pub buf_status : ℕ
  pub muxing : ℕ
  pub pwr : ℕ
  pub main_ctrl : ℕ
  pub sie_ctrl : ℕ
  pub inte : ℕ

abbrev pub update : (ℕ → ℕ) → ℕ → ℕ → ℕ → ℕ
update f i v j = if j == i then v else f j

-- The bytes from `data_buffer` on, and a copy to them, which has to fit.
abbrev pub buffer_bytes : Device → DataBuffer → List ℕ
buffer_bytes d ep0_buf_a = d.ep0_buf_a_data
buffer_bytes d (epx_data i) = drop i d.epx_data_bytes

unfoldable pub memcpy : List ℕ → ℕ → List ℕ → Result (List ℕ)
memcpy dst i src =
    if leb (i + length src) (length dst) then ok (splice dst i src) else err out_of_range

abbrev pub write_buffer : Device → DataBuffer → List ℕ → Result Device
write_buffer d ep0_buf_a bytes =
    memcpy d.ep0_buf_a_data 0 bytes >>= λ l. ok (record d { ep0_buf_a_data = l })
write_buffer d (epx_data i) bytes =
    memcpy d.epx_data_bytes i bytes >>= λ l. ok (record d { epx_data_bytes = l })

abbrev pub deref {ℓ} : {A : Type ℓ} → Option A → Result A
deref none = err null_pointer
deref (some a) = ok a

-- The loop of `usb_get_endpoint_configuration`, at index `i` of the table.
unfoldable pub find_endpoint : List Endpoint → ℕ → ℕ → Option ℕ
find_endpoint [] i addr = none
find_endpoint (e ∷ es) i addr = elim (e.descriptor) [
  | none ↦ find_endpoint es (i + 1) addr
  | some de ↦ if de.b_endpoint_address == addr then some i else find_endpoint es (i + 1) addr
]

unfoldable pub usb_get_endpoint_configuration : ℕ → Option ℕ
unfolding find_endpoint endpoints
usb_get_endpoint_configuration addr = find_endpoint endpoints 0 addr

unfoldable pub ep_is_tx : EndpointDescriptor → Bool
ep_is_tx de = nonzero (bit_and de.b_endpoint_address 0x80)

-- `take len buf` is what `memcpy` reads at `buf`; a null pointer is the empty list.
abbrev pub read_source : List ℕ → ℕ → Result (List ℕ)
read_source buf len = if leb len (length buf) then ok (take len buf) else err out_of_range

module _ (hw : UsbHw) where
  abbrev pub with_pid : ℕ → ℕ → ℕ
  with_pid val pid = bit_or val (if nonzero pid then hw.data1_pid else hw.data0_pid)

  -- The body after the `assert`, for the endpoint at `i` with its descriptor at hand.
  unfoldable pub start_checked :
      Device → ℕ → Endpoint → EndpointDescriptor → List ℕ → ℕ → Result Device
  unfolding ep_is_tx
  start_checked d i e de buf len =
      let val = bit_or len hw.avail in
      let finish = λ (d' : Device) (v : ℕ). ok (record d' {
        buffer_control = update d'.buffer_control i (with_pid v (d'.next_pid i));
        next_pid = update d'.next_pid i (bit_xor (d'.next_pid i) 1);
      }) in
      elim (ep_is_tx de) [
        | true ↦ read_source buf len >>= λ bytes.
            write_buffer d e.data_buffer bytes >>= λ d'. finish d' (bit_or val hw.full)
        | false ↦ finish d val
      ]

  -- `ep` is the place in the table, or none for a null pointer.
  unfoldable pub usb_start_transfer : Device → Option ℕ → List ℕ → ℕ → Result Device
  unfolding start_checked
  usb_start_transfer d ep buf len =
      if leb len 64
      then (deref ep >>= λ i. deref (get_elem? endpoints i) >>= λ e.
          deref e.descriptor >>= λ de. start_checked d i e de buf len)
      else err assert_failed
