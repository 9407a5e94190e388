-- ===== src/Usb/Interrupt.antt =====
-- usb/device/dev_lowlevel: the endpoint handlers, the interrupt handler, and the start-up.
use pico_cpp.Common.{ℕ, zero, suc, ◌+◌, ◌-◌, ◌^◌, List, [], ◌∷◌}
use pico_cpp.Common.{none, some, Bool, true, false, not, bit_and, bit_or, bit_xor}
use pico_cpp.Common.{◌==◌, if◌then◌else◌, nonzero, length, replicate, u8, u16, u32}
use pico_cpp.Common.{◌>>>◌, ◌<<<◌}
use pico_cpp.Usb.Hw.{UsbHw}
use pico_cpp.Usb.Descriptors.{Endpoint, DataBuffer, ep0_buf_a, epx_data, Handler, endpoints}
use pico_cpp.Usb.Descriptors.{on_ep0_out, on_ep0_in, on_ep1_out, on_ep2_in}
use pico_cpp.Usb.Descriptors.{EndpointDescriptor, ep0_out_addr, ep1_out_addr, ep2_in_addr}
use pico_cpp.Usb.Transfer.{Result, ok, err, ◌>>=◌, panic, Device, update, buffer_bytes}
use pico_cpp.Usb.Transfer.{usb_get_endpoint_configuration, usb_start_transfer}
use pico_cpp.Usb.Control.{usb_handle_setup_packet, usb_bus_reset}

module _ (hw : UsbHw) where
  unfoldable pub ep0_in_handler : Device → Result Device
  ep0_in_handler d =
      if d.should_set_address
      then ok (record d { dev_addr_ctrl = d.dev_addr; should_set_address = false })
      else usb_start_transfer hw d (usb_get_endpoint_configuration ep0_out_addr) [] 0

  unfoldable pub ep1_out_handler : Device → List ℕ → ℕ → Result Device
  ep1_out_handler d buf len =
      usb_start_transfer hw d (usb_get_endpoint_configuration ep2_in_addr) buf len

  unfoldable pub ep2_in_handler : Device → Result Device
  ep2_in_handler d = usb_start_transfer hw d (usb_get_endpoint_configuration ep1_out_addr) [] 64

  -- The call through `ep->handler`; the handlers of endpoint 0 and 2 do not use their arguments.
  unfoldable pub run_handler : Handler → Device → List ℕ → ℕ → Result Device
  unfolding ep0_in_handler ep1_out_handler ep2_in_handler
  run_handler on_ep0_out d buf len = ok d
  run_handler on_ep0_in d buf len = ep0_in_handler d
  run_handler on_ep1_out d buf len = ep1_out_handler d buf len
  run_handler on_ep2_in d buf len = ep2_in_handler d

  unfoldable pub usb_handle_ep_buff_done : Device → ℕ → Endpoint → Handler → Result Device
  unfolding run_handler
  usb_handle_ep_buff_done d i e h =
      run_handler h d (buffer_bytes d e.data_buffer)
        (u16 (bit_and (d.buffer_control i) hw.len_mask))

  -- The search of `usb_handle_buff_done`, at index `i`: at most one endpoint is notified.
  unfoldable pub notify : Device → List Endpoint → ℕ → ℕ → Result Device
  unfolding usb_handle_ep_buff_done
  notify d [] i addr = ok d
  notify d (e ∷ es) i addr = elim (e.descriptor) [
    | none ↦ notify d es (i + 1) addr
    | some de ↦ elim (e.handler) [
      | none ↦ notify d es (i + 1) addr
      | some h ↦
          let rest = notify d es (i + 1) addr in
          if de.b_endpoint_address == addr then usb_handle_ep_buff_done d i e h else rest
    ]
  ]

  unfoldable pub usb_handle_buff_done : Device → ℕ → Bool → Result Device
  unfolding notify
  usb_handle_buff_done d ep_num is_in =
      notify d endpoints 0 (u8 (bit_or ep_num (if is_in then 0x80 else 0)))

  -- `rounds` is what is left of 32; it ends early when no buffer remains.
  unfoldable pub buff_status_loop : ℕ → ℕ → ℕ → ℕ → Device → Result Device
  buff_status_loop zero i remaining bit d = ok d
  buff_status_loop (suc rounds) i remaining bit d = elim (nonzero remaining) [
    | false ↦ ok d
    | true ↦ elim (nonzero (bit_and remaining bit)) [
      | true ↦
          usb_handle_buff_done (record d { buf_status = hw.hw_clear d.buf_status bit }) (i >>> 1)
            (not (nonzero (bit_and i 1)))
          >>= λ d'.
              buff_status_loop rounds (i + 1) (bit_and remaining (2 ^ 32 - 1 - bit))
                (u32 (bit <<< 1)) d'
      | false ↦ buff_status_loop rounds (i + 1) remaining (u32 (bit <<< 1)) d
    ]
  ]

  unfoldable pub usb_handle_buff_status : Device → Result Device
  unfolding buff_status_loop
  usb_handle_buff_status d = buff_status_loop 32 0 d.buf_status 1 d

  -- `status` is what `usb_hw->ints` reads. The acknowledgements in `sie_status` have no effect
  -- on the state kept here.
  unfoldable pub isr_usbctrl : Device → ℕ → Result Device
  isr_usbctrl d status =
      let setup = nonzero (bit_and status hw.setup_req) in
      let buffers = nonzero (bit_and status hw.buff_status) in
      let reset = nonzero (bit_and status hw.bus_reset) in
      let handled_1 = if setup then bit_or 0 hw.setup_req else 0 in
      let handled_2 = if buffers then bit_or handled_1 hw.buff_status else handled_1 in
      let handled = if reset then bit_or handled_2 hw.bus_reset else handled_2 in
      (if setup then usb_handle_setup_packet hw d else ok d) >>= λ d_1.
      (if buffers then usb_handle_buff_status d_1 else ok d_1) >>= λ d_2.
      let d_3 = if reset then usb_bus_reset d_2 else d_2 in
      (if nonzero (bit_xor status handled) then err panic else ok d_3)

  pub usb_buffer_offset : DataBuffer → ℕ
  usb_buffer_offset ep0_buf_a = bit_xor hw.ep0_buf_a_address hw.dpram
  usb_buffer_offset (epx_data i) = bit_xor (hw.epx_data_address + i) hw.dpram

  -- `usb_setup_endpoint`: endpoint 0 has no control register.
  unfoldable pub usb_setup_endpoint : Device → ℕ → Endpoint → EndpointDescriptor → Device
  usb_setup_endpoint d i e de = elim (e.has_endpoint_control) [
    | none ↦ d
    | some _ ↦
        let reg =
          bit_or
            (bit_or (bit_or hw.ep_enable hw.ep_interrupt)
              (u32 (de.bm_attributes <<< hw.ep_type_lsb)))
            (usb_buffer_offset e.data_buffer) in
        record d { endpoint_control = update d.endpoint_control i reg }
  ]

  unfoldable pub setup_from : Device → List Endpoint → ℕ → Device
  setup_from d [] i = d
  setup_from d (e ∷ es) i = elim (e.descriptor) [
    | none ↦ setup_from d es (i + 1)
    | some de ↦ elim (e.handler) [
      | none ↦ setup_from d es (i + 1)
      | some _ ↦ setup_from (usb_setup_endpoint d i e de) es (i + 1)
    ]
  ]

  unfoldable pub usb_setup_endpoints : Device → Device
  unfolding setup_from
  usb_setup_endpoints d = setup_from d endpoints 0

  -- `usb_device_init`. The RAM is cleared: the buffers, the setup packet and the registers in it.
  unfoldable pub usb_device_init : Device → Device
  usb_device_init d =
      let cleared = record d {
        buffer_control = λ _. 0;
        endpoint_control = λ _. 0;
        setup_packet = record {
          bm_request_type = 0;
          b_request = 0;
          w_value = 0;
          w_index = 0;
          w_length = 0;
        };
        ep0_buf_a_data = replicate (length d.ep0_buf_a_data) 0;
        epx_data_bytes = replicate (length d.epx_data_bytes) 0;
        muxing = hw.muxing_bits;
        pwr = hw.pwr_bits;
        main_ctrl = hw.main_ctrl_bits;
        sie_ctrl = hw.ep0_int_1buf;
        inte = bit_or (bit_or hw.buff_status hw.bus_reset) hw.setup_req;
      } in
      let ready = usb_setup_endpoints cleared in
      record ready { sie_ctrl = hw.hw_set ready.sie_ctrl hw.pullup_en }

  -- What `main` does once the device is configured.
  unfoldable pub start_receiving : Device → Result Device
  start_receiving d = usb_start_transfer hw d (usb_get_endpoint_configuration ep1_out_addr) [] 64
