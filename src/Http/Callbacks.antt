-- ===== src/Http/Callbacks.antt =====
-- picow_access_point.c: the callbacks of the access point that accept a connection, poll it and
-- report an error. `close_ok` says whether `tcp_close` succeeds.
use pico_cpp.Common.{Option, some, none, Bool, not, if◌then◌else◌}
use pico_cpp.Http.Server.{Connection, fresh, Err, err_ok, err_abrt, err_val, err_mem, is_ok}
use pico_cpp.Http.Server.{tcp_close_client_connection}

unfoldable pub tcp_server_poll : Connection → Bool → Connection × Err
unfolding tcp_close_client_connection
tcp_server_poll con close_ok = tcp_close_client_connection con err_ok close_ok

unfoldable pub tcp_server_err : Connection → Err → Bool → Connection
unfolding tcp_close_client_connection
tcp_server_err con err_abrt close_ok = con
tcp_server_err con err close_ok = (tcp_close_client_connection con err close_ok).0

-- `client_pcb` says whether there is one, `allocated` whether `calloc` succeeds; the LED is as it is.
unfoldable pub tcp_server_accept : Err → Bool → Bool → Bool → Option Connection × Err
unfolding is_ok
tcp_server_accept err client_pcb allocated led =
    if not (is_ok err)
    then (none, err_val)
    else if not client_pcb
    then (none, err_val)
    else if not allocated
    then (none, err_mem)
    else (some (fresh led), err_ok)
