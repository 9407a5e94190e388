-- ===== src/SlaveMem/Slave.antt =====
-- slave_mem_i2c.c: the handler of the slave and the transfers of the master.
use pico_cpp.Common.{
  ℕ, zero, suc, ◌+◌, ◌-◌, List, [], ◌∷◌, Bool, true, false, if◌then◌else◌, length,
}
use pico_cpp.Common.{get_or, set, u8}

pub record Context : Type 0 where
  pub mem : List ℕ
  pub mem_address : ℕ
  pub mem_address_written : Bool

-- The event and, for `receive`, the byte that `i2c_read_byte_raw` takes.
pub data Event : Type 0 where
  receive : ℕ → Event
  request finish : Event

-- The handler; the list holds the byte that `i2c_write_byte_raw` has been given, if any.
unfoldable pub i2c_slave_handler : Context → Event → Context × List ℕ
i2c_slave_handler c (receive byte) =
    if c.mem_address_written
    then (record c { mem = set c.mem c.mem_address byte; mem_address = u8 (c.mem_address + 1) }, [])
    else (record c { mem_address = byte; mem_address_written = true }, [])
i2c_slave_handler c request =
    (record c { mem_address = u8 (c.mem_address + 1) }, get_or c.mem c.mem_address 0 ∷ [])
i2c_slave_handler c finish = (record c { mem_address_written = false }, [])

-- `i2c_write_blocking` with these bytes, as the slave sees it.
unfoldable pub write_transfer : Context → List ℕ → Context
unfolding i2c_slave_handler
write_transfer c [] = (i2c_slave_handler c finish).0
write_transfer c (b ∷ bs) = write_transfer (i2c_slave_handler c (receive b)).0 bs

-- `i2c_read_blocking` of `n` bytes: the slave afterwards and the bytes that it has given.
unfoldable pub read_bytes : Context → ℕ → Context × List ℕ
unfolding i2c_slave_handler
read_bytes c zero = (c, [])
read_bytes c (suc n) =
    let (c1, got) = i2c_slave_handler c request in
    let (c2, rest) = read_bytes c1 n in (c2, get_or got 0 0 ∷ rest)

unfoldable pub read_transfer : Context → ℕ → Context × List ℕ
unfolding read_bytes i2c_slave_handler
read_transfer c n = let (c1, got) = read_bytes c n in ((i2c_slave_handler c1 finish).0, got)

-- A round of the master's loop, with the message that `snprintf` has made: the slave, what the
-- partial read gave and what the rest gave.
unfoldable pub run_master : Context → ℕ → List ℕ → Context × (List ℕ × List ℕ)
unfolding write_transfer read_transfer
run_master c mem_address msg =
    let c = write_transfer c (mem_address ∷ msg) in
    let c = write_transfer c (mem_address ∷ []) in
    let (c, first) = read_transfer c 5 in
    let (c, rest) = read_transfer c (length msg - 5) in (c, (first, rest))
