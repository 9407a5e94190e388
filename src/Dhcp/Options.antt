-- ===== src/Dhcp/Options.antt =====
-- dhcpserver.c: the options of a message, found and written through a pointer into them.
use pico_cpp.Common.{ℕ, zero, suc, ◌+◌, List, [], ◌∷◌, none, some, true, false}
use pico_cpp.Common.{ltb, ◌==◌, if◌then◌else◌, get_elem?, take, splice, u8, ◌>>>◌}

-- `overread` is a read behind the options, which C leaves undefined.
pub data Find : Type 0 where
  found : ℕ → Find
  missing overread : Find

-- The loop of `opt_find` at `i`, with at most `fuel` rounds: `opt` is what the pointer sees, the
-- 308 bytes behind the magic cookie.
unfoldable pub opt_find_loop : ℕ → List ℕ → ℕ → ℕ → Find
opt_find_loop zero opt cmd i = missing
opt_find_loop (suc fuel) opt cmd i =
    if ltb i 308
    then elim (get_elem? opt i) [
      | none ↦ overread
      | some code ↦ elim (code == 255) [
        | true ↦ missing
        | false ↦ elim (code == cmd) [
          | true ↦ found i
          | false ↦ elim (get_elem? opt (i + 1)) [
            | none ↦ overread
            | some n ↦ opt_find_loop fuel opt cmd (i + (2 + n))
          ]
        ]
      ]
    ]
    else missing

-- A round moves on by at least 2, so 155 are more than the loop can make.
unfoldable pub opt_find : List ℕ → ℕ → Find
unfolding opt_find_loop
opt_find opt cmd = opt_find_loop 155 opt cmd 0

-- The options and the index that `opt` points to in them.
pub record Cursor : Type 0 where
  pub bytes : List ℕ
  pub at : ℕ

unfoldable pub opt_write_n : Cursor → ℕ → ℕ → List ℕ → Cursor
opt_write_n c cmd n payload =
    let o = cmd ∷ u8 n ∷ take n payload in
    record { bytes = splice c.bytes c.at o; at = c.at + (2 + n) }

unfoldable pub opt_write_u8 : Cursor → ℕ → ℕ → Cursor
opt_write_u8 c cmd val = record { bytes = splice c.bytes c.at (cmd ∷ 1 ∷ val ∷ []); at = c.at + 3 }

unfoldable pub opt_write_u32 : Cursor → ℕ → ℕ → Cursor
opt_write_u32 c cmd val =
    let o = cmd ∷ 4 ∷ u8 (val >>> 24) ∷ u8 (val >>> 16) ∷ u8 (val >>> 8) ∷ u8 val ∷ [] in
    record { bytes = splice c.bytes c.at o; at = c.at + 6 }

unfoldable pub opt_write_end : Cursor → Cursor
opt_write_end c = record { bytes = splice c.bytes c.at (255 ∷ []); at = c.at + 1 }
