-- ===== src/SlaveMem/ReadBack.antt =====
-- slave_mem_i2c.c: what is written is read back.
use pico_cpp.Common.{ℕ, zero, suc, ◌+◌, ◌-◌, ◌%◌, ◌<◌, ◌≤◌, ◌≡◌, refl, sym, ap, ap₂, ◌∙◌, arith}
use pico_cpp.Common.{List, [], ◌∷◌, Bool, true, false, length, length-set, get_or, set, u8}
use pico_cpp.Common.{get_or-set_self, get_or-set_ne, take, drop}
use pico_cpp.SlaveMem.Slave.{Context, finish, i2c_slave_handler}
use pico_cpp.SlaveMem.Slave.{write_transfer, read_bytes, read_transfer, run_master}

-- The memory as a ring: `data` written from address `a` on, and `n` bytes read from there.
abbrev pub written : List ℕ → ℕ → List ℕ → List ℕ
written mem a [] = mem
written mem a (d ∷ ds) = written (set mem a d) (u8 (a + 1)) ds

abbrev seen : List ℕ → ℕ → ℕ → List ℕ
seen mem a zero = []
seen mem a (suc n) = get_or mem a 0 ∷ seen mem (u8 (a + 1)) n

outside :
    (ds mem : List ℕ) (b a : ℕ)
    → a < 256
    → b < 256
    → length ds ≤ (a + 256 - b) % 256
    → get_or (written mem b ds) a 0 ≡ get_or mem a 0
outside [] mem b a ha hb far = refl
outside (d ∷ ds) mem b a ha hb far =
    outside ds (set mem b d) (u8 (b + 1)) a ha (omega arith) (omega arith)
    ∙ get_or-set_ne mem b a d 0 (omega arith)

seen_written :
    (ds mem : List ℕ) (a : ℕ)
    → a < 256
    → length mem ≡ 256
    → length ds ≤ 256
    → seen (written mem a ds) a (length ds) ≡ ds
seen_written [] mem a ha size short = refl
seen_written (d ∷ ds) mem a ha size short =
    ap₂ (λ x l. x ∷ l)
      (outside ds (set mem a d) (u8 (a + 1)) a ha (omega arith) (omega arith)
        ∙ get_or-set_self mem a d 0 (omega (arith, size)))
      (seen_written ds (set mem a d) (u8 (a + 1)) (omega arith) (length-set mem a d ∙ size)
        (omega arith))

take-seen : (k n a : ℕ) (mem : List ℕ) → k ≤ n → take k (seen mem a n) ≡ seen mem a k
take-seen zero n a mem h = refl
take-seen (suc k) zero a mem h = absurd (omega arith)
take-seen (suc k) (suc n) a mem h =
    ap (λ l. get_or mem a 0 ∷ l) (take-seen k n (u8 (a + 1)) mem (omega arith))

drop-seen :
    (k n a : ℕ) (mem : List ℕ) → a < 256 → drop k (seen mem a (k + n)) ≡ seen mem (u8 (a + k)) n
drop-seen zero n a mem h =
    let e : 0 + n ≡ n = omega arith in
    let e2 : a ≡ u8 (a + 0) = omega arith in ap₂ (λ k b. seen mem b k) e e2
drop-seen (suc k) n a mem h =
    let e : suc k + n ≡ suc (k + n) = omega arith in
    let e2 : u8 (u8 (a + 1) + k) ≡ u8 (a + suc k) = omega arith in
    ap (λ m. drop (suc k) (seen mem a m)) e
    ∙ drop-seen k n (u8 (a + 1)) mem (omega arith)
    ∙ ap (λ b. seen mem b n) e2

stores :
    (bs mem : List ℕ) (a : ℕ)
    → a < 256
    → write_transfer (record { mem = mem; mem_address = a; mem_address_written = true }) bs
      ≡ record {
        mem = written mem a bs;
        mem_address = u8 (a + length bs);
        mem_address_written = false;
      }
unfolding write_transfer i2c_slave_handler
stores [] mem a h =
    let e : a ≡ u8 (a + 0) = omega arith in
    ap (λ b. record { mem = mem; mem_address = b; mem_address_written = false }) e
stores (b ∷ bs) mem a h =
    let e : u8 (u8 (a + 1) + length bs) ≡ u8 (a + suc (length bs)) = omega arith in
    stores bs (set mem a b) (u8 (a + 1)) (omega arith)
    ∙ ap
        (λ k. record {
          mem = written (set mem a b) (u8 (a + 1)) bs;
          mem_address = k;
          mem_address_written = false;
        })
        e

gives :
    (n : ℕ) (mem : List ℕ) (a : ℕ) (w : Bool)
    → a < 256
    → read_bytes (record { mem = mem; mem_address = a; mem_address_written = w }) n
      ≡ (record { mem = mem; mem_address = u8 (a + n); mem_address_written = w }, seen mem a n)
unfolding read_bytes i2c_slave_handler
gives zero mem a w h =
    let e : a ≡ u8 (a + 0) = omega arith in
    ap (λ b. (record { mem = mem; mem_address = b; mem_address_written = w }, [])) e
gives (suc n) mem a w h =
    let e : u8 (u8 (a + 1) + n) ≡ u8 (a + suc n) = omega arith in
    ap (λ r. (r.0, get_or mem a 0 ∷ r.1)) (gives n mem (u8 (a + 1)) w (omega arith))
    ∙ ap
        (λ k. (
          record { mem = mem; mem_address = k; mem_address_written = w },
          get_or mem a 0 ∷ seen mem (u8 (a + 1)) n,
        ))
        e

abbrev pub idle : List ℕ → ℕ → Context
idle mem a = record { mem = mem; mem_address = a; mem_address_written = false }

writes :
    (mem : List ℕ) (a0 a : ℕ) (msg : List ℕ)
    → a < 256
    → write_transfer (idle mem a0) (a ∷ msg) ≡ idle (written mem a msg) (u8 (a + length msg))
unfolding write_transfer i2c_slave_handler
writes mem a0 a msg h = stores msg mem a h

reads :
    (mem : List ℕ) (a n : ℕ)
    → a < 256
    → read_transfer (idle mem a) n ≡ (idle mem (u8 (a + n)), seen mem a n)
unfolding read_transfer i2c_slave_handler
reads mem a n h = ap (λ r. ((i2c_slave_handler r.0 finish).0, r.1)) (gives n mem a false h)

-- A round of the master reads back what it has written, in its two parts, wherever the message
-- lies and also where it wraps around the end of the memory, and leaves the slave ready for the
-- next round. The slave is between transfers, its memory has 256 bytes, and the message has at
-- least 5 and at most 256.
pub run_master_lem :
    (mem : List ℕ) (a0 a : ℕ) (msg : List ℕ)
    → length mem ≡ 256
    → a < 256
    → 5 ≤ length msg
    → length msg ≤ 256
    → run_master (idle mem a0) a msg
      ≡ (idle (written mem a msg) (u8 (a + length msg)), (take 5 msg, drop 5 msg))
unfolding run_master
run_master_lem mem a0 a msg size h long short =
    let mem' : List ℕ = written mem a msg in
    let n : ℕ = length msg in
    let w1 = writes mem a0 a msg h in
    let w2 = writes mem' (u8 (a + n)) a [] h in
    let back : seen mem' a n ≡ msg = seen_written msg mem a h size short in
    let r1 = reads mem' (u8 (a + 0)) 5 (omega arith) in
    let r2 = reads mem' (u8 (u8 (a + 0) + 5)) (n - 5) (omega arith) in
    let start : u8 (a + 0) ≡ a = omega arith in
    let after : u8 (u8 (a + 0) + 5) ≡ u8 (a + 5) = omega arith in
    let end : u8 (u8 (u8 (a + 0) + 5) + (n - 5)) ≡ u8 (a + n) = omega arith in
    let whole : 5 + (n - 5) ≡ n = omega arith in
    let front : seen mem' (u8 (a + 0)) 5 ≡ take 5 msg =
      ap (λ b. seen mem' b 5) start ∙ sym (take-seen 5 n a mem' long) ∙ ap (take 5) back in
    let rest : seen mem' (u8 (u8 (a + 0) + 5)) (n - 5) ≡ drop 5 msg =
      ap (λ b. seen mem' b (n - 5)) after
      ∙ sym (drop-seen 5 (n - 5) a mem' h)
      ∙ ap (λ k. drop 5 (seen mem' a k)) whole
      ∙ ap (drop 5) back in
    let last : List ℕ → Context × List ℕ → Context × (List ℕ × List ℕ) =
      λ first t. (t.0, (first, t.1)) in
    let second : Context × List ℕ → Context × (List ℕ × List ℕ) =
      λ t. last t.1 (read_transfer t.0 (n - 5)) in
    ap (λ c. second (read_transfer (write_transfer c (a ∷ [])) 5)) w1
    ∙ ap (λ c. second (read_transfer c 5)) w2
    ∙ ap second r1
    ∙ ap (last (seen mem' (u8 (a + 0)) 5)) r2
    ∙ (λ i. (idle mem' (end i), (front i, rest i)))
