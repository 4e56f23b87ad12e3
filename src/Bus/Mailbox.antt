-- ===== src/Bus/Mailbox.antt =====
-- The mailbox protocol between the PPC and the companion, and the joypad behind it.
use monte_lauro_ml_cd32_ppc.Base.{
  ℕ, ◌-◌, ◌%◌, ◌^◌, ◌<◌, Bool, true, false, Option, none, some, ◌≡◌, refl, ap, arith, ◌⊎◌, inl, inr,
}
use monte_lauro_ml_cd32_ppc.Base.Run.{Run, value, ◌>>=◌}
use monte_lauro_ml_cd32_ppc.Memory.{region, mailbox}
use monte_lauro_ml_cd32_ppc.Bus.{
  Bus, read32, write32, service_mailbox, mailbox_answer, ppc_mailbox_send, set_joypad,
  joypad_raw_gpio,
}
use monte_lauro_ml_cd32_ppc.Bus.Access.{
  write_word, write_word_in, read_word, write_mailbox, read_mailbox, read_byte, read_byte_in,
  write_byte, write_byte_in, write_mailbox_byte,
}

-- The 16 bits of the buttons that the host sets are what the guest reads, inverted, by the raw
-- pins, by an I/O read of the pin register and by the joypad command.
set_joypad-read :
    (state : ℕ) (b : Bus)
    → state < 2 ^ 16
    → (joypad_raw_gpio (set_joypad state b) ≡ 2 ^ 16 - 1 - state)
      × ((ppc_mailbox_send 0x02 0x20 (set_joypad state b)).mailbox_resp ≡ 2 ^ 16 - 1 - state)
      × ((arg : ℕ)
          → (ppc_mailbox_send 0x04 arg (set_joypad state b)).mailbox_resp ≡ 2 ^ 16 - 1 - state)
unfolding joypad_raw_gpio set_joypad ppc_mailbox_send service_mailbox mailbox_answer read32 write32
set_joypad-read state b h = (omega arith, refl, λ arg. refl)

-- `write_word` to the mailbox, by the mailbox's own handler
write_word-mailbox :
    (allow : Bool) (addr val : ℕ) (b : Bus)
    → region addr ≡ mailbox
    → write_word allow addr val b ≡ value (some (write_mailbox addr val b))
unfolding write_word
write_word-mailbox allow addr val b h = rw h (unfold write_word_in in refl)

-- two stores of the guest, one after the other
abbrev then_write : Bool → ℕ → ℕ → Run (Option Bus) → Run (Option Bus)
then_write allow addr val r =
    r >>= λ o. elim o [ none ↦ value none | some b ↦ write_word allow addr val b ]

-- The stores of a command: the argument and the command, in either order, and then 1 into the status
-- word.
abbrev guest_sends : Bool → Bool → ℕ → ℕ → Bus → Run (Option Bus)
guest_sends allow true cmd arg b =
    then_write allow 0x0100_0008 1
      (then_write allow 0x0100_0000 cmd (write_word allow 0x0100_000C arg b))
guest_sends allow false cmd arg b =
    then_write allow 0x0100_0008 1
      (then_write allow 0x0100_000C arg (write_word allow 0x0100_0000 cmd b))

-- The guest reads the status 0 and the response `resp`, the I/O registers are `io`, and nothing else
-- on the bus has changed but the mailbox.
pub record Answered (allow arg_first : Bool) (cmd arg resp : ℕ) (io : ℕ → ℕ) (b : Bus)
    : Type 0 where
  pub after : Bus
  pub sent : guest_sends allow arg_first cmd arg b ≡ value (some after)
  pub status : read_word after 0x0100_0008 ≡ some 0
  pub response : read_word after 0x0100_0004 ≡ some resp
  pub registers : (i : ℕ) → after.cfio i ≡ io i
  pub rest : after ≡ record b {
    mailbox_cmd = cmd;
    mailbox_arg = arg;
    mailbox_resp = after.mailbox_resp;
    mailbox_status = 0;
    cfio = after.cfio;
  }

stale_cmd :
    (addr val : ℕ) (b : Bus)
    → addr % 16 ≡ 0
    → addr % 4 ≡ 0
    → read_byte_in mailbox (write_mailbox_byte addr val b) addr ≡ read_byte_in mailbox b addr
unfolding read_byte_in write_mailbox_byte write_mailbox read_mailbox
stale_cmd addr val b h l = rw (h, l) (ap some (omega arith))

stale_arg :
    (addr val : ℕ) (b : Bus)
    → addr % 16 ≡ 12
    → addr % 4 ≡ 0
    → read_byte_in mailbox (write_mailbox_byte addr val b) addr ≡ read_byte_in mailbox b addr
unfolding read_byte_in write_mailbox_byte write_mailbox read_mailbox
stale_arg addr val b h l = rw (h, l) (ap some (omega arith))

-- A byte that is written to the first byte of the command or the argument word goes to the high
-- end of the word, while `read_byte` there gives the low end: the byte that is read is the one
-- that was read before.
mailbox_byte_stale :
    (addr val : ℕ) (b : Bus)
    → region addr ≡ mailbox
    → (addr % 16 ≡ 0) ⊎ (addr % 16 ≡ 12)
    → (b' : Bus) × (write_byte addr val b ≡ value (some b'))
      × (read_byte b' addr ≡ read_byte b addr)
unfolding write_byte read_byte
mailbox_byte_stale addr val b h w =
    (write_mailbox_byte addr val b, rw h (unfold write_byte_in in refl), rw h (same w))
  where
    same :
        (addr % 16 ≡ 0) ⊎ (addr % 16 ≡ 12)
        → read_byte_in mailbox (write_mailbox_byte addr val b) addr ≡ read_byte_in mailbox b addr
    same (inl e) = stale_cmd addr val b e (omega arith)
    same (inr e) = stale_arg addr val b e (omega arith)
