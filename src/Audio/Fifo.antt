-- ===== src/Audio/Fifo.antt =====
-- The sample FIFO of a channel against the queue of its samples.
use monte_lauro_ml_cd32_ppc.Base.{
  ℕ, zero, suc, ◌+◌, ◌-◌, ◌%◌, ◌<◌, List, [], ◌∷◌, update, ◌≡◌, ◌≢◌, ap, arith, ne→==, eq→==,
}
use monte_lauro_ml_cd32_ppc.Base.Int.{ℤ}
use monte_lauro_ml_cd32_ppc.Audio.{AudioChannel, push, read_sample}

pub record IsValid (ch : AudioChannel) : Type 0 where
  pub rd_in : ch.rd_ptr < 2048
  pub wr_in : ch.wr_ptr < 2048

-- how many samples are waiting
abbrev pending : AudioChannel → ℕ
pending ch = (ch.wr_ptr + 2048 - ch.rd_ptr) % 2048

-- the `n` samples from index `rd` on, going round at the end of the buffer
abbrev window : (ℕ → ℤ) → ℕ → ℕ → List ℤ
window f rd zero = []
window f rd (suc n) = f rd ∷ window f ((rd + 1) % 2048) n

abbrev pub contents : AudioChannel → List ℤ
contents ch = window ch.fifo ch.rd_ptr (pending ch)

-- A push onto 2047 waiting samples makes the FIFO look empty: all of them are lost.
pub push-overflow :
    (s : ℤ) (ch : AudioChannel) → IsValid ch → pending ch ≡ 2047 → contents (push s ch) ≡ []
unfolding push
push-overflow s ch v h = ap (window (update ch.fifo ch.wr_ptr s) ch.rd_ptr) {y = 0} (omega arith)

contents-waiting :
    (ch : AudioChannel)
    → IsValid ch
    → ch.rd_ptr ≢ ch.wr_ptr
    → contents ch ≡ ch.fifo ch.rd_ptr ∷ contents (record ch { rd_ptr = (ch.rd_ptr + 1) % 2048 })
contents-waiting ch v h = ap (window ch.fifo ch.rd_ptr) less
  where
    less : pending ch ≡ suc (pending (record ch { rd_ptr = (ch.rd_ptr + 1) % 2048 }))
    less = omega arith

contents-empty : (ch : AudioChannel) → IsValid ch → ch.rd_ptr ≡ ch.wr_ptr → contents ch ≡ []
contents-empty ch v h = ap (window ch.fifo ch.rd_ptr) {y = 0} (omega arith)

-- In a valid channel, reading gives the oldest sample that waits and takes it off; with none
-- waiting it gives the sample at the read pointer and changes nothing.
read_sample_lem :
    (ch : AudioChannel)
    → IsValid ch
    → ((ch.rd_ptr ≢ ch.wr_ptr)
        → (contents ch ≡ (read_sample ch).0 ∷ contents (read_sample ch).1)
          × IsValid (read_sample ch).1)
      × ((ch.rd_ptr ≡ ch.wr_ptr) → (contents ch ≡ []) × (read_sample ch ≡ (ch.fifo ch.rd_ptr, ch)))
unfolding read_sample
read_sample_lem ch v = (
  λ h. simp (ne→== ch.rd_ptr ch.wr_ptr h) (contents-waiting ch v h, omega arith),
  λ h. (contents-empty ch v h, simp (eq→== ch.rd_ptr ch.wr_ptr h)),
)
