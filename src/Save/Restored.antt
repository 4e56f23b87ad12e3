-- ===== src/Save/Restored.antt =====
-- A machine that is saved and loaded into another: which of its state comes back.
use monte_lauro_ml_cd32_ppc.Base.{
  ℕ, zero, suc, ◌+◌, ◌-◌, ◌≤◌, ◌<◌, ◌∷◌, ltb, leb, ◌&&◌, ◌==◌, min, take, slice, length-slice,
  write_cells, update, Bytes, ◌≡◌, refl, sym, ap, ap₂, ◌∙◌, arith, Bool-cases, inl, inr,
}
use monte_lauro_ml_cd32_ppc.Base.Run.{value}
use monte_lauro_ml_cd32_ppc.Base.Exec.{ok}
use monte_lauro_ml_cd32_ppc.Memory.{MemoryMap, vram_view, put_vram}
use monte_lauro_ml_cd32_ppc.Memory.Access.{IsValid}
use monte_lauro_ml_cd32_ppc.Bus.{Bus}
use monte_lauro_ml_cd32_ppc.Save.Sections.{save_mem_region, load_mem_region, load_audio}
use monte_lauro_ml_cd32_ppc.Save.State.{
  Hardware, load_section, load_sections, load_state, save_state, sections_of,
}
use monte_lauro_ml_cd32_ppc.Save.Whole.{load_state-save_state}
use monte_lauro_ml_cd32_ppc.Save.Reads.{filled_lem}
use monte_lauro_ml_cd32_ppc.Save.RoundTrips.{
  PpcInRange, CfInRange, GpuInRange, CdromInRange, DmaInRange, BusInRange, restored_ppc,
  restored_cf, restored_gpu, restored_cdrom, restored_dma, restored_bus, load_ppc-save_ppc,
  load_cf-save_cf, load_gpu-save_gpu, load_cdrom-save_cdrom, load_dma-save_dma, load_bus-save_bus,
}

-- Every machine word that is saved is in its range, and the memories have their sizes.
pub record InRange (hw : Hardware) : Type 0 where
  pub ppc : PpcInRange hw.ppc
  pub coldfire : CfInRange hw.coldfire
  pub gpu : GpuInRange hw.bus.gpu
  pub cdrom : CdromInRange hw.bus.cdrom
  pub dma : DmaInRange hw.bus.dma
  pub bus : BusInRange hw.bus
  pub mem : IsValid hw.bus.mem

-- the memory after the two sections of it
abbrev restored_mem : MemoryMap → MemoryMap → MemoryMap
restored_mem m m' =
    let m1 = record m' { unified = load_mem_region m'.unified (save_mem_region m.unified) } in
    put_vram (load_mem_region (vram_view m1) (save_mem_region (vram_view m))) m1

-- the bus before its own section
abbrev refilled : Hardware → Hardware → Bus
refilled hw hw' = record hw'.bus {
  mem = restored_mem hw.bus.mem hw'.bus.mem;
  gpu = restored_gpu hw.bus.gpu hw'.bus.gpu;
  cdrom = restored_cdrom hw.bus.cdrom hw'.bus.cdrom;
  dma = restored_dma hw.bus.dma hw'.bus.dma;
}

abbrev pub restored : Hardware → Hardware → Hardware
restored hw hw' = record hw' {
  ppc = restored_ppc hw.ppc hw'.ppc;
  coldfire = restored_cf hw.coldfire hw'.coldfire;
  bus = restored_bus hw.bus (refilled hw hw');
}

load_all :
    (hw hw' : Hardware)
    → InRange hw
    → load_sections (sections_of hw) hw' ≡ value (restored hw hw', ok tt)
unfolding load_sections load_section sections_of load_audio
load_all hw hw' r = rw (load_ppc-save_ppc hw.ppc hw'.ppc r.ppc) (
    rw (load_cf-save_cf hw.coldfire hw'.coldfire r.coldfire) (
      rw (load_gpu-save_gpu hw.bus.gpu hw'.bus.gpu r.gpu) (
        rw (load_cdrom-save_cdrom hw.bus.cdrom hw'.bus.cdrom r.cdrom) (
          rw (load_dma-save_dma hw.bus.dma hw'.bus.dma r.dma)
            (rw (load_bus-save_bus hw.bus (refilled hw hw') r.bus) refl)))))

cells_before : (f g : ℕ → ℕ) (o n i : ℕ) → i < o → write_cells f o (slice g o n) i ≡ f i
unfolding write_cells slice
cells_before f g o zero i h = refl
cells_before f g o (suc n) i h =
    cells_before (update f o (g o)) g (o + 1) n i (omega arith) ∙ ground arith

cells_copied : (f g : ℕ → ℕ) (o n i : ℕ) → o ≤ i → i < o + n → write_cells f o (slice g o n) i ≡ g i
unfolding write_cells slice
cells_copied f g o zero i h k = absurd (omega arith)
cells_copied f g o (suc n) i h k = elim (Bool-cases (i == o)) [
  | inl e ↦ cells_before (update f o (g o)) g (o + 1) n i (ground arith) ∙ ground arith
  | inr e ↦ cells_copied (update f o (g o)) g (o + 1) n i (ground arith) (omega arith)
]

take_all : (n : ℕ) (f : ℕ → ℕ) (o : ℕ) → take n (slice f o n) ≡ slice f o n
unfolding slice
take_all zero f o = refl
take_all (suc n) f o = ap (λ xs. f o ∷ xs) (take_all n f (o + 1))

-- a memory of the same size, copied whole
copied_whole :
    (dst src : Bytes) (i : ℕ)
    → dst.len ≡ src.len
    → i < src.len
    → (load_mem_region dst (save_mem_region src)).cell i ≡ src.cell i
unfolding load_mem_region save_mem_region
copied_whole dst src i e h =
    ap (λ xs. write_cells dst.cell 0 xs i)
      (ap (λ n. take n (slice src.cell 0 src.len))
          (ap₂ min e (length-slice src.cell 0 src.len) ∙ min_same src.len)
        ∙ take_all src.len src.cell 0)
    ∙ cells_copied dst.cell src.cell 0 src.len i (omega arith) (omega arith)
  where
    min_same : (n : ℕ) → min n n ≡ n
    min_same n = ground arith

put_vram-cell :
    (w : Bytes) (m : MemoryMap) (i v : ℕ)
    → (0x01B0_0000 ≤ i → i < 0x01C0_0000 → w.cell (i - 0x01B0_0000) ≡ v)
    → m.unified.cell i ≡ v
    → (put_vram w m).unified.cell i ≡ v
unfolding put_vram
put_vram-cell w m i v h k = elim (Bool-cases (leb 0x01B0_0000 i && ltb i 0x01C0_0000)) [
  | inl e ↦ rw e (h (ground arith) (ground arith))
  | inr e ↦ rw e k
]

vram_view-cell :
    (m : MemoryMap) (i : ℕ)
    → 0x01B0_0000 ≤ i
    → (vram_view m).cell (i - 0x01B0_0000) ≡ m.unified.cell i
unfolding vram_view
vram_view-cell m i h = ap m.unified.cell (omega arith)

vram_view-len : (m : MemoryMap) → (vram_view m).len ≡ 0x10_0000
unfolding vram_view
vram_view-len m = refl

ram_restored :
    (m m' : MemoryMap) (i : ℕ)
    → IsValid m
    → IsValid m'
    → i < 0x01C0_0000
    → (restored_mem m m').unified.cell i ≡ m.unified.cell i
ram_restored m m' i v v' h =
    let m1 = record m' { unified = load_mem_region m'.unified (save_mem_region m.unified) } in
    put_vram-cell (load_mem_region (vram_view m1) (save_mem_region (vram_view m))) m1 i
      (m.unified.cell i)
      (λ h1 h2.
        copied_whole (vram_view m1) (vram_view m) (i - 0x01B0_0000)
          (vram_view-len m1 ∙ sym (vram_view-len m)) (rw (vram_view-len m) (omega arith))
        ∙ vram_view-cell m i h1)
      (copied_whole m'.unified m.unified i (v'.unified_len ∙ sym v.unified_len)
        (rw v.unified_len h))

-- What `t` has of the state that `hw` was saved with.
pub record SavedState (hw t : Hardware) : Type 0 where
  pub d : (i : ℕ) → i < 8 → t.coldfire.regs.d i ≡ hw.coldfire.regs.d i
  pub a : (i : ℕ) → i < 8 → t.coldfire.regs.a i ≡ hw.coldfire.regs.a i
  pub cf_pc : t.coldfire.regs.pc ≡ hw.coldfire.regs.pc
  pub cf_sr : t.coldfire.regs.sr ≡ hw.coldfire.regs.sr
  pub cf_halt : t.coldfire.halt ≡ hw.coldfire.halt
  pub gpr : (i : ℕ) → i < 32 → t.ppc.regs.gpr i ≡ hw.ppc.regs.gpr i
  pub ppc_pc : t.ppc.regs.pc ≡ hw.ppc.regs.pc
  pub ppc_msr : t.ppc.regs.msr ≡ hw.ppc.regs.msr
  pub ppc_halt : t.ppc.halt ≡ hw.ppc.halt
  pub ram : (i : ℕ) → i < 0x01C0_0000 → t.bus.mem.unified.cell i ≡ hw.bus.mem.unified.cell i
  pub gpu_regs : (i : ℕ) → i < 256 → t.bus.gpu.regs i ≡ hw.bus.gpu.regs i
  pub frame_count : t.bus.gpu.frame_count ≡ hw.bus.gpu.frame_count
  pub cdrom_regs : (i : ℕ) → i < 64 → t.bus.cdrom.regs i ≡ hw.bus.cdrom.regs i
  pub cdrom_state : t.bus.cdrom.state ≡ hw.bus.cdrom.state
  pub dma_regs : (i : ℕ) → i < 16 → t.bus.dma.regs i ≡ hw.bus.dma.regs i
  pub mailbox_status : t.bus.mailbox_status ≡ hw.bus.mailbox_status

-- A machine whose machine words are in their ranges, saved and loaded into another machine with the
-- same sizes of memory: the load succeeds, and the RAM, the registers of both processors, of the GPU,
-- the drive and the DMA controller, and the mailbox are those that were saved.
pub load_state-save_state-restored :
    (hw hw' : Hardware)
    → InRange hw
    → IsValid hw'.bus.mem
    → (load_state (save_state hw) hw' ≡ value (restored hw hw', ok tt))
      × SavedState hw (restored hw hw')
load_state-save_state-restored hw hw' r v = (
  load_state-save_state hw hw' r.mem ∙ load_all hw hw' r,
  record {
    d = λ i h. filled_lem 8 0 hw.coldfire.regs.d hw'.coldfire.regs.d i (omega arith) (omega arith);
    a = λ i h. filled_lem 8 0 hw.coldfire.regs.a hw'.coldfire.regs.a i (omega arith) (omega arith);
    cf_pc = refl;
    cf_sr = refl;
    cf_halt = refl;
    gpr = λ i h. filled_lem 32 0 hw.ppc.regs.gpr hw'.ppc.regs.gpr i (omega arith) (omega arith);
    ppc_pc = refl;
    ppc_msr = refl;
    ppc_halt = refl;
    ram = λ i h. ram_restored hw.bus.mem hw'.bus.mem i r.mem v h;
    gpu_regs =
        λ i h. filled_lem 256 0 hw.bus.gpu.regs hw'.bus.gpu.regs i (omega arith) (omega arith);
    frame_count = refl;
    cdrom_regs =
        λ i h. filled_lem 64 0 hw.bus.cdrom.regs hw'.bus.cdrom.regs i (omega arith) (omega arith);
    cdrom_state = refl;
    dma_regs =
        λ i h. filled_lem 16 0 hw.bus.dma.regs hw'.bus.dma.regs i (omega arith) (omega arith);
    mailbox_status = refl;
  },
)
