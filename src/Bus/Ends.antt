-- ===== src/Bus/Ends.antt =====
-- The writes of the bus come to an end: what makes it a bus for a processor that does.
use monte_lauro_ml_cd32_ppc.Base.{ℕ, true, false, Bool, ◌≢◌}
use monte_lauro_ml_cd32_ppc.Base.Run.{out_of_fuel, map_run-ends}
use monte_lauro_ml_cd32_ppc.Memory.{MemRegion, cold_fire_local, cdrom_regs, region}
use monte_lauro_ml_cd32_ppc.Cdrom.Ends as CdEnds
use monte_lauro_ml_cd32_ppc.Bus.{Bus}
use monte_lauro_ml_cd32_ppc.Bus.Access.{
  write_byte, write_byte_in, write_half, write_half_in, write_word, write_word_in,
}
use monte_lauro_ml_cd32_ppc.Bus.Interface.{bus_interface, WritesEnd}

write_byte_in-ends :
    (m : MemRegion) (addr val : ℕ) (b : Bus) → write_byte_in m addr val b ≢ out_of_fuel
unfolding write_byte_in
write_byte_in-ends cdrom_regs addr val b =
    map_run-ends _ _ (CdEnds.write_byte-ends addr val b.cdrom)
write_byte_in-ends _ addr val b = λ h. cc

write_half_in-ends :
    (m : MemRegion) (addr val : ℕ) (b : Bus) → write_half_in m addr val b ≢ out_of_fuel
unfolding write_half_in
write_half_in-ends cdrom_regs addr val b =
    map_run-ends _ _ (CdEnds.write_half-ends addr val b.cdrom)
write_half_in-ends _ addr val b = λ h. cc

write_word_in-ends :
    (allow : Bool) (m : MemRegion) (addr val : ℕ) (b : Bus)
    → write_word_in allow m addr val b ≢ out_of_fuel
unfolding write_word_in
write_word_in-ends allow cdrom_regs addr val b =
    map_run-ends _ _ (CdEnds.write_word-ends addr val b.cdrom)
write_word_in-ends true cold_fire_local addr val b = λ h. cc
write_word_in-ends false cold_fire_local addr val b = λ h. cc
write_word_in-ends allow _ addr val b = λ h. cc

pub bus_interface-WritesEnd : (allow : Bool) → WritesEnd (bus_interface allow)
unfolding write_byte write_half write_word
bus_interface-WritesEnd allow = record {
  byte = λ addr val b. write_byte_in-ends (region addr) addr val b;
  half = λ addr val b. write_half_in-ends (region addr) addr val b;
  word = λ addr val b. write_word_in-ends allow (region addr) addr val b;
}
