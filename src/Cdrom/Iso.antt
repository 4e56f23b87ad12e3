-- ===== src/Cdrom/Iso.antt =====
-- src/cdrom.rs: the ISO9660 file system. A text is the list of its UTF-8 bytes. A `Run` ends in
-- `panic` where the source indexes past the end of a buffer; the loop over the directory takes
-- fuel.
use monte_lauro_ml_cd32_ppc.Base.{
  ℕ, zero, suc, ◌+◌, ◌-◌, ◌*◌, ◌/◌, ◌^◌, min, Bool, true, false, not, Option, none, some, List, [],
  ◌∷◌, ◌++◌, if◌then◌else◌, ltb, leb, ◌==◌, ◌&&◌, ◌||◌, Bytes, slice, u32, test_bit, length, take,
}
use monte_lauro_ml_cd32_ppc.Base.Run.{Run, value, panic, out_of_fuel, ◌>>=◌, map_run}
use monte_lauro_ml_cd32_ppc.Cdrom.{CdromDrive, sector_size, pvd_lba, read_sector}

pub record IsoFile : Type 0 where
  pub name : List ℕ
  pub lba : ℕ
  pub size : ℕ
  pub is_dir : Bool

-- the cell of a list, 0 past its end
abbrev cell_of : List ℕ → ℕ → ℕ
cell_of [] i = 0
cell_of (x ∷ xs) zero = x
cell_of (x ∷ xs) (suc i) = cell_of xs i

abbrev pub of_list : List ℕ → Bytes
of_list l = record { len = length l; cell = cell_of l }

-- `read_le32`, for an offset that leaves room for the four bytes
abbrev read_le32 : Bytes → ℕ → ℕ
read_le32 b off =
    b.cell off + b.cell (off + 1) * 256 + b.cell (off + 2) * 2 ^ 16 + b.cell (off + 3) * 2 ^ 24

-- `String::from_utf8_lossy`: a sequence that is not well formed becomes U+FFFD.
abbrev replacement : List ℕ
replacement = 0xEF ∷ 0xBF ∷ 0xBD ∷ []

-- Between two sequences, or inside one: the bytes so far, the range of the next byte, and how
-- many bytes are to come after it.
pub data Utf8 : Type 0 where
  between : Utf8
  inside : List ℕ → ℕ → ℕ → ℕ → Utf8

abbrev within : ℕ → ℕ → ℕ → Bool
within lo hi b = leb lo b && leb b hi

-- a byte that begins a sequence
unfoldable utf8_begin : ℕ → Utf8 × List ℕ
utf8_begin b =
    if ltb b 0x80
    then (between, b ∷ [])
    else if within 0xC2 0xDF b
    then (inside (b ∷ []) 0x80 0xBF 0, [])
    else if b == 0xE0
    then (inside (b ∷ []) 0xA0 0xBF 1, [])
    else if b == 0xED
    then (inside (b ∷ []) 0x80 0x9F 1, [])
    else if within 0xE1 0xEF b
    then (inside (b ∷ []) 0x80 0xBF 1, [])
    else if b == 0xF0
    then (inside (b ∷ []) 0x90 0xBF 2, [])
    else if within 0xF1 0xF3 b
    then (inside (b ∷ []) 0x80 0xBF 2, [])
    else if b == 0xF4
    then (inside (b ∷ []) 0x80 0x8F 2, [])
    else (between, replacement)

-- a byte in the range that the sequence wants
unfoldable utf8_more : List ℕ → ℕ → ℕ → Utf8 × List ℕ
utf8_more seen zero b = (between, seen ++ (b ∷ []))
utf8_more seen (suc left) b = (inside (seen ++ (b ∷ [])) 0x80 0xBF left, [])

unfoldable utf8_step : Utf8 → ℕ → Utf8 × List ℕ
unfolding utf8_begin utf8_more
utf8_step between b = utf8_begin b
utf8_step (inside seen lo hi left) b =
    if within lo hi b
    then utf8_more seen left b
    else let (s, out) = utf8_begin b in (s, replacement ++ out)

unfoldable utf8_from : Utf8 → List ℕ → List ℕ
unfolding utf8_step
utf8_from between [] = []
utf8_from (inside seen lo hi left) [] = replacement
utf8_from between (b ∷ bs) = let (s, out) = utf8_step between b in out ++ utf8_from s bs
utf8_from (inside seen lo hi left) (b ∷ bs) =
    let (s, out) = utf8_step (inside seen lo hi left) b in out ++ utf8_from s bs

unfoldable pub from_utf8_lossy : List ℕ → List ℕ
unfolding utf8_from
from_utf8_lossy bs = utf8_from between bs

abbrev is_nil : List ℕ → Bool
is_nil [] = true
is_nil (_ ∷ _) = false

-- `trim_end_matches(c)`
unfoldable pub trim_end_matches : ℕ → List ℕ → List ℕ
trim_end_matches c [] = []
trim_end_matches c (x ∷ xs) =
    let rest = trim_end_matches c xs in if is_nil rest && x == c then [] else x ∷ rest

unfoldable trim_start_matches : ℕ → List ℕ → List ℕ
trim_start_matches c [] = []
trim_start_matches c (x ∷ xs) = if x == c then trim_start_matches c xs else x ∷ xs

-- `split(c).collect()`, which is never empty
unfoldable pub split : ℕ → List ℕ → List (List ℕ)
split c [] = [] ∷ []
split c (x ∷ xs) = if x == c then [] ∷ split c xs else push_first x (split c xs)
  where
    push_first : ℕ → List (List ℕ) → List (List ℕ)
    push_first x [] = (x ∷ []) ∷ []
    push_first x (p ∷ ps) = (x ∷ p) ∷ ps

abbrev to_lower : ℕ → ℕ
to_lower c = if within b'A' b'Z' c then c + 32 else c

unfoldable pub eq_ignore_ascii_case : List ℕ → List ℕ → Bool
eq_ignore_ascii_case [] [] = true
eq_ignore_ascii_case [] (y ∷ ys) = false
eq_ignore_ascii_case (x ∷ xs) [] = false
eq_ignore_ascii_case (x ∷ xs) (y ∷ ys) = to_lower x == to_lower y && eq_ignore_ascii_case xs ys

-- the sectors of a directory, those that cannot be read left out
unfoldable pub gather : CdromDrive → ℕ → ℕ → List ℕ
gather d lba zero = []
gather d lba (suc n) = append (read_sector d lba) (gather d (u32 (lba + 1)) n)
  where
    append : Option (List ℕ) → List ℕ → List ℕ
    append none rest = rest
    append (some s) rest = s ++ rest

abbrev pub sectors_for : ℕ → ℕ
sectors_for size = (size + sector_size - 1) / sector_size

-- What one record of a directory gives, for a record that fits in the buffer.
unfoldable pub entry_at : Bytes → ℕ → Run (Option IsoFile)
entry_at buf off =
    let name_len = buf.cell (off + 32) in
    let first = buf.cell (off + 33) in
    if name_len == 0
    then value none
    else if name_len == 1 && (first == 0 || first == 1)
    then value none
    else if ltb buf.len (off + 33 + name_len)
    then panic
    else value (
        some (record {
          name = trim_end_matches b';' (from_utf8_lossy (slice buf.cell (off + 33) name_len));
          lba = read_le32 buf (off + 2);
          size = read_le32 buf (off + 10);
          is_dir = test_bit 1 (buf.cell (off + 25));
        }))

abbrev cons_some : Option IsoFile → List IsoFile → List IsoFile
cons_some none fs = fs
cons_some (some f) fs = f ∷ fs

-- The loop of `read_dir_entries`, from `off` on.
unfoldable pub scan_entries : ℕ → Bytes → ℕ → Run (List IsoFile)
scan_entries zero buf off = out_of_fuel
scan_entries (suc fuel) buf off =
    let rec_len = buf.cell off in
    let more =
      entry_at buf off >>= λ e. map_run (cons_some e) (scan_entries fuel buf (off + rec_len)) in
    if ltb (off + 1) buf.len && not (rec_len == 0)
    then if ltb rec_len 34 || ltb buf.len (off + rec_len) then value [] else more
    else value []

-- A record has at least 34 bytes, so the length of the buffer is fuel enough.
unfoldable pub read_dir_entries : CdromDrive → ℕ → ℕ → Run (List IsoFile)
unfolding scan_entries gather
read_dir_entries d lba size =
    let buf = of_list (gather d lba (sectors_for size)) in scan_entries (suc buf.len) buf 0

unfoldable pub list_root : CdromDrive → Run (List IsoFile)
list_root d = if d.fs_ready then read_dir_entries d d.root_lba d.root_size else value []

-- `mount`, given the volume descriptor
unfoldable mount_with : Option (List ℕ) → CdromDrive → CdromDrive × Bool
mount_with none d = (d, false)
mount_with (some s) d =
    let pvd = of_list s in
    if pvd.cell 0 == 1
    then (
      record d {
        root_lba = read_le32 pvd (156 + 2);
        root_size = read_le32 pvd (156 + 10);
        fs_ready = true;
      },
      true,
    )
    else (d, false)

unfoldable pub mount : CdromDrive → CdromDrive × Bool
unfolding mount_with
mount d = mount_with (read_sector d pvd_lba) d

-- `entries.iter().find(..)`
unfoldable find_entry : List ℕ → List IsoFile → Option IsoFile
find_entry part [] = none
find_entry part (f ∷ fs) = if eq_ignore_ascii_case f.name part then some f else find_entry part fs

-- The loop of `find_file` over the parts of the path.
unfoldable walk : CdromDrive → ℕ → ℕ → List (List ℕ) → Run (Option IsoFile)
walk d lba size [] = value none
walk d lba size (p ∷ []) = map_run (find_entry p) (read_dir_entries d lba size)
walk d lba size (p ∷ q ∷ ps) = read_dir_entries d lba size >>= λ entries.
    elim (find_entry p entries) [
      | none ↦ value none
      | some f ↦ if f.is_dir then walk d f.lba f.size (q ∷ ps) else value none
    ]

unfoldable find_file : CdromDrive → List ℕ → Run (Option IsoFile)
unfolding trim_start_matches trim_end_matches split
find_file d path =
    let parts = split b'/' (trim_end_matches b'/' (trim_start_matches b'/' path)) in
    if d.fs_ready then find_in d parts else value none
  where
    find_in : CdromDrive → List (List ℕ) → Run (Option IsoFile)
    find_in d ([] ∷ []) = value none
    find_in d parts = walk d d.root_lba d.root_size parts

-- The loop of `read_file` from sector `i` on, with `n` sectors to come: the buffer, and whether
-- every sector could be read.
unfoldable pub read_sectors : CdromDrive → IsoFile → ℕ → ℕ → List ℕ → List ℕ × Bool
read_sectors d file zero i buf = (buf, true)
read_sectors d file (suc n) i buf = elim (read_sector d (u32 (file.lba + i))) [
  | none ↦ (buf, false)
  | some sector ↦
      let end = min file.size (length buf + sector_size) - length buf in
      read_sectors d file n (i + 1) (buf ++ take (min end sector_size) sector)
]

-- what `read_file` leaves in the buffer, and what it returns
unfoldable pub read_file : CdromDrive → IsoFile → List ℕ × Bool
unfolding read_sectors
read_file d file =
    let (buf, done) = read_sectors d file (sectors_for file.size) 0 [] in
    (if done then take file.size buf else buf, done)
