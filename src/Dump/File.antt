-- ===== src/Dump/File.antt =====
-- src/tbm_surface_internal.c: the files of a dump.
use libtbm.Base.{
  ℕ, zero, suc, Bool, true, not, ◌&&◌, ◌+◌, ◌*◌, ◌/◌, ◌%◌, ◌^◌, List, [], ◌∷◌, ◌++◌, if◌then◌else◌,
  is_positive,
}
use libtbm.Dump.State.{FileName, File, png_file, raw_file, Media}

-- One `fwrite`: always for the first block, else where the size is positive.
abbrev pub block : (data_ptr size : ℕ) → List (ℕ × ℕ)
block data_ptr size = if is_positive size then (data_ptr, size) ∷ [] else []

-- `_tbm_surface_internal_dump_file_raw`
unfoldable pub dump_file_raw :
    Media
    → (dir : List ℕ) → FileName
    → (data1 size1 data2 size2 data3 size3 : ℕ) → List File
    → List File
dump_file_raw e dir file data1 size1 data2 size2 data3 size3 files =
    if e.fopen_succeeds dir file
    then raw_file dir file ((data1, size1) ∷ (block data2 size2 ++ block data3 size3)) ∷ files
    else files

-- The four bytes of a pixel.
abbrev pub pixel : (word : ℕ) → List ℕ
pixel word = word % 256 ∷ word / 2 ^ 8 % 256 ∷ word / 2 ^ 16 % 256 ∷ word / 2 ^ 24 % 256 ∷ []

-- The bytes of `n` pixels, from the word `i` on.
unfoldable pub png_row : (words : ℕ → ℕ) → (i n : ℕ) → List ℕ
png_row words i zero = []
png_row words i (suc n) = pixel (words i) ++ png_row words (i + 1) n

-- `n` rows from the row `y` on.
unfoldable pub png_rows : (words : ℕ → ℕ) → (width y n : ℕ) → List (List ℕ)
png_rows words width y zero = []
png_rows words width y (suc n) = png_row words (y * width) width ∷ png_rows words width (y + 1) n

-- Whether there is memory for `n` rows, from the row `y` on.
unfoldable pub rows_fit : Media → (y n : ℕ) → Bool
rows_fit e y zero = true
rows_fit e y (suc n) = let rest = rows_fit e (y + 1) n in e.malloc_row y && rest

-- `_tbm_surface_internal_dump_file_png`; a file that is opened is closed on every path, and has no
-- rows where libpng gives no memory.
unfoldable pub dump_file_png :
    Media → (dir : List ℕ) → FileName → (data_ptr width height : ℕ) → List File → List File
dump_file_png e dir file data_ptr width height files =
    if not (e.fopen_succeeds dir file)
    then files
    else if e.write_struct && (e.info_struct && (e.malloc_rows && rows_fit e 0 height))
    then png_file dir file (png_rows (e.words data_ptr) width 0 height) ∷ files
    else png_file dir file [] ∷ files
