-- ===== src/Dump/State.antt =====
-- src/tbm_surface_internal.c: the data of a dump.
use libtbm.Base.{ℕ, Bool, List, Option}
use libtbm.Surface.State.{Surface, Surfaces}

-- What is copied to a place in a buffer object: `len` bytes from the address `from`.
pub record Span : Type 0 where
  pub at : ℕ
  pub from : ℕ
  pub len : ℕ

-- The names of files; the time in them is left out. `captured` is a name with its postfix, and
-- `uninitialised` an array that nothing was written to.
pub data FileName : Type 0 where
  no_name uninitialised : FileName
  picture : (count surface : ℕ) → (kind : List ℕ) → FileName
  raw : (count : ℕ) → (kind : List ℕ) → (stride height format : ℕ) → FileName
  shm_picture : (count : ℕ) → (kind : List ℕ) → FileName
  captured : (name postfix : List ℕ) → FileName

-- `tbm_surface_dump_buf_info`, with what the memory of its buffer object holds since it was last
-- filled with zeros. `surface` is its `info`, and `none` for one filled with zeros.
pub record DumpBuf : Type 0 where
  pub index : ℕ
  pub bo : ℕ
  pub size : ℕ
  pub dirty : Bool
  pub dirty_shm : Bool
  pub shm_stride : ℕ
  pub shm_h : ℕ
  pub name : FileName
  pub surface : Option Surface
  pub contents : List Span

-- `tbm_surface_dump_info`. `link` is 0 for the head of `surface_list`, and else the number of its
-- node there, from 1 on.
pub record DumpInfo : Type 0 where
  pub path : List ℕ
  pub dump_max : ℕ
  pub count : ℕ
  pub link : ℕ
  pub surface_list : List DumpBuf

-- A file that was written: its directory and name, with the rows of the picture, or with the bytes
-- from some addresses.
pub data File : Type 0 where
  png_file : (dir : List ℕ) → FileName → (rows : List (List ℕ)) → File
  raw_file : (dir : List ℕ) → FileName → (blocks : List (ℕ × ℕ)) → File

-- `g_dump_info`, the surfaces, and the files, the newest first.
pub record Dump : Type 0 where
  pub dump_info : Option DumpInfo
  pub surfaces : Surfaces
  pub files : List File

-- The file system, libpng and the memory. `words` are the 32-bit words that stand at an address.
pub record Media : Type 0 where
  pub calloc_info : Bool
  pub calloc_buf : ℕ → Bool
  pub fopen_succeeds : List ℕ → FileName → Bool
  pub file_exists : List ℕ → FileName → Bool
  pub write_struct : Bool
  pub info_struct : Bool
  pub malloc_rows : Bool
  pub malloc_row : ℕ → Bool
  pub words : ℕ → ℕ → ℕ
