-- ===== src/Header.antt =====
-- quorin/shm.py: the 16 bytes at the start of a segment, as `SegmentRegistry.create` writes them and
-- `_verify_header` reads them, and the bytes that `create` leaves for `open_current`.
pub mod RoundTrip
mod Tests
use quorin.Base.{ℕ, ◌+◌, not, List, [], ◌∷◌, ◌++◌, ◌==◌, bytes_eq}
use quorin.Result.{Result, ok, err, schema_crc_mismatch, ◌>>=◌, ◌>>◌, raise_if}
use quorin.Memory.{Memory, read_bytes, write_bytes, le_bytes, read_u32}
use quorin.Schema.{FeatureField}
use quorin.Schema.Offsets.{OffsetRow}
use quorin.Schema.Table.{compile_schema}
use quorin.Layout.{
  SegmentLayout, compute_layout, compute_layout_from_segment, initialize_segment_regions,
}

-- b"PYFG"
abbrev pub magic : List ℕ
magic = b'P' ∷ b'Y' ∷ b'F' ∷ b'G' ∷ []

-- `struct.pack(HEADER_FMT, MAGIC, version, crc, capacity)`
unfoldable pub pack_header : ℕ → ℕ → ℕ → List ℕ
pack_header version crc capacity =
    magic ++ (le_bytes 4 version ++ (le_bytes 4 crc ++ le_bytes 4 capacity))

-- `hash` is `_hash_name`, and `crc` is `crc32_of_bytes` of the bytes of a table.
module _ (hash : List ℕ → ℕ) (crc : List OffsetRow → ℕ) (version : ℕ)
    (fields : List FeatureField) where
  -- The bytes of a new segment `buf` when `create` publishes it, and its layout
  unfoldable pub create : Memory → ℕ → ℕ → Result (Memory × SegmentLayout)
  create buf capacity max_id_bytes = do
    layout ← compute_layout hash fields capacity max_id_bytes
    table ← compile_schema hash fields
    let headed = write_bytes buf 0 (pack_header version (crc table) capacity)
    ok (initialize_segment_regions headed layout, layout)

  unfoldable pub verify_header : Memory → Result (Unit {0})
  verify_header buf = do
    raise_if (not (bytes_eq (read_bytes buf 0 4) magic)) schema_crc_mismatch
    raise_if (not (read_u32 buf 4 == version)) schema_crc_mismatch
    table ← compile_schema hash fields
    raise_if (not (read_u32 buf 8 == crc table)) schema_crc_mismatch

  -- What `open_current` does with the bytes of the segment
  unfoldable pub open_segment : Memory → Result SegmentLayout
  open_segment buf = do verify_header buf; compute_layout_from_segment hash fields buf
