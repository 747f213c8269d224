-- ===== src/Header/Tests.antt =====
-- The bytes that `create` leaves for a schema of version 3, read back and read by version 4.
use quorin.Base.{ℕ, ◌≡◌, refl, arith, List, [], ◌∷◌}
use quorin.Result.{ok, err, schema_crc_mismatch}
use quorin.Align.{align_up}
use quorin.Memory.{Memory, write_bytes, from_le}
use quorin.Schema.{dtype_code, dtype_byte_size, element_count, byte_count}
use quorin.Schema.Offsets.{OffsetRow, field_byte_offsets, field_row, fill_table}
use quorin.Schema.Table.{compile_schema, sort_table, insert_row}
use quorin.Layout.{initialize_segment_regions}
use quorin.Layout.Tests.{toy_hash, two_fields, small, small_ok}
use quorin.Header.{pack_header, create, open_segment}
use quorin.Header.RoundTrip.{open_segment-create, open_segment-refused}

-- A stand-in for the checksum
abbrev one_crc : List OffsetRow → ℕ
one_crc t = 1

abbrev any_bytes : Memory
any_bytes a = 7

abbrev two_compiled : List OffsetRow
two_compiled =
    record { name_hash = 110; byte_offset = 128; dtype_code = 4; element_count = 1; byte_count = 8 }
    ∷ record {
      name_hash = 118;
      byte_offset = 64;
      dtype_code = 1;
      element_count = 3;
      byte_count = 12;
    }
    ∷ []

compiled_ok : compile_schema toy_hash two_fields ≡ ok two_compiled
unfolding compile_schema sort_table insert_row fill_table field_row field_byte_offsets from_le
    align_up dtype_code element_count byte_count dtype_byte_size
compiled_ok = refl

abbrev published : Memory
published = initialize_segment_regions (write_bytes any_bytes 0 (pack_header 3 1 2)) small

published_ok : create toy_hash one_crc 3 two_fields any_bytes 2 8 ≡ ok (published, small)
unfolding create
published_ok = rw (small_ok, compiled_ok) refl

open_segment-create_example : open_segment toy_hash one_crc 3 two_fields published ≡ ok small
open_segment-create_example =
    open_segment-create toy_hash one_crc 3 two_fields (λ t. omega arith) (omega arith) any_bytes 2 8
      published small published_ok

open_segment-refused_example :
    open_segment toy_hash one_crc 4 [] published ≡ err schema_crc_mismatch
open_segment-refused_example =
    open_segment-refused toy_hash one_crc 3 two_fields (λ t. omega arith) (omega arith) any_bytes 2
      8 published small published_ok 4 (omega arith) one_crc []
