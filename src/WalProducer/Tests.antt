-- ===== src/WalProducer/Tests.antt =====
-- The theorems on a producer at a schema with a vector and a counter. The consumer marks the message as
-- processed before the third round.
use mathlib.Core.List.{Perm}
use quorin.Base.{
  ℕ, zero, suc, ◌+◌, ◌*◌, ◌≤◌, ◌≡◌, refl, arith, Bool, none, some, List, [], ◌∷◌, map, ◌==◌,
}
use quorin.Result.{Result, ok}
use quorin.Schema.Offsets.{OffsetRow, fill_table, field_row, field_byte_offsets}
use quorin.Schema.Table.{compile_schema, sort_table, insert_row}
use quorin.Align.{align_up}
use quorin.Memory.{from_le}
use quorin.Schema.{dtype_code, dtype_byte_size, element_count, byte_count}
use quorin.Layout.Tests.{toy_hash, two_fields}
use quorin.WalProducer.{
  Stream, Entry, Producer, SchemaClass, backoff, write_sync, do_write, write_packed, packed_values,
  add_entry, written, encoded_schema_name, field_order_for, order_of, named, hash_to_name,
}
use quorin.WalProducer.Order.{field_order_for_lem}
use quorin.WalProducer.Polling.{Sleeps, Outcome, write_sync-Outcome}

abbrev two_compiled : List OffsetRow
two_compiled =
    record { name_hash = 110; byte_offset = 128; dtype_code = 4; element_count = 1; byte_count = 8 }
    ∷ record {
      name_hash = 118;
      byte_offset = 64;
      dtype_code = 1;
      element_count = 3;
      byte_count = 12;
    }
    ∷ []

compiled_ok : compile_schema toy_hash two_fields ≡ ok two_compiled
unfolding compile_schema sort_table insert_row fill_table field_row field_byte_offsets from_le
    align_up dtype_code element_count byte_count dtype_byte_size
compiled_ok = refl

field_order_for_lem_example :
    (order : List (List ℕ)) × (field_order_for toy_hash two_fields ≡ ok order)
    × (map toy_hash order ≡ map (λ (r : OffsetRow). r.name_hash) two_compiled)
    × Perm order ((b'v' ∷ []) ∷ (b'n' ∷ []) ∷ [])
field_order_for_lem_example = field_order_for_lem toy_hash two_fields two_compiled compiled_ok

abbrev two_class : SchemaClass
two_class = record {
  identity = 7;
  schema = record { name = b'T' ∷ []; version = 1; fields = two_fields };
}

abbrev validate : ℕ → ℕ → Result (List ℕ → ℕ)
validate c values = ok (λ name. values)

abbrev pack : List ℕ → List ℕ
pack values = values

abbrev xadd : Stream → Entry → Result (ℕ × Stream)
xadd s e = ok (5, (5, e) ∷ s)

abbrev fresh : Producer
fresh = record { stream = []; schema_name_cache = λ c. none }

abbrev exists : ℕ → Bool
exists k = k == 2

abbrev clock : ℕ → ℕ
clock k = k * 10000

backoff_le : (k : ℕ) → backoff k ≤ 10000
unfolding backoff
backoff_le zero = omega arith
backoff_le (suc k) = omega arith

clock-Sleeps : Sleeps clock
clock-Sleeps k = omega (arith, backoff_le k)

abbrev after : Producer
after = (do_write toy_hash ℕ ℕ validate pack xadd fresh two_class (b'a' ∷ []) 3 0).0

sent : do_write toy_hash ℕ ℕ validate pack xadd fresh two_class (b'a' ∷ []) 3 0 ≡ (after, ok 5)
unfolding do_write write_packed packed_values add_entry written encoded_schema_name field_order_for
    order_of named hash_to_name compile_schema sort_table insert_row fill_table field_row
    field_byte_offsets from_le align_up dtype_code element_count byte_count dtype_byte_size
sent = refl

write_sync-Outcome_example :
    Outcome
      (λ k. some (exists k))
      clock
      (0 + 100 * 1000)
      5
      0
      100
      (write_sync toy_hash ℕ ℕ validate pack xadd
        (λ k. some (exists k))
        clock
        0
        100
        101
        fresh
        two_class
        (b'a' ∷ [])
        3
        0).1
write_sync-Outcome_example =
    write_sync-Outcome toy_hash ℕ ℕ validate pack xadd (λ k. some (exists k)) clock 0 100 fresh
      after two_class (b'a' ∷ []) 3 0 5 sent clock-Sleeps (omega arith)
