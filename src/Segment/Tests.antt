-- ===== src/Segment/Tests.antt =====
-- The theorems on segments at a new segment for two entities, and at the one after its first insert.
use quorin.Base.{
  contains, map, ltb, ◌==◌, ◌&&◌, ℕ, ◌+◌, ◌≤◌, ◌<◌, ◌≡◌, refl, ◌∙◌, ap, List, [], ◌∷◌, length,
  replicate, none, some, true, false, arith, take, leb, bytes_ne, inl, inr, if◌then◌else◌, ◌⊎◌,
}
use quorin.Result.{ok, err, capacity_exceeded, string_pool_exhausted}
use quorin.Align.{next_pow2, bit_length}
use quorin.Memory.{Memory, write_bytes}
use quorin.Layout.{derive_layout, initialize_segment_regions}
use quorin.Layout.Regions.{IsLayout, SlotsPow2, compute_layout-IsLayout}
use quorin.Layout.Tests.{toy_hash, toy_hash_u64, two_fields, small, small_ok}
use quorin.Segment.{
  empty, occupied, row_offset, apply_writes, insert_writes, lookup, insert, iterate_occupied,
}
use quorin.Segment.Slots.{flags_at, next_row, pool_cursor, IsSegment}
use quorin.Segment.Probing.{Absent}
use quorin.Segment.View.{Holds, lookup_view, lookup_lem, none-Absent}
use quorin.Segment.Crash.{insert_crash_safe}
use quorin.Segment.Insert.New.{Inserted, insert-Inserted, insert_full}
use quorin.Segment.Insert.Success.{Stored, insert-Stored}
use quorin.Segment.Insert.Update.{Updated, insert-Updated}
use quorin.Segment.Iterate.{used_slots, entity, iterate_occupied_lem}
use quorin.Segment.Fresh.{
  ZeroTable, fresh-ZeroTable, fresh_metadata, no_used, zero_flags,
  initialize_segment_regions-IsSegment,
}

abbrev pub zeroed : Memory
zeroed a = 0

abbrev pub started : Memory
started = initialize_segment_regions zeroed small

small-IsLayout : IsLayout small × SlotsPow2 small
small-IsLayout = compute_layout-IsLayout toy_hash two_fields 2 8 small small_ok

zeroed-ZeroTable : ZeroTable small zeroed
zeroed-ZeroTable a lo hi = refl

initialize_segment_regions-IsSegment_example :
    IsSegment toy_hash started small
    × ((c : ℕ) (cs : List ℕ) → lookup toy_hash started small (c ∷ cs) ≡ ok none)
initialize_segment_regions-IsSegment_example =
    initialize_segment_regions-IsSegment toy_hash small (small-IsLayout.0) (small-IsLayout.1) zeroed
      zeroed-ZeroTable

pub started-IsSegment : IsSegment toy_hash started small
started-IsSegment =
    (initialize_segment_regions-IsSegment toy_hash small (small-IsLayout.0) (small-IsLayout.1)
      zeroed zeroed-ZeroTable).0

started_vacant : (i : ℕ) → i < small.slot_capacity → flags_at started small i ≡ empty
started_vacant =
    zero_flags small (small-IsLayout.0) started
      (fresh-ZeroTable small (small-IsLayout.0) zeroed zeroed-ZeroTable)

started-Absent : (id : List ℕ) → Absent toy_hash started-IsSegment id
started-Absent id i lt on = absurd (
    no_used small (small-IsLayout.0) started
      (fresh-ZeroTable small (small-IsLayout.0) zeroed zeroed-ZeroTable) i lt on)

slot_one : 1 < small.slot_capacity
unfolding derive_layout next_pow2 bit_length
slot_one = omega arith

abbrev pub user : List ℕ
user = b'u' ∷ b'1' ∷ []

abbrev pub other : List ℕ
other = b'u' ∷ b'2' ∷ []

abbrev third : List ℕ
third = b'u' ∷ b'3' ∷ []

abbrev pub zero_row : List ℕ
zero_row = replicate 128 0

zero_row_sized : length zero_row ≡ small.row_size
unfolding derive_layout
zero_row_sized = refl

short_id : 2 ≤ small.max_id_bytes
unfolding derive_layout
short_id = omega arith

pool_room : small.string_pool_data_bytes ≡ 24
unfolding derive_layout
pool_room = refl

two_rows_room : small.capacity ≡ 2
unfolding derive_layout
two_rows_room = refl

pub started_next : next_row started ≡ 0
started_next = ap (λ (t : ℕ × ℕ). t.0) (fresh_metadata small (small-IsLayout.0) zeroed)

pub started_cursor : pool_cursor started ≡ 0
started_cursor = ap (λ (t : ℕ × ℕ). t.1) (fresh_metadata small (small-IsLayout.0) zeroed)

abbrev pub Insertion : Memory → List ℕ → Type 0
Insertion buf id =
    (buf' : Memory) × (insert toy_hash buf small id zero_row ≡ ok (true, buf'))
    × Inserted toy_hash small buf id zero_row buf'

insert-Inserted_example :
    (buf' : Memory) × (insert toy_hash started small user zero_row ≡ ok (true, buf'))
    × Inserted toy_hash small started user zero_row buf'
insert-Inserted_example =
    insert-Inserted toy_hash toy_hash_u64 started-IsSegment b'u' (b'1' ∷ []) zero_row
      (started-Absent user) zero_row_sized short_id (omega (arith, started_next, two_rows_room))
      (omega (arith, started_cursor, pool_room))

insert_crash_safe_example :
    lookup toy_hash
      (apply_writes started (
        take 8 (
          insert_writes small 1
            (toy_hash user)
            user
            zero_row
            (next_row started)
            (pool_cursor started))))
      small
      user
    ≡ lookup toy_hash started small user
insert_crash_safe_example =
    insert_crash_safe toy_hash started-IsSegment 1 slot_one (started_vacant 1 slot_one)
      (toy_hash user) user zero_row 8 (omega arith) user

-- The segment after the first insert, and after the second
pub first_insert : Insertion started user
first_insert =
    insert-Inserted toy_hash toy_hash_u64 started-IsSegment b'u' (b'1' ∷ []) zero_row
      (started-Absent user) zero_row_sized short_id (omega (arith, started_next, two_rows_room))
      (omega (arith, started_cursor, pool_room))

abbrev pub one_user : Memory
one_user = first_insert.0

first_outcome : Inserted toy_hash small started user zero_row one_user
first_outcome = first_insert.2

pub one_user-IsSegment : IsSegment toy_hash one_user small
one_user-IsSegment = first_outcome.well_formed

other-Absent : Absent toy_hash (first_outcome.well_formed) other
other-Absent = none-Absent toy_hash (first_outcome.well_formed) b'u' (b'2' ∷ []) (
    first_outcome.others b'u' (b'2' ∷ []) (λ e. bytes_ne other user refl e)
    ∙ (lookup_view toy_hash started-IsSegment b'u' (b'2' ∷ [])).1 (started-Absent other))

one_next : next_row one_user ≡ 1
one_next = ap (λ (t : ℕ × ℕ). t.0) (first_outcome.cursors) ∙ ap (λ n. n + 1) started_next

one_cursor : pool_cursor one_user ≡ 6
one_cursor = ap (λ (t : ℕ × ℕ). t.1) (first_outcome.cursors) ∙ ap (λ n. n + 6) started_cursor

second_insert : Insertion one_user other
second_insert =
    insert-Inserted toy_hash toy_hash_u64 (first_outcome.well_formed) b'u' (b'2' ∷ []) zero_row
      other-Absent zero_row_sized short_id (omega (arith, one_next, two_rows_room))
      (omega (arith, one_cursor, pool_room))

abbrev two_users : Memory
two_users = second_insert.0

second_outcome : Inserted toy_hash small one_user other zero_row two_users
second_outcome = second_insert.2

third-Absent : Absent toy_hash (second_outcome.well_formed) third
third-Absent = none-Absent toy_hash (second_outcome.well_formed) b'u' (b'3' ∷ []) (
    second_outcome.others b'u' (b'3' ∷ []) (λ e. bytes_ne third other refl e)
    ∙ first_outcome.others b'u' (b'3' ∷ []) (λ e. bytes_ne third user refl e)
    ∙ (lookup_view toy_hash started-IsSegment b'u' (b'3' ∷ [])).1 (started-Absent third))

two_next : next_row two_users ≡ 2
two_next = ap (λ (t : ℕ × ℕ). t.0) (second_outcome.cursors) ∙ ap (λ n. n + 1) one_next

insert_full_example :
    insert toy_hash two_users small third zero_row
    ≡ err (
        if leb small.capacity (next_row two_users)
        then capacity_exceeded
        else string_pool_exhausted)
insert_full_example =
    insert_full toy_hash toy_hash_u64 (second_outcome.well_formed) b'u' (b'3' ∷ []) zero_row
      third-Absent zero_row_sized short_id (inl (omega (arith, two_next, two_rows_room)))

lookup_lem_example :
    ((j : ℕ) × Holds one_user small user j
      × (lookup toy_hash one_user small user ≡ ok (some (row_offset one_user small j))))
    ⊎ (Absent toy_hash (first_outcome.well_formed) user
        × (lookup toy_hash one_user small user ≡ ok none))
lookup_lem_example = lookup_lem toy_hash (first_outcome.well_formed) b'u' (b'1' ∷ [])

user_slot : (j : ℕ) × Holds one_user small user j
user_slot = elim (lookup_lem toy_hash (first_outcome.well_formed) b'u' (b'1' ∷ [])) [
  | inl (j, h, e) ↦ (j, h)
  | inr (gone, e) ↦ let seen = first_outcome.visible in cc
]

insert-Updated_example :
    (insert toy_hash one_user small user zero_row
      ≡ ok (false, write_bytes one_user (row_offset one_user small (user_slot.0)) zero_row))
    × Updated toy_hash small one_user
        (user_slot.0)
        zero_row
        (write_bytes one_user (row_offset one_user small (user_slot.0)) zero_row)
insert-Updated_example =
    insert-Updated toy_hash (first_outcome.well_formed) b'u' (b'1' ∷ []) zero_row (user_slot.0)
      (user_slot.1) zero_row_sized short_id

insert-Stored_example : Stored toy_hash small user zero_row one_user
insert-Stored_example =
    insert-Stored toy_hash toy_hash_u64 started-IsSegment user zero_row true one_user
      (first_insert.1)

iterate_occupied_lem_example :
    (iterate_occupied one_user small
      ≡ ok (map (entity one_user small) (used_slots one_user small small.slot_capacity 0)))
    × ((j : ℕ)
        → contains j (used_slots one_user small small.slot_capacity 0)
          ≡ (ltb j small.slot_capacity && (flags_at one_user small j == occupied)))
iterate_occupied_lem_example = iterate_occupied_lem toy_hash one_user-IsSegment
