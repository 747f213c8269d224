-- ===== src/InsertKernel/Many.antt =====
-- `insert_many` on a new segment.
use quorin.Base.{
  ℕ, zero, suc, ◌+◌, ◌-◌, ◌*◌, ◌^◌, ◌≤◌, ◌<◌, ◌≡◌, ◌≢◌, refl, sym, ◌∙◌, ap, ap₂, subst, arith, none,
  some, List, [], ◌∷◌, length, ◌==◌, Bool-cases, inl, inr, bit_and, le→ltb, ==→eq,
}
use quorin.Result.{ok}
use quorin.Memory.{Memory, read_bytes, write_bytes, le_bytes, from_le, write_u64, read_u64}
use quorin.Memory.Frame.{length-read_bytes, length-le_bytes}
use quorin.Memory.Order.{write_bytes-same, from_le-zero}
use quorin.Schema.Offsets.Geometry.{Packed}
use quorin.Schema.Table.Rows.{EndsBy}
use quorin.Layout.{SegmentLayout, read_metadata, write_metadata}
use quorin.Segment.{apply_writes, lookup}
use quorin.Segment.Slots.{IsSegment, next_row, pool_cursor}
use quorin.Layout.Regions.{IsLayout}
use quorin.Segment.Writes.{Inside}
use quorin.Segment.View.{lookup_view}
use quorin.Segment.Insert.New.{Inserted}
use quorin.InsertKernel.{
  Table, KernelField, kernel_fields, data_writes, id_of, find_vacant, scatter_writes, row_writes,
  inserted, insert_many_core, max_id_len, finish, insert_rows, insert_many,
}
use quorin.InsertKernel.Columns.{data_writes-ReadsColumns}
use quorin.InsertKernel.Row.{scatter-Inside, row_of, pooled}
use quorin.InsertKernel.Load.{HasColumns, HasColumns-part, scatter-HasColumns, round-Inserted}
use quorin.InsertKernel.Loaded.{
  Fits, Loaded, cursor_at, id_len, cursor_step, cursor_end, Loaded-suc,
}

module _ (hash : List ℕ → ℕ) (hash_u64 : (b : List ℕ) → hash b < 2 ^ 64) (l : SegmentLayout)
    (packed : Packed 0 l.assembly_table) (ends : EndsBy l.row_size l.assembly_table) (t : Table)
    (fits : Fits l t) (blank : Memory) where
  abbrev fields : List KernelField
  fields = kernel_fields t.num_rows 0 l.assembly_table

  abbrev field_data : Memory
  field_data = apply_writes blank (data_writes t.num_rows fields t.columns)

  -- `round-Inserted` for an id that is not empty
  any_round :
      (buf : Memory) (i cursor : ℕ) (inv : IsSegment hash (write_metadata buf i cursor) l)
      → read_metadata (write_metadata buf i cursor) ≡ (i, cursor)
      → (id : List ℕ) → id ≢ []
      → ((d : ℕ) (ds : List ℕ)
          → d ∷ ds ≡ id
          → lookup hash (write_metadata buf i cursor) l (d ∷ ds) ≡ ok none)
      → length id ≤ l.max_id_bytes
      → i < l.capacity
      → cursor + (4 + length id) ≤ l.string_pool_data_bytes
      → Inside
          (l.feature_rows_offset + i * l.row_size)
          l.row_size
          (scatter_writes field_data (l.feature_rows_offset + i * l.row_size) i fields)
      → (idx : ℕ) × (find_vacant buf l l.slot_capacity (bit_and (hash id) (l.slot_capacity - 1))
          ≡ some idx)
        × Inserted hash l
            (write_metadata buf i cursor)
            id
            (row_of l inv.layout field_data fields buf i cursor id)
            (write_metadata
              (apply_writes buf (row_writes l field_data fields idx (hash id) id i cursor))
              (i + 1)
              (cursor + (4 + length id)))
  any_round buf i cursor inv cursors [] some_id miss short left room inside = absurd (some_id refl)
  any_round buf i cursor inv cursors (c ∷ cs) some_id miss short left room inside =
      round-Inserted hash hash_u64 l buf i cursor inv cursors c cs (miss c cs refl) short left room
        field_data fields inside

  stored_columns :
      (buf : Memory) (i : ℕ)
      → i < t.num_rows
      → (lay : IsLayout l) (m' : Memory) (id : List ℕ)
      → next_row (write_metadata buf i (cursor_at t i)) ≡ i
      → Inserted hash l
          (write_metadata buf i (cursor_at t i))
          id
          (row_of l lay field_data fields buf i (cursor_at t i) id)
          m'
      → HasColumns m' (l.feature_rows_offset + i * l.row_size) i l.assembly_table t.columns
  stored_columns buf i lt lay m' id next_e ins =
      let row = l.feature_rows_offset + i * l.row_size in
      let pool = pooled l lay field_data fields buf i (cursor_at t i) id in
      let kept =
        subst
          (λ k.
            read_bytes m' (l.feature_rows_offset + k * l.row_size) l.row_size
            ≡ row_of l lay field_data fields buf i (cursor_at t i) id)
          next_e ins.stored in
      HasColumns-part (apply_writes pool (scatter_writes field_data row i fields)) m' row l.row_size
        i l.assembly_table t.columns (sym kept) ends
        (scatter-HasColumns field_data pool row i t.num_rows 0 0 l.assembly_table t.columns packed
          (data_writes-ReadsColumns blank t.num_rows 0 l.assembly_table t.columns i lt fits.sized))

  core_done :
      (i : ℕ) (buf : Memory) (cursor : ℕ)
      → insert_many_core hash l field_data fields t 0 i buf cursor ≡ inserted buf cursor
  unfolding insert_many_core
  core_done i buf cursor = refl

  core_round :
      (n i : ℕ) (buf : Memory) (cursor idx : ℕ)
      → find_vacant buf l l.slot_capacity (bit_and (hash (id_of t i)) (l.slot_capacity - 1))
        ≡ some idx
      → insert_many_core hash l field_data fields t (suc n) i buf cursor
        ≡ insert_many_core hash l field_data fields t n
            (suc i)
            (apply_writes buf
              (row_writes l field_data fields idx (hash (id_of t i)) (id_of t i) i cursor))
            (cursor + (4 + length (id_of t i)))
  unfolding insert_many_core
  core_round n i buf cursor idx e = rw (e, insert_many_core) refl

  -- The kernel from row `i`, for `n` more rows
  core-Loaded :
      (n i : ℕ) (buf : Memory)
      → i + n ≡ t.num_rows
      → read_metadata (write_metadata buf i (cursor_at t i)) ≡ (i, cursor_at t i)
      → Loaded hash l t i (write_metadata buf i (cursor_at t i))
      → (buf' : Memory) × (insert_many_core hash l field_data fields t n i buf (cursor_at t i)
          ≡ inserted buf' (cursor_at t t.num_rows))
        × Loaded hash l t t.num_rows (write_metadata buf' t.num_rows (cursor_at t t.num_rows))
  core-Loaded zero i buf e cursors old =
      let at : i ≡ t.num_rows = omega arith in
      (
        buf,
        core_done i buf (cursor_at t i) ∙ ap (λ (k : ℕ). inserted buf (cursor_at t k)) at,
        subst (λ k. Loaded hash l t k (write_metadata buf k (cursor_at t k))) at old,
      )
  core-Loaded (suc n) i buf e cursors old =
      let lt : i < t.num_rows = omega arith in
      let m = write_metadata buf i (cursor_at t i) in
      let id = id_of t i in
      let row = l.feature_rows_offset + i * l.row_size in
      let inside = scatter-Inside field_data row i t.num_rows l.row_size 0 l.assembly_table ends in
      let miss : (d : ℕ) (ds : List ℕ) → d ∷ ds ≡ id → lookup hash m l (d ∷ ds) ≡ ok none =
        λ d ds same. old.others d ds (λ j h k. fits.distinct j i h lt (k ∙ same)) in
      let room : cursor_at t i + (4 + length id) ≤ l.string_pool_data_bytes = omega (
        arith,
        cursor_step l t fits i lt,
        cursor_end l t fits (suc i) (omega arith),
        fits.pool_room,
      ) in
      let (idx, vacant_slot, ins) =
        any_round buf i (cursor_at t i) old.well_formed cursors id (fits.not_empty i lt) miss
          (fits.id_room i lt) (omega (arith, fits.rows_room)) room inside in
      let buf' =
        apply_writes buf (row_writes l field_data fields idx (hash id) id i (cursor_at t i)) in
      let m' = write_metadata buf' (i + 1) (cursor_at t i + (4 + length id)) in
      let next_e : next_row m ≡ i = ap (λ (p : ℕ × ℕ). p.0) cursors in
      let cursor_e : pool_cursor m ≡ cursor_at t i = ap (λ (p : ℕ × ℕ). p.1) cursors in
      let at : m' ≡ write_metadata buf' (suc i) (cursor_at t (suc i)) =
        ap₂ (write_metadata buf') (omega arith) (cursor_step l t fits i lt) in
      let last = stored_columns buf i lt old.well_formed.layout m' id next_e ins in
      let loaded = Loaded-suc hash l ends t fits m m' i id _ lt refl next_e old ins last in
      let cursors' : read_metadata m' ≡ (suc i, cursor_at t (suc i)) =
        ins.cursors
        ∙ ap₂ (λ x y. (x, y)) (omega (arith, next_e))
            (ap (λ (k : ℕ). k + (4 + length id)) cursor_e ∙ cursor_step l t fits i lt) in
      let (final, run, all) =
        core-Loaded n (suc i) buf' (omega arith)
          (subst (λ b. read_metadata b ≡ (suc i, cursor_at t (suc i))) at cursors')
          (subst (Loaded hash l t (suc i)) at loaded) in
      (
        final,
        core_round n i buf (cursor_at t i) idx vacant_slot
            ∙ ap (λ (k : ℕ). insert_many_core hash l field_data fields t n (suc i) buf' k)
                (cursor_step l t fits i lt)
            ∙ run,
        all,
      )

  -- Cursors that are zero are written back as they were.
  same_cursors :
      (buf : Memory) → next_row buf ≡ 0 → pool_cursor buf ≡ 0 → write_metadata buf 0 0 ≡ buf
  unfolding write_metadata write_u64 read_metadata read_u64
  same_cursors buf next cursor =
      let z = length-le_bytes 8 0 in
      let len = length-read_bytes buf in
      let zeros : (a : ℕ)
          → from_le (read_bytes buf a 8) ≡ 0
          → write_bytes buf a (le_bytes 8 0) ≡ buf =
        λ a e. write_bytes-same buf a (le_bytes 8 0) (
          ap (read_bytes buf a) z
          ∙ from_le-zero (read_bytes buf a 8) e
          ∙ ap (λ (k : ℕ). le_bytes k 0) (len a 8)) in
      ap (λ (b : Memory). write_bytes b 24 (le_bytes 8 0)) (zeros 16 next) ∙ zeros 24 cursor

  nothing-Loaded : (buf : Memory) → IsSegment hash buf l → next_row buf ≡ 0 → Loaded hash l t 0 buf
  nothing-Loaded buf inv next = record {
    well_formed = inv;
    found = λ j h. absurd (omega arith);
    stored = λ j h. absurd (omega arith);
    others = λ c cs h.
        (lookup_view hash inv c cs).1
          (λ i lt on. absurd (omega (arith, (inv.slots i lt on).row_used, next)));
  }

  max_id_len-le : (n : ℕ) → n ≤ t.num_rows → max_id_len t n ≤ l.max_id_bytes
  unfolding max_id_len
  max_id_len-le zero h = omega arith
  max_id_len-le (suc n) h =
      omega (arith, id_len l t fits n, fits.id_room n (omega arith), max_id_len-le n (omega arith))

  -- All guards are passed.
  insert_rows-run :
      (buf final : Memory) (cursor : ℕ)
      → next_row buf ≡ 0
      → pool_cursor buf ≡ 0
      → insert_many_core hash l field_data fields t t.num_rows 0 buf 0 ≡ inserted final cursor
      → insert_rows hash blank buf l t ≡ ok (t.num_rows, write_metadata final t.num_rows cursor)
  unfolding insert_rows finish
  insert_rows-run buf final cursor next none_pooled run = rw (
    next,
    none_pooled,
    le→ltb l.capacity t.num_rows fits.rows_room,
    le→ltb l.max_id_bytes (max_id_len t t.num_rows) (max_id_len-le t.num_rows (omega arith)),
    le→ltb l.string_pool_data_bytes (cursor_at t t.num_rows) fits.pool_room,
    run,
    fits.entity_id_there,
    fits.fields_there,
  )

  rows-Loaded :
      (buf : Memory)
      → IsSegment hash buf l
      → next_row buf ≡ 0
      → pool_cursor buf ≡ 0
      → (buf' : Memory) × (insert_rows hash blank buf l t ≡ ok (t.num_rows, buf'))
        × Loaded hash l t t.num_rows buf'
  rows-Loaded buf inv next cursor =
      let zero_e : cursor_at t 0 ≡ 0 = omega (arith, fits.from_zero) in
      let start : write_metadata buf 0 (cursor_at t 0) ≡ buf =
        ap (write_metadata buf 0) zero_e ∙ same_cursors buf next cursor in
      let (final, run, all) =
        core-Loaded t.num_rows 0 buf (omega arith)
          (ap read_metadata start ∙ ap₂ (λ x y. (x, y)) next (cursor ∙ sym zero_e))
          (subst (Loaded hash l t 0) (sym start) (nothing-Loaded buf inv next)) in
      let run_0 =
        ap (λ (k : ℕ). insert_many_core hash l field_data fields t t.num_rows 0 buf k) (sym zero_e)
        ∙ run in
      (
        write_metadata final t.num_rows (cursor_at t t.num_rows),
        insert_rows-run buf final (cursor_at t t.num_rows) next cursor run_0,
        all,
      )

  -- In a well-formed new segment, `insert_many` of a table that fits raises nothing and returns the number of rows.
  -- The segment is well-formed, the id of every row is found at the feature row with the same
  -- number, whose fields hold the bytes of the columns, and no other id is found.
  pub insert_many_lem :
      (buf : Memory)
      → IsSegment hash buf l
      → read_metadata buf ≡ (0, 0)
      → (buf' : Memory) × (insert_many hash blank buf l t ≡ ok (t.num_rows, buf'))
        × Loaded hash l t t.num_rows buf'
  unfolding insert_many
  insert_many_lem buf inv cursors =
      let next : next_row buf ≡ 0 = ap (λ (p : ℕ × ℕ). p.0) cursors in
      let cursor : pool_cursor buf ≡ 0 = ap (λ (p : ℕ × ℕ). p.1) cursors in
      elim (Bool-cases (t.num_rows == 0)) [
        | inl none_there ↦
            let e : 0 ≡ t.num_rows = sym (==→eq t.num_rows 0 none_there) in
            (
              buf,
              rw none_there (ap (λ (k : ℕ). ok (k, buf)) e),
              subst (λ k. Loaded hash l t k buf) e (nothing-Loaded buf inv next),
            )
        | inr some_there ↦ rw some_there (rows-Loaded buf inv next cursor)
      ]
