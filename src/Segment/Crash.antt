-- ===== src/Segment/Crash.antt =====
-- A crash between two writes of `_insert_into_empty_slot`.
use quorin.Base.{ℕ, ◌+◌, ◌≤◌, ◌<◌, ◌≡◌, ◌≢◌, sym, ap, arith, List, take, All-take, subst}
use native.Mathlib.Decide.{ℕ_discrete}
use quorin.Memory.{Memory, read_u32, from_le}
use quorin.Memory.Frame.{read_bytes_congr}
use quorin.Layout.{SegmentLayout}
use quorin.Segment.{Slot, slot_at, empty, occupied, slot_base, apply_writes, insert_writes, lookup}
use quorin.Segment.Slots.{flags_at, next_row, pool_cursor, IsSegment}
use quorin.Segment.Stable.{SameView, lookup-SameView}
use quorin.Segment.Old.{
  IsOld, IsFlag, Misses, apply_writes-Misses, insert_writes-IsOld, insert_writes-IsFlag, slot_old,
  string_old,
}

module _ (hash : List ℕ → ℕ) {l : SegmentLayout} {buf : Memory} (inv : IsSegment hash buf l) where
  module _ {buf' : Memory} (idx : ℕ) (free : flags_at buf l idx ≡ empty)
      (old : (b : ℕ) → IsOld l idx (pool_cursor buf) b → buf' b ≡ buf b)
      (flag : (b : ℕ) → IsFlag idx b → buf' b ≡ buf b) where
    -- The slot `idx` stays empty.
    flags_free : flags_at buf' l idx ≡ flags_at buf l idx
    unfolding slot_at read_u32
    flags_free =
        let base = inv.layout.slot_table in
        ap from_le (
          read_bytes_congr buf' buf (slot_base l idx + 16) 4
            (λ b p q. flag b (omega (arith, base), omega (arith, base))))

    not_free : (i : ℕ) → flags_at buf l i ≡ occupied → i ≢ idx
    not_free i on e = ground (arith, on, free, ap (flags_at buf l) e)

    unseen : SameView l buf' buf
    unseen = record {
      flags = λ i lt. elim (ℕ_discrete i idx) [
        | yes e ↦ subst (λ t. flags_at buf' l t ≡ flags_at buf l t) (sym e) flags_free
        | no ne ↦ ap (λ (t : Slot). t.flags) (slot_old hash inv idx old i lt ne)
      ];
      slot = λ i lt on. slot_old hash inv idx old i lt (not_free i on);
      string = λ i lt on. string_old hash inv idx old i lt on;
    }

  -- After a crash in the middle of an insert, at any of its writes before the last, every lookup
  -- returns what it returned before the insert began.
  pub insert_crash_safe :
      (idx : ℕ)
      → idx < l.slot_capacity
      → flags_at buf l idx ≡ empty
      → (h : ℕ) (id row : List ℕ) (done : ℕ) → done ≤ 8
      → (other : List ℕ)
      → lookup hash
          (apply_writes buf
            (take done (insert_writes l idx h id row (next_row buf) (pool_cursor buf))))
          l
          other
        ≡ lookup hash buf l other
  unfolding insert_writes
  insert_crash_safe idx lt free h id row done before other =
      let cursor = pool_cursor buf in
      let next = next_row buf in
      let writes = insert_writes l idx h id row next cursor in
      let old =
        All-take (Misses (IsOld l idx cursor)) done 9 writes (omega arith)
          (insert_writes-IsOld l inv.layout idx cursor h next id row lt inv.pool_left) in
      let flag =
        All-take (Misses (IsFlag idx)) done 8 writes before
          (insert_writes-IsFlag l inv.layout idx cursor h next id row lt inv.pool_left) in
      lookup-SameView inv.pow
        (unseen idx free (apply_writes-Misses (IsOld l idx cursor) (take done writes) buf old)
          (apply_writes-Misses (IsFlag idx) (take done writes) buf flag))
        hash other
