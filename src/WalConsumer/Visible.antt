-- ===== src/WalConsumer/Visible.antt =====
-- Applied messages and `lookup`.
use quorin.Base.{
  ℕ, ◌<◌, ◌^◌, ◌≡◌, refl, Bool, true, Option, none, some, List, ◌==◌, ==_self, Bool-cases, inl, inr,
}
use quorin.Result.{Result, ok, err}
use quorin.Memory.{Memory}
use quorin.Segment.{insert}
use quorin.Segment.Slots.{IsSegment}
use quorin.Segment.Insert.Success.{Stored, insert-Stored}
use quorin.WalConsumer.{
  packed, Message, OpenSegment, Consumer, set_segment, append_offline, apply_inserted,
  apply_payload, apply_entity, apply_schema, apply,
}

-- All open segments are well-formed.
pub record AllSegments (hash : List ℕ → ℕ) (segments : ℕ → OpenSegment) : Type 0 where
  pub each : (s : ℕ) → IsSegment hash (segments s).buf (segments s).layout

-- What `_apply` of a row to the entity `id` of schema `s` makes of `c`
pub record Kept (hash : List ℕ → ℕ) (c : Consumer) (s : ℕ) (id row : List ℕ) (r : Consumer × Bool)
    : Type 0 where
  pub all_kept : AllSegments hash r.0.segments
  pub shown : r.1 ≡ true → Stored hash (c.segments s).layout id row (r.0.segments s).buf

module _ (hash : List ℕ → ℕ) (hash_u64 : (b : List ℕ) → hash b < 2 ^ 64) (known : ℕ → Bool)
    (accepts : Message → Bool) where
  append_offline-segments :
      (c : Consumer) (m : Message) (o : Option ℕ)
      → (append_offline hash known accepts c m o).0.segments ≡ c.segments
  unfolding append_offline
  append_offline-segments c m none = refl
  append_offline-segments c m (some time) = elim (Bool-cases (accepts m)) [
    | inl y ↦ rw y refl
    | inr n ↦ rw n refl
  ]

  set_segment-AllSegments :
      (segments : ℕ → OpenSegment) (s : ℕ) (buf : Memory)
      → AllSegments hash segments
      → IsSegment hash buf (segments s).layout
      → AllSegments hash (set_segment segments s buf)
  set_segment-AllSegments segments s buf all new = record {
    each = λ t. elim (Bool-cases (t == s)) [ inl y ↦ rw y new | inr n ↦ rw n (all.each t) ];
  }

  module _ (c : Consumer) (all : AllSegments hash c.segments) where
    apply_inserted-Kept :
        (m : Message) (s : ℕ) (id row : List ℕ) (r : Result (Bool × Memory))
        → insert hash (c.segments s).buf (c.segments s).layout id row ≡ r
        → Kept hash c s id row (apply_inserted hash known accepts c m s r)
    unfolding apply_inserted
    apply_inserted-Kept m s id row (err e) h = record { all_kept = all; shown = λ k. cc }
    apply_inserted-Kept m s id row (ok r) h =
        let stored = insert-Stored hash hash_u64 (all.each s) id row r.0 r.1 h in
        let moved = set_segment c.segments s r.1 in
        let same = append_offline-segments (record c { segments = moved }) m m.event_time in
        let here : moved s ≡ record (c.segments s) { buf = r.1 } = rw (==_self s) refl in
        record {
          all_kept = rw same (set_segment-AllSegments c.segments s r.1 all stored.well_formed);
          shown = λ k. rw same (rw (==_self s) stored);
        }

    -- If all open segments are well-formed, they still are after `_apply` of a message with an entity id
    -- and a packed row, whether it succeeds or fails; and if it returns True, `lookup` finds the entity
    -- in the segment of its schema, at a row with these bytes.
    pub apply-Kept :
        (m : Message) (s : ℕ) (id row : List ℕ)
        → m.schema_name ≡ some s
        → m.entity_id ≡ some id
        → m.payload ≡ packed row
        → Kept hash c s id row (apply hash known accepts c m)
    unfolding apply apply_schema apply_entity apply_payload
    apply-Kept m s id row named of payload =
        rw (named, of, payload)
          (elim (Bool-cases (known s)) [
            | inl y ↦ rw y (
                apply_inserted-Kept _ s id row
                  (insert hash (c.segments s).buf (c.segments s).layout id row) refl)
            | inr n ↦ rw n (record { all_kept = all; shown = λ k. cc })
          ])
