-- ===== src/Header/RoundTrip.antt =====
-- The bytes that `create` writes, as `open_current` reads them.
use quorin.Base.{
  ℕ, ◌+◌, ◌*◌, ◌^◌, ◌≤◌, ◌<◌, ◌≡◌, ◌≢◌, refl, sym, ◌∙◌, ap, arith, List, ==_self, ne→==,
}
use quorin.Result.{ok, err, schema_crc_mismatch, >>=-eq-ok}
use quorin.Align.{align_up, next_pow2}
use quorin.Memory.{
  Memory, read_bytes, write_bytes, le_bytes, from_le, read_u32, write_u32, write_u64,
}
use quorin.Memory.Frame.{
  write_bytes-outside, read_bytes_congr, read_bytes-write_bytes, read_bytes-write_bytes-Apart,
  length-le_bytes, from_le-le_bytes_4,
}
use quorin.Schema.{FeatureField}
use quorin.Schema.Offsets.{OffsetRow}
use quorin.Schema.Table.{compile_schema}
use quorin.Layout.{
  SegmentLayout, compute_layout, compute_layout_from_segment, initialize_segment_regions,
  derive_layout,
}
use quorin.Layout.Regions.{IsLayout, Computed, compute_layout-Computed, compute_layout-IsLayout}
use quorin.Header.{magic, pack_header, create, verify_header, open_segment}

-- The header lies before all that `initialize_segment_regions` writes.
header_kept :
    (l : SegmentLayout)
    → IsLayout l
    → (buf : Memory) (a : ℕ) → a < 16
    → initialize_segment_regions buf l a ≡ buf a
unfolding initialize_segment_regions write_u32 write_u64
header_kept l lay buf a lt =
    let z4 = length-le_bytes 4 in
    let z8 = length-le_bytes 8 in
    write_bytes-outside _ (l.string_pool_offset + 4) (le_bytes 4 0) a (omega (arith, z4))
    ∙ write_bytes-outside _ l.string_pool_offset (le_bytes 4 l.max_id_bytes) a (omega (arith, z4))
    ∙ write_bytes-outside _ 24 (le_bytes 8 0) a (omega (arith, z8))
    ∙ write_bytes-outside buf 16 (le_bytes 8 0) a (omega (arith, z8))

pool_header_read :
    (l : SegmentLayout) (buf : Memory)
    → l.max_id_bytes < 2 ^ 32
    → read_u32 (initialize_segment_regions buf l) l.string_pool_offset ≡ l.max_id_bytes
unfolding initialize_segment_regions read_u32 write_u32
pool_header_read l buf lt =
    ap from_le (
      read_bytes-write_bytes-Apart _ (l.string_pool_offset + 4) (le_bytes 4 0) l.string_pool_offset
        4 (omega (arith, length-le_bytes 4))
      ∙ read_bytes-write_bytes _ l.string_pool_offset (le_bytes 4 l.max_id_bytes) 4
          (length-le_bytes 4 l.max_id_bytes))
    ∙ from_le-le_bytes_4 l.max_id_bytes lt

module _ (buf : Memory) (version crc capacity : ℕ) where
  abbrev headed : Memory
  headed = write_bytes buf 0 (pack_header version crc capacity)

  header_fields :
      version < 2 ^ 32
      → crc < 2 ^ 32
      → capacity < 2 ^ 32
      → (read_bytes headed 0 4 ≡ magic)
        × (read_u32 headed 4 ≡ version)
        × (read_u32 headed 8 ≡ crc)
        × (read_u32 headed 12 ≡ capacity)
  unfolding pack_header write_bytes read_bytes read_u32 le_bytes from_le
  header_fields v c k = (refl, omega arith, omega arith, omega arith)

read_u32_kept :
    (l : SegmentLayout)
    → IsLayout l
    → (buf : Memory) (a : ℕ) → a + 4 ≤ 16
    → read_u32 (initialize_segment_regions buf l) a ≡ read_u32 buf a
unfolding read_u32
read_u32_kept l lay buf a le = ap from_le (
    read_bytes_congr (initialize_segment_regions buf l) buf a 4
      (λ i p q. header_kept l lay buf i (omega arith)))

module _ (hash : List ℕ → ℕ) (crc : List OffsetRow → ℕ) (version : ℕ) (fields : List FeatureField)
    (crc_u32 : (t : List OffsetRow) → crc t < 2 ^ 32) (version_u32 : version < 2 ^ 32) where
  module _ (capacity max_id : ℕ) (l : SegmentLayout)
      (made : compute_layout hash fields capacity max_id ≡ ok l) where
    parts : Computed hash fields capacity max_id l
    parts = compute_layout-Computed hash fields capacity max_id l made

    pool_offset : align_up (64 + next_pow2 (capacity * 2) * 24) 64 ≡ l.string_pool_offset
    unfolding derive_layout
    pool_offset = ap (λ (d : SegmentLayout). d.string_pool_offset) (sym parts.layout)

    max_id_same : l.max_id_bytes ≡ max_id
    unfolding derive_layout
    max_id_same = ap (λ (d : SegmentLayout). d.max_id_bytes) parts.layout

    magic_kept :
        (buf : Memory) (t : List OffsetRow)
        → read_bytes (initialize_segment_regions (headed buf version (crc t) capacity) l) 0 4
          ≡ magic
    magic_kept buf t =
        let lay = (compute_layout-IsLayout hash fields capacity max_id l made).0 in
        let head = headed buf version (crc t) capacity in
        read_bytes_congr (initialize_segment_regions head l) head 0 4
          (λ i p q. header_kept l lay head i (omega arith))
        ∙ (header_fields buf version (crc t) capacity version_u32 (crc_u32 t)
            (omega (arith, parts.cap_u32))).0

    other_version :
        (buf : Memory) (t : List OffsetRow) (later : ℕ)
        → version ≢ later
        → (crc' : List OffsetRow → ℕ) (fields' : List FeatureField)
        → verify_header hash crc' later fields'
            (initialize_segment_regions (headed buf version (crc t) capacity) l)
          ≡ err schema_crc_mismatch
    unfolding verify_header
    other_version buf t later ne crc' fields' =
        let lay = (compute_layout-IsLayout hash fields capacity max_id l made).0 in
        let head = headed buf version (crc t) capacity in
        let (m, v, c, k) =
          header_fields buf version (crc t) capacity version_u32 (crc_u32 t)
            (omega (arith, parts.cap_u32)) in
        rw (magic_kept buf t, read_u32_kept l lay head 4 (omega arith) ∙ v, ne→== version later ne)
          refl

    verified :
        (buf : Memory) (t : List OffsetRow)
        → compile_schema hash fields ≡ ok t
        → verify_header hash crc version fields
            (initialize_segment_regions (headed buf version (crc t) capacity) l)
          ≡ ok tt
    unfolding verify_header
    verified buf t table =
        let lay = (compute_layout-IsLayout hash fields capacity max_id l made).0 in
        let head = headed buf version (crc t) capacity in
        let (m, v, c, k) =
          header_fields buf version (crc t) capacity version_u32 (crc_u32 t)
            (omega (arith, parts.cap_u32)) in
        rw
          (
            magic_kept buf t,
            read_u32_kept l lay head 4 (omega arith) ∙ v,
            table,
            read_u32_kept l lay head 8 (omega arith) ∙ c,
            ==_self version,
            ==_self (crc t),
          )
          refl

    reread :
        (buf : Memory) (t : List OffsetRow)
        → compute_layout_from_segment hash fields
            (initialize_segment_regions (headed buf version (crc t) capacity) l)
          ≡ ok l
    unfolding compute_layout_from_segment
    reread buf t =
        let lay = (compute_layout-IsLayout hash fields capacity max_id l made).0 in
        let head = headed buf version (crc t) capacity in
        let (m, v, c, k) =
          header_fields buf version (crc t) capacity version_u32 (crc_u32 t)
            (omega (arith, parts.cap_u32)) in
        let pool = pool_header_read l head (omega (arith, lay.id_ceiling)) in
        rw
          (
            read_u32_kept l lay head 12 (omega arith) ∙ k,
            ne→== capacity 0 (omega (arith, parts.cap_pos)),
            pool_offset,
            pool ∙ max_id_same,
            ne→== max_id 0 (omega (arith, parts.id_pos)),
          )
          made

  -- Whatever the new segment held before, `open_current` accepts the bytes that `create` has written for
  -- the same schema, and computes the layout that `create` had computed.
  pub open_segment-create :
      (buf : Memory) (capacity max_id : ℕ) (made : Memory) (l : SegmentLayout)
      → create hash crc version fields buf capacity max_id ≡ ok (made, l)
      → open_segment hash crc version fields made ≡ ok l
  unfolding create open_segment
  open_segment-create buf capacity max_id made l h =
      let (layout, layout_ok, h₁) = >>=-eq-ok (compute_layout hash fields capacity max_id) _ h in
      let (t, table, h₂) = >>=-eq-ok (compile_schema hash fields) _ h₁ in
      let bytes = initialize_segment_regions (headed buf version (crc t) capacity) layout in
      let same : (bytes, layout) ≡ (made, l) = cc in
      let e : bytes ≡ made = ap (λ (p : Memory × SegmentLayout). p.0) same in
      let f : layout ≡ l = ap (λ (p : Memory × SegmentLayout). p.1) same in
      rw
        (
          ← e,
          ← f,
          verified capacity max_id layout layout_ok buf t table,
          reread capacity max_id layout layout_ok buf t,
        )
        refl

  -- A schema of another version, with any fields, is refused with SchemaCRCMismatchError.
  pub open_segment-refused :
      (buf : Memory) (capacity max_id : ℕ) (made : Memory) (l : SegmentLayout)
      → create hash crc version fields buf capacity max_id ≡ ok (made, l)
      → (later : ℕ) → version ≢ later
      → (crc' : List OffsetRow → ℕ) (fields' : List FeatureField)
      → open_segment hash crc' later fields' made ≡ err schema_crc_mismatch
  unfolding create open_segment
  open_segment-refused buf capacity max_id made l h later ne crc' fields' =
      let (layout, layout_ok, h₁) = >>=-eq-ok (compute_layout hash fields capacity max_id) _ h in
      let (t, table, h₂) = >>=-eq-ok (compile_schema hash fields) _ h₁ in
      let bytes = initialize_segment_regions (headed buf version (crc t) capacity) layout in
      let same : (bytes, layout) ≡ (made, l) = cc in
      let e : bytes ≡ made = ap (λ (p : Memory × SegmentLayout). p.0) same in
      rw (← e, other_version capacity max_id layout layout_ok buf t later ne crc' fields') refl
