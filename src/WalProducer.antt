-- ===== src/WalProducer.antt =====
-- quorin/wal.py: `WALProducer.write` and `write_sync`, with `field_order_for` of
-- quorin/_internal/pydantic_factory.py. Times are microseconds; msgpack, the pydantic model of a
-- schema, the clock and Redis are parameters.
pub mod Order
pub mod Polling
mod Tests
use quorin.Base.{
  ℕ, zero, suc, ◌+◌, ◌*◌, min, Bool, true, false, Option, none, some, List, [], ◌∷◌, map, ltb, leb,
  ◌==◌, length, if◌then◌else◌,
}
use quorin.Result.{Result, ok, err, value_error, key_error, redis_error, write_sync_timeout, ◌>>=◌}
use quorin.Schema.{FeatureField, FeatureSchema}
use quorin.Schema.Offsets.{OffsetRow}
use quorin.Schema.Table.{compile_schema}

abbrev pub max_entity_id_bytes : ℕ
max_entity_id_bytes = 256

-- The fields of a message of the stream
pub record Entry : Type 0 where
  pub schema_name : List ℕ
  pub entity_id : List ℕ
  pub event_time : ℕ
  pub blob : List ℕ

abbrev pub Stream : Type 0
Stream = List (ℕ × Entry)

-- A schema class, by its identity
pub record SchemaClass : Type 0 where
  pub identity : ℕ
  pub schema : FeatureSchema

pub record Producer : Type 0 where
  pub stream : Stream
  pub schema_name_cache : ℕ → Option (List ℕ)

-- `hash_to_name[h]`; of two names with one hash, the dict has the later.
unfoldable pub hash_to_name : (List ℕ → ℕ) → List FeatureField → ℕ → Option (List ℕ)
hash_to_name hash [] h = none
hash_to_name hash (f ∷ fs) h = elim (hash_to_name hash fs h) [
  | some name ↦ some name
  | none ↦ if hash f.name == h then some f.name else none
]

unfoldable pub named : Option (List ℕ) → Result (List ℕ)
named none = err key_error
named (some name) = ok name

-- The loop of `_build` over the compiled table
unfoldable pub order_of : (List ℕ → ℕ) → List FeatureField → List OffsetRow → Result (List (List ℕ))
order_of hash fields [] = ok []
order_of hash fields (r ∷ t) = do
  name ← named (hash_to_name hash fields r.name_hash)
  rest ← order_of hash fields t
  ok (name ∷ rest)

unfoldable pub field_order_for : (List ℕ → ℕ) → List FeatureField → Result (List (List ℕ))
field_order_for hash fields = do table ← compile_schema hash fields; order_of hash fields table

-- `_encoded_schema_name`
unfoldable pub encoded_schema_name : Producer → SchemaClass → Option (List ℕ) → List ℕ × Producer
encoded_schema_name p c (some cached) = (cached, p)
encoded_schema_name p c none =
    let encoded = c.schema.name in
    (
      encoded,
      record p {
        schema_name_cache = λ x. if x == c.identity then some encoded else p.schema_name_cache x;
      },
    )

-- `XADD`, as what Redis makes of the stream and the id it assigns, or an exception
module _ (hash : List ℕ → ℕ) (Values Value : Type 0)
    (validate : ℕ → Values → Result (List ℕ → Value)) (pack : List Value → List ℕ)
    (xadd : Stream → Entry → Result (ℕ × Stream)) where
  unfoldable pub written : Producer → Result (ℕ × Stream) → Producer × Result ℕ
  written p (err e) = (p, err e)
  written p (ok (msg_id, stream)) = (record p { stream = stream }, ok msg_id)

  unfoldable pub add_entry : List ℕ × Producer → List ℕ → ℕ → List ℕ → Producer × Result ℕ
  add_entry (name, p) id time blob =
      if ltb max_entity_id_bytes (length id)
      then (p, err value_error)
      else written p (
          xadd p.stream
            (record { schema_name = name; entity_id = id; event_time = time; blob = blob }))

  -- The packed values of the validated model, by name hash
  unfoldable pub packed_values : SchemaClass → Values → Result (List ℕ)
  packed_values c values = do
    order ← field_order_for hash c.schema.fields
    validated ← validate c.identity values
    ok (pack (map validated order))

  unfoldable pub write_packed :
      Producer → SchemaClass → List ℕ → ℕ → Result (List ℕ) → Producer × Result ℕ
  write_packed p c id time (err e) = (p, err e)
  write_packed p c id time (ok blob) =
      add_entry (encoded_schema_name p c (p.schema_name_cache c.identity)) id time blob

  -- `_do_write`; `time` is the event time, or the time of the clock where none was given
  unfoldable pub do_write : Producer → SchemaClass → List ℕ → Values → ℕ → Producer × Result ℕ
  do_write p c id values time = write_packed p c id time (packed_values c values)

-- What `EXISTS` answers in a round of the loop of `write_sync`; `none` where it raises
module _ (exists : ℕ → Option Bool) (monotonic : ℕ → ℕ) (deadline : ℕ) where
  -- What a round makes of the answer, with the rounds behind it
  unfoldable pub poll_round : ℕ → Option Bool → Bool → Option (Result ℕ) → Option (Result ℕ)
  poll_round msg_id none late rest = some (err redis_error)
  poll_round msg_id (some true) late rest = some (ok msg_id)
  poll_round msg_id (some false) true rest = some (err write_sync_timeout)
  poll_round msg_id (some false) false rest = rest

  -- The loop from a round on; `none` where the fuel runs out
  unfoldable pub poll : ℕ → ℕ → ℕ → Option (Result ℕ)
  poll msg_id zero round = none
  poll msg_id (suc fuel) round =
      poll_round msg_id (exists round) (leb deadline (monotonic round))
        (poll msg_id fuel (suc round))

-- `backoff` in a round
unfoldable pub backoff : ℕ → ℕ
backoff zero = 1000
backoff (suc round) = min (backoff round * 2) 10000

-- `write_sync` after `_do_write`, with the first reading of the clock
unfoldable pub wait_processed :
    (ℕ → Option Bool) → (ℕ → ℕ) → ℕ → ℕ → ℕ → Producer × Result ℕ → Producer × Option (Result ℕ)
wait_processed exists monotonic start timeout_ms fuel (p, err e) = (p, some (err e))
wait_processed exists monotonic start timeout_ms fuel (p, ok msg_id) =
    (p, poll exists monotonic (start + timeout_ms * 1000) msg_id fuel 0)

module _ (hash : List ℕ → ℕ) (Values Value : Type 0)
    (validate : ℕ → Values → Result (List ℕ → Value)) (pack : List Value → List ℕ)
    (xadd : Stream → Entry → Result (ℕ × Stream)) where
  unfoldable pub write_sync :
      (ℕ → Option Bool)
      → (ℕ → ℕ)
      → ℕ
      → ℕ
      → ℕ
      → Producer
      → SchemaClass
      → List ℕ
      → Values
      → ℕ
      → Producer × Option (Result ℕ)
  write_sync exists monotonic start timeout_ms fuel p c id values time =
      wait_processed exists monotonic start timeout_ms fuel
        (do_write hash Values Value validate pack xadd p c id values time)
