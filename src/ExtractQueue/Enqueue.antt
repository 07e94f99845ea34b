-- ===== src/ExtractQueue/Enqueue.antt =====
-- `ExtractQueue.enqueue`.
use holographic_plus.Base.{
  ℕ, ◌+◌, String, Bool, ◌&&◌, ◌||◌, Option, none, some, List, [], ◌∷◌, ◌++◌, leb, is_none, text_is,
  str_eq, if◌then◌else◌, Result, ok, raise, integrity_error, any,
}
use holographic_plus.ExtractQueue.Rows.{Row, Queue, pending, is_active}
use holographic_plus.ExtractQueue.Payload.{Transcript, Codec, Prepared, payload_hash, prepare}

-- The row of the least id among those that meet the condition: `ORDER BY id LIMIT 1`.
unfoldable pub oldest : (Row → Bool) → List Row → Option Row
oldest p [] = none
oldest p (r ∷ rs) =
    let rest = oldest p rs in
    if p r
    then (elim rest [ none ↦ some r | some s ↦ if leb r.id s.id then some r else some s ])
    else rest

-- `payload_hash = ? OR (payload_hash IS NULL AND payload = ?)` of an active row
unfoldable pub is_copy : String → String → Row → Bool
unfolding is_active
is_copy hash payload r =
    is_active r.status
    && (text_is r.payload_hash hash || (is_none r.payload_hash && str_eq r.payload payload))

-- What the partial unique index compares: an active row with this hash.
unfoldable pub is_active_hash : String → Row → Bool
unfolding is_active
is_active_hash hash r = is_active r.status && text_is r.payload_hash hash

-- The row that `INSERT` adds: the defaults of the schema for the columns not given.
abbrev pub new_row : ℕ → ℕ → String → String → Row
new_row id created payload hash = record {
  id = id;
  payload = payload;
  created_at = some created;
  attempts = 0;
  last_error = none;
  status = pending;
  not_before = none;
  lease_owner = none;
  lease_until = none;
  payload_hash = some hash;
  proposal_json = none;
}

abbrev pub insert_row : ℕ → String → String → Queue → Queue
insert_row created payload hash q = record q {
  rows = q.rows ++ new_row (q.last_id + 1) created payload hash ∷ [];
  last_id = q.last_id + 1;
}

-- `INSERT OR IGNORE`, and the answer to a row count of 0.
unfoldable pub insert_or_ignore : ℕ → String → String → Queue → Queue × Result ℕ
unfolding is_active_hash
insert_or_ignore created payload hash q =
    if any (is_active_hash hash) q.rows
    then (elim (oldest (is_active_hash hash) q.rows) [
      | none ↦ (q, raise integrity_error)
      | some r ↦ (q, ok r.id)
    ])
    else (insert_row created payload hash q, ok (q.last_id + 1))

unfoldable pub enqueue_prepared : ℕ → String → String → Queue → Queue × Result ℕ
unfolding is_copy insert_or_ignore
enqueue_prepared created payload hash q = elim (oldest (is_copy hash payload) q.rows) [
  | some existing ↦ (q, ok existing.id)
  | none ↦ insert_or_ignore created payload hash q
]

unfoldable pub enqueue_result : Codec → ℕ → Result Prepared → Queue → Queue × Result ℕ
unfolding enqueue_prepared
enqueue_result codec created (raise e) q = (q, raise e)
enqueue_result codec created (ok p) q =
    enqueue_prepared created p.payload (payload_hash codec p.role_structured p.payload) q

-- `created` is the second at which the database stamps the row.
unfoldable pub enqueue : Codec → ℕ → Transcript → Queue → Queue × Result ℕ
unfolding enqueue_result
enqueue codec created transcript q = enqueue_result codec created (prepare codec transcript) q
