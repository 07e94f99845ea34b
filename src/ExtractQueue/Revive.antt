-- ===== src/ExtractQueue/Revive.antt =====
-- `revive_dead` and `revive_recent_quota_dead`.
use mathlib.Core.Option
use holographic_plus.Base.{
  ℕ, ◌-◌, ◌/◌, String, Bool, true, false, not, ◌&&◌, Option, none, some, List, map, ltb, ◌==◌,
  value_or, text_is, number_is, any, count, select, update_where, concat,
}
use holographic_plus.ExtractQueue.Rows.{Row, Queue, pending, is_dead, second, max_row_age_seconds}
use holographic_plus.ExtractQueue.Enqueue.{oldest, is_active_hash}
use holographic_plus.ExtractQueue.Finish.{is_quota_error}

abbrev pub revived_row : Row → Row
revived_row r = record r {
  status = pending;
  attempts = 0;
  not_before = none;
  lease_owner = none;
  lease_until = none;
  last_error = some (concat (value_or r.last_error "") " (revived)");
}

abbrev pub is_dead_hash : String → Row → Bool
is_dead_hash hash r = is_dead r.status && text_is r.payload_hash hash

-- Of the rows with the candidate's hash: it is the oldest dead one, and none is active. The
-- subqueries read the table as it stands before the update.
unfoldable pub may_revive : List Row → Option String → ℕ → Bool
unfolding is_active_hash is_dead
may_revive rows none id = true
may_revive rows (some hash) id =
    number_is (Option.map (λ (r : Row). r.id) (oldest (is_dead_hash hash) rows)) id
    && not (any (is_active_hash hash) rows)

-- `None` stands for every dead row.
abbrev pub is_listed : Option (List ℕ) → ℕ → Bool
is_listed none id = true
is_listed (some ids) id = any (λ i. id == i) ids

unfoldable pub is_revivable : List Row → Option (List ℕ) → Row → Bool
unfolding is_dead
is_revivable rows ids r =
    is_dead r.status && may_revive rows r.payload_hash r.id && is_listed ids r.id

-- An empty list of ids returns early with the same answer: no row is listed.
unfoldable pub revive_dead : Option (List ℕ) → Queue → Queue × ℕ
unfolding is_revivable
revive_dead ids q = (
  record q { rows = update_where (is_revivable q.rows ids) revived_row q.rows },
  count (is_revivable q.rows ids) q.rows,
)

-- `strftime('%s', 'now') - strftime('%s', created_at) < ?`
abbrev pub is_recent : ℕ → Option ℕ → Bool
is_recent now none = false
is_recent now (some created) = ltb (now / second - created) max_row_age_seconds

unfoldable pub recent_quota_dead : ℕ → List Row → List ℕ
unfolding is_dead is_quota_error
recent_quota_dead now rows =
    map (λ r. r.id)
      (select (λ r. is_dead r.status && is_recent now r.created_at && is_quota_error r.last_error)
        rows)

unfoldable pub revive_recent_quota_dead : ℕ → Queue → Queue × ℕ
unfolding recent_quota_dead revive_dead
revive_recent_quota_dead now q = revive_dead (some (recent_quota_dead now q.rows)) q
