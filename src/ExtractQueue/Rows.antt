-- ===== src/ExtractQueue/Rows.antt =====
-- The table `extract_queue`, its status values, and the handle of a claimed row
-- (enfold/extract_queue.py: _SCHEMA, _ClaimedLeaseOwner, _lease_fence, _age_exceeded, the counts).
-- Instants are microseconds since the epoch; `created_at` is the second that strftime('%s') gives.
use holographic_plus.Base.{
  ℕ, ◌-◌, ◌*◌, String, Bool, true, false, ◌&&◌, Option, none, some, List, [], leb, ◌==◌, text_is,
  number_is, count,
}

pub data Status : Type 0 where
  pending processing dead : Status

unfoldable pub is_pending : Status → Bool
is_pending pending = true
is_pending _ = false

unfoldable pub is_processing : Status → Bool
is_processing processing = true
is_processing _ = false

unfoldable pub is_dead : Status → Bool
is_dead dead = true
is_dead _ = false

-- `status IN ('pending', 'processing')`
unfoldable pub is_active : Status → Bool
is_active dead = false
is_active _ = true

pub record Row : Type 0 where
  pub id : ℕ
  pub payload : String
  pub created_at : Option ℕ
  pub attempts : ℕ
  pub last_error : Option String
  pub status : Status
  pub not_before : Option ℕ
  pub lease_owner : Option String
  pub lease_until : Option ℕ
  pub payload_hash : Option String
  pub proposal_json : Option String

-- The table and the counter of its AUTOINCREMENT key.
pub record Queue : Type 0 where
  pub rows : List Row
  pub last_id : ℕ

abbrev pub empty : Queue
empty = record { rows = []; last_id = 0 }

abbrev pub second : ℕ
second = 1_000_000

abbrev pub max_row_age_seconds : ℕ
max_row_age_seconds = 48 * 3600

unfoldable pub age_exceeded : ℕ → Option ℕ → Bool
age_exceeded now none = false
age_exceeded now (some created_epoch) =
    leb (max_row_age_seconds * second) (now - created_epoch * second)

-- A lease owner as the callers pass it: a plain text has no fence, a claimed handle carries the
-- incarnation of its lease.
pub record LeaseOwner : Type 0 where
  pub owner : String
  pub fence : Option ℕ

unfoldable pub lease_fence : Option LeaseOwner → Option String × Option ℕ
lease_fence none = (none, none)
lease_fence (some handle) = (some handle.owner, handle.fence)

-- SQL's `lease_owner = ?`, where either side may be NULL.
unfoldable pub owner_is : Option String → Option String → Bool
owner_is column none = false
owner_is column (some owner) = text_is column owner

-- SQL's `(? IS NULL OR lease_until = ?)`.
unfoldable pub fence_is : Option ℕ → Option ℕ → Bool
fence_is column none = true
fence_is column (some lease_until) = number_is column lease_until

abbrev pub has_id : ℕ → Row → Bool
has_id row_id r = r.id == row_id

-- `WHERE id = ? AND status = 'processing' AND lease_owner = ? AND (? IS NULL OR lease_until = ?)`
unfoldable pub is_owned : ℕ → Option LeaseOwner → Row → Bool
unfolding is_processing lease_fence owner_is fence_is
is_owned row_id handle r =
    let (owner, lease_until) = lease_fence handle in
    has_id row_id r
    && is_processing r.status
    && owner_is r.lease_owner owner
    && fence_is r.lease_until lease_until

unfoldable pub pending_count : Queue → ℕ
unfolding is_active
pending_count q = count (λ r. is_active r.status) q.rows

unfoldable pub dead_count : Queue → ℕ
unfolding is_dead
dead_count q = count (λ r. is_dead r.status) q.rows
