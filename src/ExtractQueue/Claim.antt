-- ===== src/ExtractQueue/Claim.antt =====
-- `ExtractQueue.next_pending`: claim the oldest row that is due.
use holographic_plus.Base.{
  ℕ, ◌+◌, String, Bool, true, false, not, ◌&&◌, ◌||◌, Option, none, some, List, leb, ltb, ◌==◌,
  is_empty, text_is, value_or, find, any, count, update_where, if◌then◌else◌,
}
use holographic_plus.ExtractQueue.Rows.{
  Row, Queue, LeaseOwner, processing, is_pending, is_processing, has_id,
}
use holographic_plus.ExtractQueue.Payload.{Codec, payload_hash}
use holographic_plus.ExtractQueue.Enqueue.{oldest}

pub record Claim : Type 0 where
  pub id : ℕ
  pub payload : String
  pub attempts : ℕ
  pub lease_owner : LeaseOwner
  pub lease_until : ℕ
  pub proposal_json : Option String
  pub role_structured : Bool

-- `not_before IS NULL OR not_before <= ?`
abbrev pub reached : Option ℕ → ℕ → Bool
reached none now = true
reached (some t) now = leb t now

-- `lease_until IS NOT NULL AND lease_until <= ?`
abbrev pub lapsed : Option ℕ → ℕ → Bool
lapsed none now = false
lapsed (some t) now = leb t now

-- The condition of the query and of the update that claims its row.
unfoldable pub is_due : ℕ → ℕ → Row → Bool
unfolding is_pending is_processing
is_due max_attempts now r =
    ltb r.attempts max_attempts
    && reached r.not_before now
    && (is_pending r.status || (is_processing r.status && lapsed r.lease_until now))

-- `lease_owner or f"{thread}-{uuid}"`; the generated name is an argument.
unfoldable pub choose_owner : String → Option String → String
choose_owner generated none = generated
choose_owner generated (some owner) = if is_empty owner then generated else owner

abbrev pub lease : String → ℕ → Row → Row
lease owner lease_until r = record r {
  status = processing;
  lease_owner = some owner;
  lease_until = some lease_until;
}

abbrev pub claim_of : Codec → Row → Claim
claim_of codec r = record {
  id = r.id;
  payload = r.payload;
  attempts = r.attempts;
  lease_owner = record {
    owner = value_or r.lease_owner "None";
    fence = some (value_or r.lease_until 0);
  };
  lease_until = value_or r.lease_until 0;
  proposal_json = r.proposal_json;
  role_structured = text_is r.payload_hash (payload_hash codec true r.payload);
}

-- The arguments of one call: the caller's, the generated owner and the clock.
pub record ClaimRequest : Type 0 where
  pub max_attempts : ℕ
  pub exclude_ids : List ℕ
  pub lease_owner : Option String
  pub lease_seconds : ℕ
  pub generated : String
  pub now : ℕ

unfoldable pub is_candidate : ClaimRequest → Row → Bool
unfolding is_due
is_candidate c r = is_due c.max_attempts c.now r && not (any (λ i. r.id == i) c.exclude_ids)

-- The `UPDATE` on the row found, whose row count must be 1, and the query of the claimed row.
unfoldable pub take_lease : Codec → ClaimRequest → ℕ → Queue → Queue × Option Claim
unfolding is_due choose_owner payload_hash
take_lease codec c row_id q =
    let claimable : Row → Bool = λ r. has_id row_id r && is_due c.max_attempts c.now r in
    let owner = choose_owner c.generated c.lease_owner in
    let rows = update_where claimable (lease owner (c.now + c.lease_seconds)) q.rows in
    if count claimable q.rows == 1
    then (elim (find (has_id row_id) rows) [
      | none ↦ (record q { rows = rows }, none)
      | some claimed ↦ (record q { rows = rows }, some (claim_of codec claimed))
    ])
    else (q, none)

-- `lease_seconds` is in microseconds, as all instants.
unfoldable pub next_pending : Codec → ClaimRequest → Queue → Queue × Option Claim
unfolding is_candidate take_lease
next_pending codec c q = elim (oldest (is_candidate c) q.rows) [
  | none ↦ (q, none)
  | some r ↦ take_lease codec c r.id q
]
