-- ===== src/ExtractQueue/Finish.antt =====
-- What the owner of a claim reports: `mark_done`, `save_proposals`, `mark_failed`,
-- `mark_quota_failed`, `release_claim`, and the classification `is_quota_error`.
use holographic_plus.Base.{
  ℕ, ◌+◌, String, Bool, false, not, ◌&&◌, ◌||◌, Option, none, some, List, [], ◌∷◌, map, leb, ◌==◌,
  is_none, coalesce, value_or, same_text, same_number, find, any, count, select, update_where,
  codes, lower_code, contains, take_chars, concat, if◌then◌else◌,
}
use holographic_plus.ExtractQueue.Rows.{
  Row, Queue, Status, LeaseOwner, pending, dead, is_processing, has_id, is_owned, lease_fence,
  age_exceeded,
}

abbrev pub quota_error_patterns : List String
quota_error_patterns = "429" ∷ "usage_limit_reached" ∷ "usage_limit" ∷ "rate limit" ∷ "quota" ∷ []

unfoldable pub is_quota_error : Option String → Bool
is_quota_error error =
    let text = map lower_code (codes (value_or error "")) in
    any (λ pattern. contains text (codes pattern)) quota_error_patterns

unfoldable pub mark_done : ℕ → Option LeaseOwner → Queue → Queue × Bool
unfolding is_owned
mark_done row_id handle q = (
  record q { rows = select (λ r. not (is_owned row_id handle r)) q.rows },
  count (is_owned row_id handle) q.rows == 1,
)

-- What `save_proposals` uses of the screen and of the JSON encoder.
pub record Screen {ℓ} (Proposal : Type ℓ) : Type ℓ where
  pub credential_shaped : Proposal → Bool
  pub json : List Proposal → String

abbrev pub keep_first : String → Row → Row
keep_first encoded r = record r { proposal_json = coalesce r.proposal_json (some encoded) }

unfoldable pub save_proposals {ℓ} :
    {P : Type ℓ} → Screen P → ℕ → List P → Option LeaseOwner → Queue → Queue × Bool
unfolding is_owned
save_proposals screen row_id proposals handle q =
    let safe = select (λ p. not (screen.credential_shaped p)) proposals in
    (
      record q {
        rows = update_where (is_owned row_id handle) (keep_first (screen.json safe)) q.rows;
      },
      count (is_owned row_id handle) q.rows == 1,
    )

-- The guard in Python before the update: `None != None` is false here.
unfoldable pub holds_claim : Option LeaseOwner → Row → Bool
unfolding is_processing lease_fence
holds_claim handle r =
    let (owner, lease_until) = lease_fence handle in
    is_processing r.status
    && same_text r.lease_owner owner
    && (is_none lease_until || same_number r.lease_until lease_until)

-- `(error or "")[:500]`
unfoldable pub message_of : Option String → String
message_of error = take_chars 500 (value_or error "")

abbrev pub age_cap_note : String
age_cap_note = " (dead: 48h age cap)"

-- The condition of the updates after that guard.
unfoldable pub is_unchanged : ℕ → Option LeaseOwner → ℕ → Row → Bool
unfolding is_owned
is_unchanged row_id handle attempts r = is_owned row_id handle r && r.attempts == attempts

-- An update with a condition, and its row count.
abbrev pub update_rows : (Row → Bool) → (Row → Row) → Queue → Queue × ℕ
update_rows p f q = (record q { rows = update_where p f q.rows }, count p q.rows)

abbrev pub failed_row : ℕ → String → Status → Row → Row
failed_row attempts message status r = record r {
  attempts = attempts;
  last_error = some message;
  status = status;
  lease_owner = none;
  lease_until = none;
}

unfoldable pub failed_status : ℕ → ℕ → ℕ → Option ℕ → Status
unfolding age_exceeded
failed_status now attempts max_attempts created_at =
    if age_exceeded now created_at
    then dead
    else if leb max_attempts attempts
    then dead
    else pending

unfoldable pub failed_message : ℕ → Option String → Option ℕ → String
unfolding age_exceeded message_of
failed_message now error created_at =
    if age_exceeded now created_at then concat (message_of error) age_cap_note else message_of error

unfoldable pub mark_failed : ℕ → ℕ → Option String → ℕ → Option LeaseOwner → Queue → Queue × ℕ
unfolding holds_claim is_unchanged failed_status failed_message
mark_failed now row_id error max_attempts handle q = elim (find (has_id row_id) q.rows) [
  | none ↦ (q, 0)
  | some row ↦
      let attempts = row.attempts + 1 in
      let message = failed_message now error row.created_at in
      let status = failed_status now attempts max_attempts row.created_at in
      let (after, changed) =
        update_rows (is_unchanged row_id handle row.attempts) (failed_row attempts message status)
          q in
      if holds_claim handle row then (after, if changed == 1 then attempts else 0) else (q, 0)
]

abbrev pub capped_row : String → Row → Row
capped_row message r = record r {
  last_error = some message;
  status = dead;
  not_before = none;
  lease_owner = none;
  lease_until = none;
}

abbrev pub postponed_row : String → ℕ → Row → Row
postponed_row message not_before r = record r {
  last_error = some message;
  not_before = some not_before;
  status = pending;
  lease_owner = none;
  lease_until = none;
}

unfoldable pub mark_quota_failed :
    ℕ → ℕ → Option String → ℕ → Option LeaseOwner → Queue → Queue × Bool
unfolding holds_claim is_unchanged age_exceeded message_of
mark_quota_failed now row_id error not_before handle q = elim (find (has_id row_id) q.rows) [
  | none ↦ (q, false)
  | some row ↦
      let unchanged = is_unchanged row_id handle row.attempts in
      let message = message_of error in
      let (capped, _) = update_rows unchanged (capped_row (concat message age_cap_note)) q in
      let (postponed, changed) = update_rows unchanged (postponed_row message not_before) q in
      if holds_claim handle row
      then (if age_exceeded now row.created_at then (capped, false) else (postponed, changed == 1))
      else (q, false)
]

abbrev pub released_row : Row → Row
released_row r = record r { status = pending; lease_owner = none; lease_until = none }

unfoldable pub release_claim : ℕ → Option LeaseOwner → Queue → Queue × Bool
unfolding is_owned
release_claim row_id handle q =
    let (after, changed) = update_rows (is_owned row_id handle) released_row q in
    (after, changed == 1)
