-- ===== src/ExtractQueue/Preserved.antt =====
-- Every operation of the queue keeps the invariant.
use holographic_plus.Base.{
  ℕ, ◌+◌, ◌≡◌, refl, ap, String, Bool, true, false, Option, List, [], ◌∷◌, if◌then◌else◌, any, find,
  count, update_where, count-append, arith, Bool-cases, Option-cases, inl, inr, str_eq_iff, Result,
  ok, raise, count_of_not-any,
}
use holographic_plus.ExtractQueue.Rows.{
  Row, Queue, LeaseOwner, is_active, is_owned, has_id, pending, dead, age_exceeded,
}
use holographic_plus.ExtractQueue.Payload.{Transcript, Codec, Prepared, prepare}
use holographic_plus.ExtractQueue.Enqueue.{
  oldest, is_copy, is_active_hash, new_row, insert_row, insert_or_ignore, enqueue_prepared,
  enqueue_result, enqueue,
}
use holographic_plus.ExtractQueue.Finish.{
  Screen, keep_first, is_unchanged, failed_row, released_row, holds_claim, mark_done,
  save_proposals, mark_failed, mark_quota_failed, release_claim,
}
use holographic_plus.ExtractQueue.WellFormed.{
  IsWellFormed, breaks_lease, update-IsWellFormed, delete-IsWellFormed,
}

insert_row-IsWellFormed :
    {q : Queue} (created : ℕ) (payload hash : String)
    → IsWellFormed q
    → any (is_active_hash hash) q.rows ≡ false
    → IsWellFormed (insert_row created payload hash q)
unfolding count is_active_hash breaks_lease
insert_row-IsWellFormed {q} created payload hash w free = record {
  ids_unique = λ i.
      ground (arith, count-append (has_id i) q.rows (row ∷ []), w.ids_unique i, w.ids_bounded i);
  ids_bounded = λ i h. ground (arith, count-append (has_id i) q.rows (row ∷ []), w.ids_bounded i);
  hashes_unique = λ h. ground (
    arith,
    count-append (is_active_hash h) q.rows (row ∷ []),
    w.hashes_unique h,
    count_of_not-any (is_active_hash hash) q.rows free,
    str_eq_iff hash h,
    ap (λ k. count (is_active_hash k) q.rows) {x = hash} {y = h},
  );
  leases_kept = ground (arith, count-append breaks_lease q.rows (row ∷ []), w.leases_kept);
}
  where
    row : Row
    row = new_row (q.last_id + 1) created payload hash

insert_or_ignore-IsWellFormed :
    {q : Queue} (created : ℕ) (payload hash : String)
    → IsWellFormed q
    → IsWellFormed (insert_or_ignore created payload hash q).0
unfolding insert_or_ignore
insert_or_ignore-IsWellFormed {q} created payload hash w =
    elim (Bool-cases (any (is_active_hash hash) q.rows)) [
      | inr free ↦ rw free (insert_row-IsWellFormed created payload hash w free)
      | inl taken ↦ rw taken (elim (Option-cases (oldest (is_active_hash hash) q.rows)) [
        | inl e ↦ rw (e, insert_or_ignore) w
        | inr (r, e) ↦ rw (e, insert_or_ignore) w
      ])
    ]

enqueue_prepared-IsWellFormed :
    {q : Queue} (created : ℕ) (payload hash : String)
    → IsWellFormed q
    → IsWellFormed (enqueue_prepared created payload hash q).0
unfolding enqueue_prepared
enqueue_prepared-IsWellFormed {q} created payload hash w =
    elim (Option-cases (oldest (is_copy hash payload) q.rows)) [
      | inr (r, found) ↦ rw (found, enqueue_prepared) w
      | inl absent ↦
          rw (absent, enqueue_prepared) (insert_or_ignore-IsWellFormed created payload hash w)
    ]

pub enqueue-IsWellFormed :
    {q : Queue} (codec : Codec) (created : ℕ) (transcript : Transcript)
    → IsWellFormed q
    → IsWellFormed (enqueue codec created transcript q).0
unfolding enqueue enqueue_result
enqueue-IsWellFormed {q} codec created transcript w = go (prepare codec transcript)
  where
    go : (p : Result Prepared) → IsWellFormed (enqueue_result codec created p q).0
    go (ok p) = enqueue_prepared-IsWellFormed created p.payload _ w
    go (raise e) = w

pub mark_done-IsWellFormed :
    {q : Queue} (row_id : ℕ) (handle : Option LeaseOwner)
    → IsWellFormed q
    → IsWellFormed (mark_done row_id handle q).0
unfolding mark_done
mark_done-IsWellFormed row_id handle w = delete-IsWellFormed _ w

pub save_proposals-IsWellFormed {ℓ} :
    {P : Type ℓ} {q : Queue} (screen : Screen P) (row_id : ℕ) (proposals : List P)
    (handle : Option LeaseOwner)
    → IsWellFormed q
    → IsWellFormed (save_proposals screen row_id proposals handle q).0
unfolding save_proposals is_active_hash breaks_lease
save_proposals-IsWellFormed screen row_id proposals handle w =
    update-IsWellFormed _ (keep_first _) w (λ r. refl) (λ r h owned active. active)
      (λ r owned broken. broken)

-- The rows that these updates change are processing, so active before.
was_active :
    (row_id : ℕ) (handle : Option LeaseOwner) (r : Row)
    → is_owned row_id handle r ≡ true
    → is_active r.status ≡ true
unfolding is_owned is_active
was_active row_id handle r h = ground arith

active_before :
    (row_id : ℕ) (handle : Option LeaseOwner) (r r' : Row) (h : String)
    → is_owned row_id handle r ≡ true
    → r'.payload_hash ≡ r.payload_hash
    → is_active_hash h r' ≡ true
    → is_active_hash h r ≡ true
unfolding is_active_hash
active_before row_id handle r r' h owned same active =
    ground (arith, was_active row_id handle r owned)

pub release_claim-IsWellFormed :
    {q : Queue} (row_id : ℕ) (handle : Option LeaseOwner)
    → IsWellFormed q
    → IsWellFormed (release_claim row_id handle q).0
unfolding release_claim breaks_lease
release_claim-IsWellFormed row_id handle w =
    update-IsWellFormed _ released_row w (λ r. refl)
      (λ r h owned. active_before row_id handle r (released_row r) h owned refl)
      (λ r owned broken. cc)

unchanged_owned :
    (row_id : ℕ) (handle : Option LeaseOwner) (attempts : ℕ) (r : Row)
    → is_unchanged row_id handle attempts r ≡ true
    → is_owned row_id handle r ≡ true
unfolding is_unchanged
unchanged_owned row_id handle attempts r h = ground arith

-- The updates of `mark_failed` and `mark_quota_failed`, whichever fields they write.
finish-IsWellFormed :
    {q : Queue} (row_id : ℕ) (handle : Option LeaseOwner) (attempts : ℕ) (f : Row → Row)
    → ((r : Row) → ((f r).id ≡ r.id) × ((f r).payload_hash ≡ r.payload_hash))
    → ((r : Row) → breaks_lease (f r) ≡ false)
    → IsWellFormed q
    → IsWellFormed (record q { rows = update_where (is_unchanged row_id handle attempts) f q.rows })
finish-IsWellFormed row_id handle attempts f same clear w =
    update-IsWellFormed _ f w (λ r. (same r).0)
      (λ r h c.
        active_before row_id handle r (f r) h (unchanged_owned row_id handle attempts r c)
          (same r).1)
      (λ r c broken. cc (clear r))

failed_row_clear :
    (attempts : ℕ) (message : String) (b c : Bool) (r : Row)
    → breaks_lease (failed_row attempts message (if b then dead else if c then dead else pending) r)
      ≡ false
unfolding breaks_lease
failed_row_clear attempts message b c r = ground arith

pub mark_failed-IsWellFormed :
    {q : Queue} (now row_id : ℕ) (error : Option String) (max_attempts : ℕ)
    (handle : Option LeaseOwner)
    → IsWellFormed q
    → IsWellFormed (mark_failed now row_id error max_attempts handle q).0
unfolding mark_failed
mark_failed-IsWellFormed {q} now row_id error max_attempts handle w =
    elim (Option-cases (find (has_id row_id) q.rows)) [
      | inl absent ↦ rw (absent, mark_failed) w
      | inr (row, found) ↦
          rw (found, mark_failed)
            (elim (Bool-cases (holds_claim handle row)) [
              | inl mine ↦ rw mine (
                  finish-IsWellFormed row_id handle row.attempts _ (λ r. (refl, refl))
                    (failed_row_clear _ _ _ _) w)
              | inr other ↦ rw other w
            ])
    ]

pub mark_quota_failed-IsWellFormed :
    {q : Queue} (now row_id : ℕ) (error : Option String) (not_before : ℕ)
    (handle : Option LeaseOwner)
    → IsWellFormed q
    → IsWellFormed (mark_quota_failed now row_id error not_before handle q).0
unfolding mark_quota_failed breaks_lease
mark_quota_failed-IsWellFormed {q} now row_id error not_before handle w =
    elim (Option-cases (find (has_id row_id) q.rows)) [
      | inl absent ↦ rw (absent, mark_quota_failed) w
      | inr (row, found) ↦
          rw (found, mark_quota_failed)
            (elim (Bool-cases (holds_claim handle row)) [
              | inr other ↦ rw other w
              | inl mine ↦ rw mine (elim (Bool-cases (age_exceeded now row.created_at)) [
                | inl old ↦ rw old (
                    finish-IsWellFormed row_id handle row.attempts _ (λ r. (refl, refl)) (λ r. refl)
                      w)
                | inr young ↦ rw young (
                    finish-IsWellFormed row_id handle row.attempts _ (λ r. (refl, refl)) (λ r. refl)
                      w)
              ])
            ])
    ]
