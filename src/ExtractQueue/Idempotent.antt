-- ===== src/ExtractQueue/Idempotent.antt =====
-- `enqueue` keeps one active copy of a payload, bounds what it stores, and fails only on bad input.
use Prim.Native.String
use holographic_plus.Base.{
  ℕ, ◌+◌, ◌≤◌, ◌≡◌, refl, sym, ap, ◌∙◌, String, Bool, true, false, none, some, List, [], ◌∷◌, ◌++◌,
  any, count, arith, Bool-cases, Option-cases, inl, inr, Result, ok, raise, Error, value_error,
  utf8_tail, count_of_any, str_eq_refl, count_mono,
}
use holographic_plus.ExtractQueue.Rows.{Row, Queue}
use holographic_plus.ExtractQueue.Payload.{
  Transcript, text, turns, Codec, Prepared, prepare, check_turns, max_payload_bytes,
}
use holographic_plus.ExtractQueue.Enqueue.{
  oldest, is_copy, is_active_hash, new_row, insert_row, insert_or_ignore, enqueue_prepared,
  enqueue_result, enqueue,
}
use holographic_plus.ExtractQueue.Oldest.{oldest-none}

-- Where no active row is a copy, the index ignores no insertion.
never_ignored :
    (q : Queue) (payload hash : String)
    → oldest (is_copy hash payload) q.rows ≡ none
    → any (is_active_hash hash) q.rows ≡ false
unfolding is_copy is_active_hash
never_ignored q payload hash absent = elim (Bool-cases (any (is_active_hash hash) q.rows)) [
  | inr e ↦ e
  | inl e ↦
      let below : count (is_active_hash hash) q.rows ≤ count (is_copy hash payload) q.rows =
        count_mono _ _ q.rows (λ r h. ground arith) in
      absurd (
        omega (
          arith,
          count_of_any (is_active_hash hash) q.rows e,
          oldest-none (is_copy hash payload) q.rows absent,
        ))
]

-- What `enqueue` does: an active copy is returned, else a new pending row is added at the end.
pub enqueue_prepared_new :
    (q : Queue) (created : ℕ) (payload hash : String)
    → oldest (is_copy hash payload) q.rows ≡ none
    → enqueue_prepared created payload hash q
      ≡ (insert_row created payload hash q, ok (q.last_id + 1))
unfolding enqueue_prepared insert_or_ignore
enqueue_prepared_new q created payload hash absent =
    rw (absent, enqueue_prepared) (rw (never_ignored q payload hash absent))

pub enqueue_prepared_old :
    (q : Queue) (created : ℕ) (payload hash : String) {r : Row}
    → oldest (is_copy hash payload) q.rows ≡ some r
    → enqueue_prepared created payload hash q ≡ (q, ok r.id)
unfolding enqueue_prepared
enqueue_prepared_old q created payload hash e = rw (e, enqueue_prepared)

-- The new row is the only copy in the table that it was added to.
oldest_snoc :
    (p : Row → Bool) (rows : List Row) (r : Row)
    → oldest p rows ≡ none
    → p r ≡ true
    → oldest p (rows ++ r ∷ []) ≡ some r
unfolding oldest
oldest_snoc p [] r absent h = rw h
oldest_snoc p (x ∷ xs) r absent h = elim (Option-cases (oldest p xs)) [
  | inl e ↦ ground (arith, oldest_snoc p xs r e h)
  | inr (s, e) ↦ ground arith
]

new_is_copy :
    (i t : ℕ) (payload hash : String) → is_copy hash payload (new_row i t payload hash) ≡ true
unfolding is_copy
new_is_copy i t payload hash = ground (arith, str_eq_refl hash)

prepared_twice :
    (q : Queue) (t t' : ℕ) (payload hash : String)
    → let (q', result) = enqueue_prepared t payload hash q in
      enqueue_prepared t' payload hash q' ≡ (q', result)
prepared_twice q t t' payload hash = elim (Option-cases (oldest (is_copy hash payload) q.rows)) [
  | inr (r, e) ↦
      rw (enqueue_prepared_old q t payload hash e) (enqueue_prepared_old q t' payload hash e)
  | inl absent ↦ rw (enqueue_prepared_new q t payload hash absent) (
      enqueue_prepared_old (insert_row t payload hash q) t' payload hash (
        oldest_snoc (is_copy hash payload) q.rows (new_row (q.last_id + 1) t payload hash) absent
          (new_is_copy (q.last_id + 1) t payload hash)))
]

-- Enqueuing the same transcript a second time, with no operation between, changes nothing and gives
-- the same answer.
pub enqueue_twice :
    (q : Queue) (codec : Codec) (t t' : ℕ) (transcript : Transcript)
    → let (q', result) = enqueue codec t transcript q in
      enqueue codec t' transcript q' ≡ (q', result)
unfolding enqueue enqueue_result
enqueue_twice q codec t t' transcript = go (prepare codec transcript)
  where
    go :
        (p : Result Prepared)
        → let (q', result) = enqueue_result codec t p q in
          enqueue_result codec t' p q' ≡ (q', result)
    go (raise e) = refl
    go (ok p) = prepared_twice q t t' p.payload _

utf8_tail-le : (limit : ℕ) (s : String) → String.len (utf8_tail limit s) ≤ limit
unfolding utf8_tail
utf8_tail-le limit String.[] = omega arith
utf8_tail-le limit (String.◌∷◌ c s) = ground (arith, utf8_tail-le limit s)

-- No prepared payload has more bytes than the limit.
pub prepare-le :
    (codec : Codec) (transcript : Transcript) {p : Prepared}
    → prepare codec transcript ≡ ok p
    → String.len p.payload ≤ max_payload_bytes
unfolding prepare check_turns
prepare-le codec (text s) h = ground (arith, utf8_tail-le max_payload_bytes s)
prepare-le codec (turns []) h = cc
prepare-le codec (turns (t ∷ ts)) h = ground arith

prepare-raise :
    (codec : Codec) (transcript : Transcript) {e : Error}
    → prepare codec transcript ≡ raise e
    → e ≡ value_error
unfolding prepare check_turns
prepare-raise codec (text s) h = cc
prepare-raise codec (turns []) h = cc
prepare-raise codec (turns (t ∷ ts)) h = ground arith

ok-ne-raise : {i : ℕ} {e : Error} → Result.ok i ≡ raise e → ⊥
ok-ne-raise h = cc

prepared_succeeds :
    (q : Queue) (t : ℕ) (payload hash : String)
    → (i : ℕ) × ((enqueue_prepared t payload hash q).1 ≡ ok i)
prepared_succeeds q t payload hash = elim (Option-cases (oldest (is_copy hash payload) q.rows)) [
  | inr (r, e) ↦
      (r.id, ap (λ (x : Queue × Result ℕ). x.1) (enqueue_prepared_old q t payload hash e))
  | inl absent ↦ (
    q.last_id + 1,
    ap (λ (x : Queue × Result ℕ). x.1) (enqueue_prepared_new q t payload hash absent),
  )
]

-- The integrity error of the code's defensive branch is never raised: where `enqueue` raises, it is
-- a value error of the preparation, and nothing has changed.
enqueue-raise :
    (q : Queue) (codec : Codec) (t : ℕ) (transcript : Transcript) {e : Error}
    → (enqueue codec t transcript q).1 ≡ raise e
    → (e ≡ value_error)
      × (prepare codec transcript ≡ raise e)
      × ((enqueue codec t transcript q).0 ≡ q)
unfolding enqueue
enqueue-raise q codec t transcript {e} h = go (prepare codec transcript) refl h
  where
    success : (p : Prepared) → (i : ℕ) × ((enqueue_result codec t (ok p) q).1 ≡ ok i)
    success p = prepared_succeeds q t p.payload _

    go :
        (p : Result Prepared)
        → prepare codec transcript ≡ p
        → (enqueue_result codec t p q).1 ≡ raise e
        → (e ≡ value_error)
          × (prepare codec transcript ≡ raise e)
          × ((enqueue_result codec t p q).0 ≡ q)
    go (raise f) is h =
        let same : f ≡ e = cc in
        (prepare-raise codec transcript (is ∙ ap raise same), is ∙ ap raise same, refl)
    go (ok p) is h = absurd (ok-ne-raise (sym (success p).1 ∙ h))
