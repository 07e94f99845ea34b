-- ===== src/Temporal/Visible.antt =====
-- What as-of reads see of a superseded fact.
use holographic_plus.Base.{ℕ, ◌≡◌, refl, String, Bool, false, ◌&&◌, Option, none, some, arith}
use holographic_plus.Timestamps.{FromIso, parse_clock}
use holographic_plus.FactStore.{Fact}
use holographic_plus.Temporal.Supersede.{invalidate}
use holographic_plus.Temporal.AsOf.{
  starts_by, runs_past, at_point, matches_valid, row_matches_as_of,
}

-- A read at a point in time, without a transaction time, of a fact that nothing has retired: its
-- interval is closed at its start and open at its end.
pub current_as_of :
    (iso : FromIso) (f : Fact) (text : String) {point : ℕ}
    → f.invalid_at ≡ none
    → f.superseded_by ≡ none
    → f.expired_at ≡ none
    → parse_clock iso (some text) ≡ some point
    → row_matches_as_of iso f (some text) none ≡ (
        starts_by (parse_clock iso f.valid_from) point
        && runs_past (parse_clock iso f.valid_to) point)
unfolding row_matches_as_of
current_as_of iso f text valid alone kept read = rw (read, valid, alone, kept) (ground arith)

at_never :
    (iso : FromIso) (o : Option ℕ) (p : ℕ → Bool)
    → ((point : ℕ) → p point ≡ false)
    → at_point iso o p ≡ false
at_never iso none p h = refl
at_never iso (some point) p h = h point

hidden_at :
    (iso : FromIso) (f : Fact) (now : String) (new : ℕ) (from : Option String) (point : ℕ)
    → matches_valid iso (invalidate now new from f) false point ≡ false
unfolding matches_valid
hidden_at iso f now new from point = ground arith

-- A superseded fact is gone from every read without a transaction time.
superseded_hidden :
    (iso : FromIso) (f : Fact) (now text : String) (new : ℕ) (from : Option String)
    → row_matches_as_of iso (invalidate now new from f) (some text) none ≡ false
unfolding row_matches_as_of
superseded_hidden iso f now text new from = ground (
  arith,
  at_never iso (parse_clock iso (some text)) (matches_valid iso (invalidate now new from f) false)
      (hidden_at iso f now new from),
)
