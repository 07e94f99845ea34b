-- ===== src/WriteService/Sessions.antt =====
-- The statements on facts and conflicts leave the sessions alone.
use holographic_plus.Base.{List, str_eq, any, update_where, Bool-cases, inl, inr}
use holographic_plus.FactStore.{index_holds, Conflict, Session}
use holographic_plus.StateSlots.Tables.{
  insert_conflict, update_facts, is_member, insert_member, update_conflicts, insert_resolution,
  refuses_resolution,
}
use holographic_plus.StateSlots.Frames.{KeptByStatements}

-- The statements on facts and conflicts change no session.
pub sessions-KeptByStatements : (Q : List Session → Type 0) → KeptByStatements (λ s. Q s.sessions)
unfolding update_facts insert_conflict insert_member update_conflicts insert_resolution
sessions-KeptByStatements Q = record {
  by_update = λ p f. record {
    kept = λ s h. elim (Bool-cases (index_holds (update_where p f s.facts))) [
      | inl fine ↦ rw fine h
      | inr bad ↦ rw bad h
    ];
  };
  by_conflict = λ c. record {
    kept = λ s h.
        elim (Bool-cases (any (λ (d : Conflict). str_eq d.conflict_id c.conflict_id) s.conflicts)) [
          | inl taken ↦ rw taken h
          | inr free ↦ rw free h
        ];
  };
  by_member = λ conflict_id i. record {
    kept = λ s h. elim (Bool-cases (any (is_member conflict_id i) s.members)) [
      | inl taken ↦ rw taken h
      | inr free ↦ rw free h
    ];
  };
  by_close = λ p f. record { kept = λ s h. h };
  by_audit = λ r. record {
    kept = λ s h. elim (Bool-cases (refuses_resolution r s)) [
      | inl refused ↦ rw refused h
      | inr fine ↦ rw fine h
    ];
  };
}
