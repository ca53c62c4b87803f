-- ===== src/Agent/Store/Erased.antt =====
-- sessions.go SetSessionMemory: what the store holds of a session that goes off the record is gone.
use wintermute.Prelude.{
  ℕ, Option, none, some, true, nat_beq_iff, ◌≡◌, ◌≢◌, refl, ap, ◌∙◌, inl, inr, Bool, false, List,
  [], ◌∷◌, ok, err, ◌⊎◌, ◌==◌, arith, Bool-cases,
}
use wintermute.Prelude.Str.{Str, str_eq}
use wintermute.Prelude.Assoc.{lookup}
use wintermute.Agent.Store.{
  Codec, Row, SessionRow, read_rows, Store, of_session, by_seq, messages, without_session,
  set_session_memory, owned, not_found,
}

pub of_session-without_session :
    (sid : Str) (rs : List Row) → of_session sid (without_session sid rs) ≡ []
unfolding of_session without_session
of_session-without_session sid [] = refl
of_session-without_session sid (r ∷ rs) = elim (Bool-cases (r.session_id == sid)) [
  | inl same ↦ rw same (of_session-without_session sid rs)
  | inr other ↦ rw (other, other) (of_session-without_session sid rs)
]

pub of_session-without_session_ne :
    (sid other : Str) (rs : List Row)
    → sid ≢ other
    → of_session other (without_session sid rs) ≡ of_session other rs
unfolding of_session without_session
of_session-without_session_ne sid other [] n = refl
of_session-without_session_ne sid other (r ∷ rs) n = ground (
  arith,
  str_eq.test_iff r.session_id sid,
  str_eq.test_iff r.session_id other,
  of_session-without_session_ne sid other rs n,
)

-- Who may switch the memory of a session: the client that its row names.
abbrev pub IsOwner : Str → ℕ → Store → Type 0
IsOwner sid client_id s =
    (row : SessionRow) × (lookup sid s.sessions ≡ some row) × (row.client_id ≡ client_id)

owned_iff :
    (client_id : ℕ) (o : Option SessionRow)
    → (owned client_id o ≡ true → (row : SessionRow) × (o ≡ some row) × (row.client_id ≡ client_id))
      × (owned client_id o ≡ false
          → ((row : SessionRow) × (o ≡ some row) × (row.client_id ≡ client_id))
          → ⊥)
unfolding owned
owned_iff client_id none = (λ h. ground arith, λ h k. ground (arith, k.1))
owned_iff client_id (some row) = (
  λ h. (row, refl, (nat_beq_iff row.client_id client_id).0 h),
  λ h k. ground (arith, k.1, k.2, (nat_beq_iff row.client_id client_id).1),
)

-- Going off the record deletes what the store holds of the session and of no other, or, if the
-- session is not the client's, changes nothing.
pub set_session_memory-off :
    (json : Codec) (sid other : Str) (client_id : ℕ) (recall : Bool) (s : Store)
    → sid ≢ other
    → let (r, s') = set_session_memory sid client_id false recall s in
      (IsOwner sid client_id s
        × (r ≡ ok tt)
        × (messages json sid s' ≡ ok [])
        × (messages json other s' ≡ messages json other s))
      ⊎ ((IsOwner sid client_id s → ⊥) × (r ≡ err not_found) × (s' ≡ s))
unfolding set_session_memory messages
set_session_memory-off json sid other client_id recall s n =
    elim (Bool-cases (owned client_id (lookup sid s.sessions))) [
      | inl mine ↦ rw mine (
          inl (
            (owned_iff client_id (lookup sid s.sessions)).0 mine,
            refl,
            ap (λ rs. read_rows json (by_seq rs)) (of_session-without_session sid s.rows) ∙ nothing,
            ap (λ rs. read_rows json (by_seq rs))
                (of_session-without_session_ne sid other s.rows n),
          ))
      | inr theirs ↦
          rw theirs (inr ((owned_iff client_id (lookup sid s.sessions)).1 theirs, refl, refl))
    ]
  where
    nothing : read_rows json (by_seq []) ≡ ok []
    nothing = unfold by_seq in unfold read_rows in refl
