-- ===== src/Store/Sound/Ready.antt =====
-- `ready`: what its two answers say.
use anar_core.Base.{
  ℕ, suc, Bool, true, false, List, [], ◌∷◌, ◌≡◌, ◌≢◌, ◌⊎◌, refl, sym, ◌∙◌, inl, inr, Bool-cases,
}
use anar_core.Base.Table.{select_where, All, Any}
use anar_core.Platform.{Platform}
use anar_core.Contracts.Projection.{AuthorizedSubject}
use anar_core.Database.Rows.{Db, Session}
use anar_core.Database.Tx.{Connection, Error, Result, ok, err}
use anar_core.Store.Replay.Spent.{with_state}
use anar_core.Store.Subject.Project.{
  project_authorized_subject, is_ready_session, is_caught, is_swallowed, ready_round, ready_loop,
  ready_answer, ready,
}
use anar_core.Store.Sound.ReadyRow.{IsReady, is_ready_session-IsReady, IsReady-is_ready_session}
use anar_core.Store.Sound.Subject.{IsAuthorized, project_authorized_subject-IsAuthorized}

-- What holds of the selected rows, on the whole table.
All-select_where :
    {A : Type 0} (p : A → Bool) (P : A → Type 0) (xs : List A)
    → All P (select_where p xs)
    → All (λ x. p x ≡ true → P x) xs
All-select_where p P [] h = tt
All-select_where p P (x ∷ xs) h = elim (Bool-cases (p x)) [
  | inl e ↦ (let k = rw e at h in (λ _. k.0, All-select_where p P xs k.1))
  | inr e ↦ (let k = rw e at h in (λ met. cc, All-select_where p P xs k))
]

Any-select_where :
    {A : Type 0} (p : A → Bool) (P : A → Type 0) (xs : List A)
    → Any P (select_where p xs)
    → Any (λ x. (p x ≡ true) × P x) xs
Any-select_where p P [] h = h
Any-select_where p P (x ∷ xs) h = elim (Bool-cases (p x)) [
  | inl e ↦
      (let k = rw e at h in
        elim k [ inl here ↦ inl (e, here) | inr there ↦ inr (Any-select_where p P xs there) ])
  | inr e ↦ (let k = rw e at h in inr (Any-select_where p P xs k))
]

All-map :
    {A : Type 0} (P Q : A → Type 0) (xs : List A) → ((x : A) → P x → Q x) → All P xs → All Q xs
All-map P Q [] f h = tt
All-map P Q (x ∷ xs) f h = (f x h.0, All-map P Q xs f h.1)

Any-map :
    {A : Type 0} (P Q : A → Type 0) (xs : List A) → ((x : A) → P x → Q x) → Any P xs → Any Q xs
Any-map P Q [] f h = h
Any-map P Q (x ∷ xs) f (inl here) = inl (f x here)
Any-map P Q (x ∷ xs) f (inr there) = inr (Any-map P Q xs f there)

module _ ⦃platform : Platform⦄ where
  -- The projection of a session, at a reading of the clock, has returned.
  pub record IsProjected (later : ℕ → ℕ) (db : Db) (s : Session) : Type 0 where
    pub round : ℕ
    pub subject : AuthorizedSubject
    pub authorized : IsAuthorized s.session_id (later round) db subject

  -- It has not.
  pub record IsUnprojected (later : ℕ → ℕ) (db : Db) (s : Session) : Type 0 where
    pub round : ℕ
    pub fails :
        (subject : AuthorizedSubject)
        → (project_authorized_subject s.session_id (later round) db).0 ≢ ok subject

  -- It has raised this error.
  pub record Raises (later : ℕ → ℕ) (db : Db) (e : Error) (s : Session) : Type 0 where
    pub round : ℕ
    pub raised : (project_authorized_subject s.session_id (later round) db).0 ≡ err e

  -- What the loop has come to.
  abbrev Outcome : (ℕ → ℕ) → Db → List Session → Result Bool → Type 0
  Outcome later db sessions (ok true) = Any (IsProjected later db) sessions
  Outcome later db sessions (ok false) = All (IsUnprojected later db) sessions
  Outcome later db sessions (err e) = (is_caught e ≡ false) × Any (Raises later db e) sessions

  continued :
      (later : ℕ → ℕ) (db : Db) (s : Session) (rest : List Session) (others : Result Bool)
      → IsUnprojected later db s
      → Outcome later db rest others
      → Outcome later db (s ∷ rest) others
  continued later db s rest (ok true) fails o = inr o
  continued later db s rest (ok false) fails o = (fails, o)
  continued later db s rest (err e) fails o = (o.0, inr o.1)

  round-Outcome :
      (later : ℕ → ℕ) (db : Db) (s : Session) (rest : List Session) (i : ℕ)
      (r : Result AuthorizedSubject) (others : Result Bool)
      → (project_authorized_subject s.session_id (later i) db).0 ≡ r
      → Outcome later db rest others
      → Outcome later db (s ∷ rest) (ready_round r others)
  unfolding ready_round
  round-Outcome later db s rest i (ok subject) others p o = inl (record {
    round = i;
    subject = subject;
    authorized =
        ((project_authorized_subject-IsAuthorized s.session_id (later i) db).at subject _
          (with_state _ p)).0;
  })
  round-Outcome later db s rest i (err e) others p o = elim (Bool-cases (is_caught e)) [
    | inl c ↦ rw c (
        continued later db s rest others
          (record { round = i; fails = λ subject q. let no : err e ≡ ok subject = sym p ∙ q in cc })
          o)
    | inr c ↦ rw c (c, inl (record { round = i; raised = p }))
  ]

  loop-Outcome :
      (later : ℕ → ℕ) (db : Db) (sessions : List Session) (i : ℕ)
      → Outcome later db sessions (ready_loop later db sessions i)
  unfolding ready_loop
  loop-Outcome later db [] i = tt
  loop-Outcome later db (s ∷ rest) i =
      round-Outcome later db s rest i _ (ready_loop later db rest (suc i)) refl
        (loop-Outcome later db rest (suc i))

  -- The projection of a session has raised an error of the database.
  abbrev pub Breaks : (ℕ → ℕ) → Db → Session → Type 0
  Breaks later db s = Raises later db Error.integrity s ⊎ Raises later db Error.operational s

  broken :
      (later : ℕ → ℕ) (db : Db) (sessions : List Session) (e : Error)
      → Outcome later db sessions (err e)
      → ready_answer (err e) ≡ ok false
      → Any (Breaks later db) sessions
  unfolding ready_answer is_caught is_swallowed
  broken later db sessions Error.integrity o h = Any-map _ _ sessions (λ s r. inl r) o.1
  broken later db sessions Error.operational o h = Any-map _ _ sessions (λ s r. inr r) o.1
  broken later db sessions (Error.authority m) o h = cc
  broken later db sessions (Error.invalid_identifier v) o h = let no = o.0 in cc
  broken later db sessions (Error.prefix_mismatch v w) o h = let no = o.0 in cc
  broken later db sessions (Error.invalid_symbol v) o h = let no = o.0 in cc
  broken later db sessions (Error.contract m) o h = let no = o.0 in cc
  broken later db sessions Error.bad_json o h = let no = o.0 in cc
  broken later db sessions Error.verification o h = cc
  broken later db sessions Error.type_error o h = cc
  broken later db sessions Error.bad_document o h = cc
  broken later db sessions Error.overflow o h = cc

  never_true : (e : Error) → ready_answer (err e) ≢ ok true
  unfolding ready_answer
  never_true e h = elim (Bool-cases (is_swallowed e)) [
    | inl c ↦ (let k = rw c at h in cc)
    | inr c ↦ (let k = rw c at h in cc)
  ]

  answered :
      (later : ℕ → ℕ) (db : Db) (sessions : List Session) (r : Result Bool)
      → Outcome later db sessions r
      → (ready_answer r ≡ ok true → Any (IsProjected later db) sessions)
        × (ready_answer r ≡ ok false
            → All (IsUnprojected later db) sessions ⊎ Any (Breaks later db) sessions)
  unfolding ready_answer
  answered later db sessions (ok true) o = (λ h. o, λ h. cc)
  answered later db sessions (ok false) o = (λ h. cc, λ h. inl o)
  answered later db sessions (err e) o =
      (λ h. absurd (never_true e h), λ h. inr (broken later db sessions e o h))

  -- When `ready` says true, some session of the table was ready at the call (`IsReady`) and was
  -- projected to a subject that the rows authorize. When it says false, either the projection of
  -- every session that was ready has failed, or that of one of them has raised an error of the
  -- database. It changes nothing.
  pub ready_answers :
      (now : ℕ) (later : ℕ → ℕ) (c : Connection)
      → ((ready now later c).0 ≡ ok true
          → Any (λ s. IsReady now c.working s × IsProjected later c.working s) c.working.sessions)
        × ((ready now later c).0 ≡ ok false
            → All
                (λ s. IsReady now c.working s → IsUnprojected later c.working s)
                c.working.sessions
              ⊎ Any (λ s. IsReady now c.working s × Breaks later c.working s) c.working.sessions)
        × ((ready now later c).1 ≡ c)
  unfolding ready
  ready_answers now later c =
      let db = c.working in
      let test = is_ready_session now db in
      let facts = answered later db (select_where test db.sessions) _ (loop-Outcome later db _ 0) in
      (
        λ h.
            Any-map _ _ db.sessions (λ s r. (is_ready_session-IsReady now db s r.0, r.1))
              (Any-select_where test _ db.sessions (facts.0 h)),
        λ h. elim (facts.1 h) [
          | inl all ↦ inl (
              All-map _ _ db.sessions (λ s k r. k (IsReady-is_ready_session now db s r))
                (All-select_where test _ db.sessions all))
          | inr one ↦ inr (
              Any-map _ _ db.sessions (λ s r. (is_ready_session-IsReady now db s r.0, r.1))
                (Any-select_where test _ db.sessions one))
        ],
        refl,
      )
