-- ===== src/Review/Once.antt =====
-- A review is decided once, and the decision is what the asker sees.
use pipe_line_gpt_backend.Prelude.{
  ℕ, String, ◌≡◌, refl, sym, ap, ◌∙◌, false, Option, none, some, find, find-holds,
  find-update_where, ◌==◌, ==_iff, arith, Option-cases, inl, inr,
}
use pipe_line_gpt_backend.Exec.{ok, err, HttpError, http, Outcome-cases}
use pipe_line_gpt_backend.Models.{
  Decision, approve, edit, reject, QueryStatus, delivered, rejected, Query, Review, Request, User,
}
use pipe_line_gpt_backend.Hitl.{Desk, decided, save_decision, with_decision}
use pipe_line_gpt_backend.Review.{
  ReviewDecisionRequest, submit_decision, find_review, validated, undecided, is_missing,
}

-- An error of the endpoint has recorded nothing.
pub submit_decision-err :
    (q : Request) (user : User) (id : ℕ) (body : ReviewDecisionRequest) (d d' : Desk)
    (e : HttpError)
    → submit_decision q user id body d ≡ (err e, d')
    → d' ≡ d
unfolding submit_decision
submit_decision-err q user id body d d' e h = ground arith

undecided-ok :
    (o : Option Review) (v : Review) → undecided o ≡ ok v → (o ≡ some v) × (v.decision ≡ none)
undecided-ok none v h = cc
undecided-ok (some w) v h = ground arith

-- The review of a question after a decision was stored.
find_review-save_decision :
    (id : ℕ) (d : Desk) (w v : Review) (status : QueryStatus)
    → find_review id d ≡ some w
    → v.id ≡ w.id
    → v.response_id ≡ w.response_id
    → v.original_text ≡ w.original_text
    → find_review id (save_decision v id status d) ≡ some v
unfolding find_review save_decision
find_review-save_decision id d w v status h same_id same_response same_text =
    elim (Option-cases (find (λ q. q.id == id) d.queries)) [
      | inl e ↦ absurd (ground arith)
      | inr (q, e) ↦ (elim (Option-cases (find (λ r. r.query_id == id) d.responses)) [
        | inl f ↦ absurd (ground arith)
        | inr (r, f) ↦
            let fq =
              find-update_where (λ q. q.id == id) (λ q. q.id == id)
                (λ q. record q { status = status }) d.queries q (λ x. refl) e
                (find-holds (λ q. q.id == id) d.queries q e) in
            let fv =
              find-update_where (λ x. x.response_id == r.id) (λ x. x.id == v.id) (with_decision v)
                d.reviews w (λ x. refl) (ground arith) ((==_iff w.id v.id).1 (sym same_id)) in
            ground (arith, fq, fv)
      ])
    ]

-- What a decision did to a review and to the status of its question.
abbrev pub Recorded :
    Decision → ReviewDecisionRequest → Review → Option String → QueryStatus → Type 0
Recorded approve body w final status = (final ≡ some w.original_text) × (status ≡ delivered)
Recorded edit body w final status =
    (final ≡ body.final_text) × (is_missing body.final_text ≡ false) × (status ≡ delivered)
Recorded reject body w final status =
    (final ≡ none) × (is_missing body.reason ≡ false) × (status ≡ rejected)

-- the status of a question
unfoldable pub status_of : ℕ → Desk → Option QueryStatus
status_of id d = elim (find (λ q. q.id == id) d.queries) [ none ↦ none | some q ↦ some q.status ]

status_of-save_decision :
    (id : ℕ) (d : Desk) (w v : Review) (status : QueryStatus)
    → find_review id d ≡ some w
    → status_of id (save_decision v id status d) ≡ some status
unfolding find_review status_of save_decision
status_of-save_decision id d w v status h = elim (Option-cases (find (λ q. q.id == id) d.queries)) [
  | inl e ↦ absurd (ground arith)
  | inr (q, e) ↦
      let f : Query → Query = λ q. record q { status = status } in
      ground (
        arith,
        find-update_where (λ q. q.id == id) (λ q. q.id == id) f d.queries q (λ x. refl) e
            (find-holds (λ q. q.id == id) d.queries q e),
      )
]

decided-Recorded :
    (now who : ℕ) (x : Decision) (body : ReviewDecisionRequest) (w v : Review) (st : QueryStatus)
    → validated body ≡ ok x
    → decided now who x body.final_text body.reason w ≡ ok (v, st)
    → Recorded x body w v.final_text st
unfolding decided validated
decided-Recorded now who approve body w v st valid h = ground arith
decided-Recorded now who edit body w v st valid h = ground arith
decided-Recorded now who reject body w v st valid h = ground arith

decided-fields :
    (now who : ℕ) (x : Decision) (final reason : Option String) (w v : Review) (st : QueryStatus)
    → decided now who x final reason w ≡ ok (v, st)
    → (v.id ≡ w.id)
      × (v.response_id ≡ w.response_id)
      × (v.original_text ≡ w.original_text)
      × (v.decision ≡ some x)
      × (v.reviewer_id ≡ some who)
unfolding decided
decided-fields now who approve final reason w v st h = ground arith
decided-fields now who edit final reason w v st h = ground arith
decided-fields now who reject final reason w v st h = ground arith

-- the parts of a decision that was taken
record IsDecision (q : Request) (user : User) (id : ℕ) (body : ReviewDecisionRequest) (d : Desk)
    (v : Review) (x : Decision) (d' : Desk) : Type 0 where
  pub before : Review
  pub status : QueryStatus
  pub valid : validated body ≡ ok x
  pub found : find_review id d ≡ some before
  pub undecided_before : before.decision ≡ none
  pub result : decided q.now user.id x body.final_text body.reason before ≡ ok (v, status)
  pub saved : (d'.reviews ≡ (save_decision v id status d).reviews)
  pub kept : (d'.queries ≡ (save_decision v id status d).queries) × (d'.responses ≡ d.responses)

submit_decision-IsDecision :
    (q : Request) (user : User) (id : ℕ) (body : ReviewDecisionRequest) (d d' : Desk) (v : Review)
    (x : Decision)
    → submit_decision q user id body d ≡ (ok (v, x), d')
    → IsDecision q user id body d v x d'
unfolding submit_decision save_decision
submit_decision-IsDecision q user id body d d' v x h = elim (Outcome-cases (validated body)) [
  | inr (e, f) ↦ absurd (ground arith)
  | inl (y, valid) ↦ (elim (Outcome-cases (undecided (find_review id d))) [
    | inr (e, f) ↦ absurd (ground arith)
    | inl (w, opened) ↦
        (elim (Outcome-cases (decided q.now user.id y body.final_text body.reason w)) [
          | inr (e, f) ↦ absurd (ground arith)
          | inl ((v', st), result) ↦
              let same_v : v' ≡ v = ground arith in
              let same_x : y ≡ x = ground arith in
              record {
                before = w;
                status = st;
                valid = valid ∙ ap ok same_x;
                found = (undecided-ok (find_review id d) w opened).0;
                undecided_before = (undecided-ok (find_review id d) w opened).1;
                result = ground arith;
                saved = ground arith;
                kept = (ground arith, ground arith);
              }
        ])
  ])
]

pub submit_decision-ok :
    (q : Request) (user : User) (id : ℕ) (body : ReviewDecisionRequest) (d d' : Desk) (v : Review)
    (x : Decision)
    → submit_decision q user id body d ≡ (ok (v, x), d')
    → (w : Review) × (st : QueryStatus) × (find_review id d ≡ some w)
      × (w.decision ≡ none)
      × (v.original_text ≡ w.original_text)
      × (v.decision ≡ some x)
      × (v.reviewer_id ≡ some user.id)
      × Recorded x body w v.final_text st
      × (find_review id d' ≡ some v)
      × (status_of id d' ≡ some st)
unfolding find_review status_of save_decision
submit_decision-ok q user id body d d' v x h =
    let p = submit_decision-IsDecision q user id body d d' v x h in
    let w = p.before in
    let f = decided-fields q.now user.id x body.final_text body.reason w v p.status p.result in
    let stored = find_review-save_decision id d w v p.status p.found f.0 f.1 f.2 in
    (
      w,
      p.status,
      p.found,
      p.undecided_before,
      f.2,
      f.3,
      f.4,
      decided-Recorded q.now user.id x body w v p.status p.valid p.result,
      ground (arith, p.saved, p.kept.0, p.kept.1),
      ground (arith, p.kept.0, status_of-save_decision id d w v p.status p.found),
    )

-- Once a decision is recorded, every later decision on the same question whose body is valid is refused
-- with 409 and changes nothing.
pub submit_decision_once :
    (q q' : Request) (user user' : User) (id : ℕ) (body body' : ReviewDecisionRequest) (d d' : Desk)
    (v : Review) (x y : Decision)
    → submit_decision q user id body d ≡ (ok (v, x), d')
    → validated body' ≡ ok y
    → submit_decision q' user' id body' d' ≡ (err (http 409 "Review already decided"), d')
unfolding submit_decision
submit_decision_once q q' user user' id body body' d d' v x y h valid =
    let s = submit_decision-ok q user id body d d' v x h in ground (arith, s.5, s.8)
