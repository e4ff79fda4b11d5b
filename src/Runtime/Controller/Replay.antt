-- ===== src/Runtime/Controller/Replay.antt =====
-- Messages that come twice, calls after the end, and a controller rebuilt from its messages.
use temper_ml.Base.{
  Bool-cases, All, insert_by, sort_by, Text, ℕ, ◌+◌, ◌≤◌, ◌<◌, ◌≡◌, refl, sym, ap, ◌∙◌, inl, inr,
  none, some, List, [], ◌∷◌, ◌++◌, arith,
}
use temper_ml.Domain.Projections.{ContentIdentity}
use temper_ml.Runtime.Protocol.{RuntimeMessage}
use temper_ml.Runtime.Controller.Invariant.{Numbered, frame, Reach-Inv, Inv, Reach, start, call}
use temper_ml.Runtime.Controller.Cases.{accept_cases, Taken}
use temper_ml.Runtime.Controller.{
  new, Outcome, transition, sequence_lt, message_log, find_message, recorded, accept_known, accept,
  accept_all, reconstruct, Controller,
}

module _ (sha256 : Text → Text) where
  known_again :
      (m : RuntimeMessage) (c : Controller)
      → (m.request_identity ≡ c.request_identity) × (m.run_id ≡ c.run_id)
      → find_message m.sequence c.messages ≡ some m
      → accept sha256 m c ≡ (c, none)
  unfolding accept accept_known
  known_again m c s f = rw f (ground arith)

  recorded_again :
      (m : RuntimeMessage) (c : Controller)
      → Taken sha256 m c
      → let d = recorded sha256 m (transition m.payload c).0 in accept sha256 m d ≡ (d, none)
  unfolding recorded find_message
  recorded_again m c t =
      known_again m (recorded sha256 m (transition m.payload c).0)
        (ground (arith, t.subject, frame m.payload c)) (ground arith)

  -- A message that was accepted is accepted again, and changes nothing.
  pub accept_twice :
      (m : RuntimeMessage) (c d : Controller)
      → accept sha256 m c ≡ (d, none)
      → accept sha256 m d ≡ (d, none)
  accept_twice m c d h = elim (accept_cases sha256 m c) [
    | inl same ↦
        let e : d ≡ c = cc (ap (λ (o : Outcome). o.0) h) in rw e (h ∙ ap (λ x. (x, none)) e)
    | inr t ↦
        let e : d ≡ recorded sha256 m (transition m.payload c).0 =
          ap (λ (o : Outcome). o.0) (sym h ∙ t.result) in
        rw e (recorded_again m c t)
  ]

  accept_all-append :
      (ms : List RuntimeMessage) (m : RuntimeMessage) (c d e : Controller)
      → accept_all sha256 ms c ≡ (d, none)
      → accept sha256 m d ≡ (e, none)
      → accept_all sha256 (ms ++ m ∷ []) c ≡ (e, none)
  unfolding accept_all
  accept_all-append [] m c d e h k = ground arith
  accept_all-append (x ∷ ms) m c d e h k =
      ground (arith, accept_all-append ms m (accept sha256 x c).0 d e)

-- every sequence number is at most n
abbrev Below : ℕ → List RuntimeMessage → Type 0
Below n ms = All (λ (m : RuntimeMessage). m.sequence ≤ n) ms

Below-weaken : (n k : ℕ) (ms : List RuntimeMessage) → n ≤ k → Below n ms → Below k ms
Below-weaken n k [] h b = tt
Below-weaken n k (m ∷ ms) h b = (omega arith, Below-weaken n k ms h b.1)

insert_last :
    (m : RuntimeMessage) (n : ℕ) (ms : List RuntimeMessage)
    → Below n ms
    → n < m.sequence
    → insert_by sequence_lt m ms ≡ ms ++ m ∷ []
unfolding insert_by
insert_last m n [] b h = refl
insert_last m n (x ∷ ms) b h = ground (arith, insert_last m n ms)

insert_by-Below :
    (m : RuntimeMessage) (n : ℕ) (ms : List RuntimeMessage)
    → m.sequence ≤ n
    → Below n ms
    → Below n (insert_by sequence_lt m ms)
unfolding insert_by
insert_by-Below m n [] h b = (h, tt)
insert_by-Below m n (x ∷ ms) h b = elim (Bool-cases (sequence_lt x m)) [
  | inl e ↦ rw e (b.0, insert_by-Below m n ms h b.1)
  | inr e ↦ rw e (h, b)
]

sort_by-Below :
    (n : ℕ) (ms : List RuntimeMessage) → Numbered n ms → Below n (sort_by sequence_lt ms)
unfolding sort_by
sort_by-Below n [] h = tt
sort_by-Below n (m ∷ ms) (p, q, s, h) =
    insert_by-Below m n (sort_by sequence_lt ms) (omega arith)
      (Below-weaken p n (sort_by sequence_lt ms) (omega arith) (sort_by-Below p ms h))

-- the newest message is the last one of the log
sort_by-cons :
    (m : RuntimeMessage) (n : ℕ) (ms : List RuntimeMessage)
    → Numbered n ms
    → m.sequence ≡ n + 1
    → sort_by sequence_lt (m ∷ ms) ≡ sort_by sequence_lt ms ++ m ∷ []
unfolding sort_by
sort_by-cons m n ms h e =
    insert_last m n (sort_by sequence_lt ms) (sort_by-Below n ms h) (omega arith)

module _ (sha256 : Text → Text) (request : ContentIdentity) (run : Text) where
  Reach-subject :
      {c : Controller}
      → Reach sha256 request run c
      → (c.request_identity ≡ request) × (c.run_id ≡ run)
  unfolding new recorded
  Reach-subject (start e) = ground (arith, e)
  Reach-subject (call {b = b} m r e) = elim (accept_cases sha256 m b) [
    | inl same ↦ rw (e, same) (Reach-subject r)
    | inr t ↦ rw (e, t.result) (ground (arith, frame m.payload b, Reach-subject r))
  ]

  log-recorded :
      (m : RuntimeMessage) (b : Controller)
      → Inv b
      → m.sequence ≡ b.last_sequence + 1
      → message_log (recorded sha256 m (transition m.payload b).0) ≡ message_log b ++ m ∷ []
  unfolding message_log recorded
  log-recorded m b v e =
      rw ((frame m.payload b).0) (sort_by-cons m b.last_sequence b.messages v.numbered e)

  log-new :
      accept_all sha256 (message_log (new request run)) (new request run) ≡ (new request run, none)
  unfolding accept_all message_log new
  log-new = refl

  rebuilt :
      {c : Controller}
      → Reach sha256 request run c
      → accept_all sha256 (message_log c) (new request run) ≡ (c, none)
  rebuilt (start e) = rw e log-new
  rebuilt (call {b = b} m r e) = elim (accept_cases sha256 m b) [
    | inl same ↦ rw (e, same) (rebuilt r)
    | inr t ↦
        let d = recorded sha256 m (transition m.payload b).0 in
        rw (e, t.result)
          (rw (log-recorded m b (Reach-Inv sha256 r) t.next)
            (accept_all-append sha256 (message_log b) m (new request run) b d (rebuilt r) t.result))
  ]

  -- `reconstruct`, given the messages of a controller, makes the same controller again, whatever
  -- calls led to it.
  pub reconstruct-message_log :
      {c : Controller}
      → Reach sha256 request run c
      → reconstruct sha256 request run (message_log c) ≡ (c, none)
  unfolding reconstruct
  reconstruct-message_log r = rebuilt r
