-- ===== src/H2/Connection/Trace.antt =====
-- What each stream of one connection does: part of a call of `proxy_stream`.
use condukt.Prelude.{
  ℕ, ◌≡◌, refl, sym, subst, ap, ◌∙◌, inl, inr, Bool, true, false, List, [], ◌∷◌, ◌++◌, ◌==◌, ==_iff,
  if◌then◌else◌, Bool-cases, append-nil, append_assoc,
}
use condukt.Event.{Request}
use condukt.H2.{Effect, sends_request, proxy_stream, finish}
use condukt.H2.Connection.{
  Stage, Server, Turn, polls, drops, moved, by_stream, drop_at, drop, Exchanges, request_of,
  poll_at, poll, run, leave, is_first, dropped_from, opens, begin_at, go_on,
}

-- the effects of stream `t` in a trace
abbrev pub own : ℕ → List (ℕ × Effect) → List Effect
own t [] = []
own t ((u, e) ∷ rest) = let others = own t rest in if u == t then e ∷ others else others

if-append :
    (same : Bool) (e : Effect) (r s : List Effect)
    → (if same then e ∷ (r ++ s) else r ++ s) ≡ (if same then e ∷ r else r) ++ s
if-append true e r s = refl
if-append false e r s = refl

own-append : (t : ℕ) (a b : List (ℕ × Effect)) → own t (a ++ b) ≡ own t a ++ own t b
own-append t [] b = refl
own-append t ((u, e) ∷ a) b = rw (own-append t a b) (if-append (u == t) e (own t a) (own t b))

own-by_stream : (t : ℕ) (es : List Effect) → own t (by_stream t es) ≡ es
own-by_stream t [] = refl
own-by_stream t (e ∷ es) = rw ((==_iff t t).1 refl, own-by_stream t es)

own_other : (t u : ℕ) (es : List Effect) → (u == t) ≡ false → own t (by_stream u es) ≡ []
own_other t u [] h = refl
own_other t u (e ∷ es) h = rw (h, own_other t u es h)

-- one stream makes the last of the effects
own_grown :
    (t : ℕ) (a : List (ℕ × Effect)) (es : List Effect) → own t (a ++ by_stream t es) ≡ own t a ++ es
own_grown t a es = own-append t a (by_stream t es) ∙ ap (λ r. own t a ++ r) (own-by_stream t es)

own_kept :
    (t u : ℕ) (a : List (ℕ × Effect)) (es : List Effect)
    → (u == t) ≡ false
    → own t (a ++ by_stream u es) ≡ own t a
own_kept t u a es h =
    own-append t a (by_stream u es)
    ∙ (ap (λ r. own t a ++ r) (own_other t u es h) ∙ append-nil (own t a))

-- What stream `t` still has to do, by its stage; nothing is said of a dropped one.
abbrev pub Due : Exchanges → Request → ℕ → Stage → List Effect → Type 0
Due x base t Stage.accepted todo = todo ≡ proxy_stream (x.answers t) (x.request t) base
Due x base t Stage.opened todo =
    todo ≡ sends_request ∷ finish (x.answers t) (request_of x base t) (x.answers t).sent
Due x base t Stage.sending todo =
    todo ≡ finish (x.answers t) (request_of x base t) (x.answers t).sent
Due x base t Stage.answered todo = todo ≡ []
Due x base t Stage.dropped todo = Unit

-- What the stream has done and what it still has to do are a whole call of `proxy_stream`.
pub record Traced (x : Exchanges) (base : Request) (t : ℕ) (s : Server) : Type 0 where
  pub todo : List Effect
  pub due : Due x base t (s.stage t) todo
  pub whole : own t s.trace ++ todo ≡ proxy_stream (x.answers t) (x.request t) base

module _ (x : Exchanges) (base : Request) where
  -- stream `t` made the effects `es` and stands at `stage`
  abbrev advanced : ℕ → Stage → List Effect → List ℕ → Server → Server
  advanced t stage es line s = record {
    stage = moved s.stage t stage;
    line = line;
    trace = s.trace ++ by_stream t es;
  }

  own-advanced :
      (t : ℕ) (stage : Stage) (es todo : List Effect) (line : List ℕ) (s : Server)
      → Due x base t stage todo
      → own t s.trace ++ (es ++ todo) ≡ proxy_stream (x.answers t) (x.request t) base
      → Traced x base t (advanced t stage es line s)
  own-advanced t stage es todo line s d w = record {
    todo = todo;
    due = rw ((==_iff t t).1 refl) d;
    whole =
        ap (λ r. r ++ todo) (own_grown t s.trace es) ∙ (append_assoc (own t s.trace) es todo ∙ w);
  }

  kept-advanced :
      (t u : ℕ) (stage : Stage) (es : List Effect) (line : List ℕ) (s : Server)
      → (t == u) ≡ false
      → Traced x base u s
      → Traced x base u (advanced t stage es line s)
  kept-advanced t u stage es line s other h = record {
    todo = h.todo;
    due = rw other h.due;
    whole = ap (λ r. r ++ h.todo) (own_kept u t s.trace es other) ∙ h.whole;
  }

  advanced-Traced :
      (t u : ℕ) (stage : Stage) (es todo : List Effect) (line : List ℕ) (s : Server)
      → Due x base t stage todo
      → (Traced x base t s
          → own t s.trace ++ (es ++ todo) ≡ proxy_stream (x.answers t) (x.request t) base)
      → Traced x base u s
      → Traced x base u (advanced t stage es line s)
  advanced-Traced t u stage es todo line s d w h = elim (Bool-cases (t == u)) [
    | inl same ↦
        let e = (==_iff t u).0 same in
        subst (λ v. Traced x base v (advanced t stage es line s)) e
          (own-advanced t stage es todo line s d (w (subst (λ v. Traced x base v s) (sym e) h)))
    | inr other ↦ kept-advanced t u stage es line s other h
  ]

  -- what a stream at this stage has done, before all that it still has to do there
  pub whole_at :
      (stage : Stage) (t : ℕ) (s : Server) (todo : List Effect)
      → ((rest : List Effect) → Due x base t stage rest → rest ≡ todo)
      → s.stage t ≡ stage
      → Traced x base t s
      → own t s.trace ++ todo ≡ proxy_stream (x.answers t) (x.request t) base
  whole_at stage t s todo is_todo e h =
      ap (λ r. own t s.trace ++ r)
        (sym (is_todo h.todo (subst (λ k. Due x base t k h.todo) e h.due)))
      ∙ h.whole

  -- behind `request_opened`, which opens the whole call
  opened_whole :
      (t : ℕ) (s : Server) (es : List Effect)
      → s.stage t ≡ Stage.accepted
      → opens x base t ∷ es ≡ proxy_stream (x.answers t) (x.request t) base
      → Traced x base t s
      → own t s.trace ++ (opens x base t ∷ es) ≡ proxy_stream (x.answers t) (x.request t) base
  opened_whole t s es e q h =
      ap (λ r. own t s.trace ++ r) q ∙ whole_at Stage.accepted t s _ (λ rest d. d) e h

  begin_at-Traced :
      (line : List ℕ) (t u : ℕ) (s : Server)
      → s.stage t ≡ Stage.accepted
      → Traced x base u s
      → Traced x base u (begin_at x base line t s)
  unfolding proxy_stream
  begin_at-Traced [] t u s e h =
      advanced-Traced t u Stage.sending (opens x base t ∷ sends_request ∷ []) _ (t ∷ []) s refl
        (opened_whole t s _ e refl) h
  begin_at-Traced (v ∷ vs) t u s e h =
      advanced-Traced t u Stage.opened (opens x base t ∷ []) _ ((v ∷ vs) ++ t ∷ []) s refl
        (opened_whole t s _ e refl) h

  go_on-Traced :
      (first : Bool) (t u : ℕ) (s : Server)
      → s.stage t ≡ Stage.opened
      → Traced x base u s
      → Traced x base u (go_on x base first t s)
  go_on-Traced true t u s e h =
      advanced-Traced t u Stage.sending (sends_request ∷ []) _ s.line s refl
        (whole_at Stage.opened t s _ (λ rest d. d) e) h
  go_on-Traced false t u s e h = h

  poll_at-Traced :
      (stage : Stage) (t u : ℕ) (s : Server)
      → s.stage t ≡ stage
      → Traced x base u s
      → Traced x base u (poll_at x base stage t s)
  poll_at-Traced Stage.accepted t u s e h = begin_at-Traced s.line t u s e h
  poll_at-Traced Stage.opened t u s e h = go_on-Traced (is_first t s.line) t u s e h
  poll_at-Traced Stage.sending t u s e h =
      advanced-Traced t u Stage.answered
        (finish (x.answers t) (request_of x base t) (x.answers t).sent) [] (leave t s.line) s refl
        (λ h.
          ap (λ r. own t s.trace ++ r) (append-nil _)
          ∙ whole_at Stage.sending t s _ (λ rest d. d) e h)
        h
  poll_at-Traced Stage.answered t u s e h = h
  poll_at-Traced Stage.dropped t u s e h = h

  dropped_from-Traced :
      (t u : ℕ) (s : Server) → Traced x base u s → Traced x base u (dropped_from t s)
  dropped_from-Traced t u s h = elim (Bool-cases (t == u)) [
    | inl same ↦ record { todo = h.todo; due = rw same tt; whole = h.whole }
    | inr other ↦ record { todo = h.todo; due = rw other h.due; whole = h.whole }
  ]

  drop_at-Traced :
      (stage : Stage) (t u : ℕ) (s : Server)
      → Traced x base u s
      → Traced x base u (drop_at stage t s)
  drop_at-Traced Stage.accepted t u s h = dropped_from-Traced t u s h
  drop_at-Traced Stage.opened t u s h = dropped_from-Traced t u s h
  drop_at-Traced Stage.sending t u s h = dropped_from-Traced t u s h
  drop_at-Traced Stage.answered t u s h = h
  drop_at-Traced Stage.dropped t u s h = h

  pub run-Traced :
      (turns : List Turn) (u : ℕ) (s : Server)
      → Traced x base u s
      → Traced x base u (run x base turns s)
  unfolding run
  run-Traced [] u s h = h
  run-Traced (polls t ∷ rest) u s h =
      run-Traced rest u (poll x base t s) (unfold poll in poll_at-Traced (s.stage t) t u s refl h)
  run-Traced (drops t ∷ rest) u s h =
      run-Traced rest u (drop t s) (unfold drop in drop_at-Traced (s.stage t) t u s h)
