-- ===== src/Proxy/Runs.antt =====
-- Runs of the proxy: what the channel does in them, and what each connection.
use condukt.Prelude.{
  ℕ, ◌≡◌, refl, sym, subst, List, [], ◌∷◌, ◌++◌, Option, none, some, Str, ◌==◌, ==_iff, Bool, true,
  false, if◌then◌else◌,
}
use condukt.Policy.{Policy}
use condukt.Event.{Event, Inbound}
use condukt.Control.{Phase, Query, Channel, emit}
use condukt.Control.Steps
use condukt.Control.Waiting
use condukt.Tls
use condukt.Tls.{CaContext}
use condukt.Tls.Cache
use condukt.Tls.Calls.{returned-kept, failed-kept}
use condukt.Tls.Minting.{TlsError}
use condukt.Conn.Handle.{Answers, Effect}
use condukt.Conn.Handle.Buffer.{emit_all}
use condukt.Conn.Stages.{host_of, Stage, identified, advance, query_at}
use condukt.Proxy.{secures, Proxy, move, start, Step, moves, calls, reads, writes, Run, here, next}
use condukt.Proxy.Traces.{Ends, Tracks, at_start}
use condukt.Proxy.Traces.Advance.{Tracks-advance}
use condukt.Proxy.Traces.Kept.{Tracks-kept}

-- the calls that the connections may make
abbrev pub queries : (ℕ → Answers) → ℕ → Query
queries a t = query_at (a t) (identified (a t))

-- the hosts for which they may ask a configuration
abbrev pub hosts : (ℕ → Answers) → ℕ → Str
hosts a t = host_of (identified (a t))

-- events leave the calls alone
phase-emit_all : (es : List Event) (c : Channel) → (emit_all es c).phase ≡ c.phase
unfolding emit
phase-emit_all [] c = refl
phase-emit_all (e ∷ es) c = phase-emit_all es (emit e c)

Run-emit_all :
    {query : ℕ → Query} {lines : List (Option Inbound)} (es : List Event) {c : Channel}
    → Steps.Run query lines c
    → Steps.Run query lines (emit_all es c)
Run-emit_all [] r = r
Run-emit_all (e ∷ es) r = Run-emit_all es (Steps.next none r (Steps.emits e))

module _ {S : Type 0} (Mints : Str → S → Type 0) (p : Policy) (a : ℕ → Answers) where
  Step-channel :
      {lines : List (Option Inbound)} {s r : Proxy S} {label : Option (Option Inbound)}
      → Step p a Mints s label r
      → Steps.Run (queries a) lines s.channel
      → Steps.Run (queries a) (Steps.heard label lines) r.channel
  unfolding move
  Step-channel {s = s} (moves t) run =
      Run-emit_all (advance p (a t) (s.stage t) (s.channel.phase t) (s.ca.phase t)).emitted run
  Step-channel (calls t asks step own) run = Steps.next none run step
  Step-channel (secures t asks port step own) run = run
  Step-channel (reads line) run = Steps.next (some line) run (Steps.reads line)
  Step-channel writes run = Steps.next none run Steps.writes

  -- The channel makes the steps of its parties alone.
  pub Run-channel :
      {lines : List (Option Inbound)} {s : Proxy S}
      → Run p a Mints lines s
      → Steps.Run (queries a) lines s.channel
  unfolding start
  Run-channel here = Steps.here
  Run-channel (next label r step) = Step-channel step (Run-channel r)

  Step-ca :
      {s r : Proxy S} {label : Option (Option Inbound)}
      → Step p a Mints s label r
      → Cache.Run Mints (hosts a) s.ca
      → Cache.Run Mints (hosts a) r.ca
  unfolding move
  Step-ca (moves t) run = run
  Step-ca (calls t asks step own) run = run
  Step-ca (secures t asks port step own) run = Cache.next run step
  Step-ca (reads line) run = run
  Step-ca writes run = run

  -- and so does the CA
  pub Run-ca :
      {lines : List (Option Inbound)} {s : Proxy S}
      → Run p a Mints lines s
      → Cache.Run Mints (hosts a) s.ca
  unfolding start
  Run-ca here = Cache.here
  Run-ca (next label r step) = Step-ca step (Run-ca r)

  Ends-Step :
      {c d : CaContext S} (t : ℕ) (o : Option TlsError)
      → Cache.Step Mints c d
      → Ends (c.phase t) o
      → Ends (d.phase t) o
  Ends-Step t none step (cfg, h) = (cfg, returned-kept t cfg step h)
  Ends-Step t (some e) step h = failed-kept t e step h

  module _ (t : ℕ) where
    abbrev TracksAt : Proxy S → Type 0
    TracksAt s = Tracks p (a t) (s.channel.phase t) (s.ca.phase t) (s.stage t) (s.trace t)

    Tracks-updated :
        {phase : Phase} {own : Tls.Phase S} {stage stage' : Stage} {tr tr' : List Effect}
        (same : Bool)
        → (same ≡ true → Tracks p (a t) phase own stage' tr')
        → Tracks p (a t) phase own stage tr
        → Tracks p (a t) phase own (if same then stage' else stage) (if same then tr' else tr)
    Tracks-updated true mine other = mine refl
    Tracks-updated false mine other = other

    Tracks-move : (u : ℕ) (s : Proxy S) → TracksAt s → TracksAt (move p a u s)
    unfolding move
    Tracks-move u s h =
        let moved = λ (w : ℕ). advance p (a w) (s.stage w) (s.channel.phase w) (s.ca.phase w) in
        subst
          (λ (phase : ℕ → Phase).
            Tracks p (a t) (phase t) (s.ca.phase t) (if u == t then (moved u).stage else s.stage t)
              (if u == t then s.trace u ++ (moved u).effects else s.trace t))
          (sym (phase-emit_all (moved u).emitted s.channel))
          (Tracks-updated (u == t)
            (λ same.
              subst
                (λ (w : ℕ).
                  Tracks p (a t) (s.channel.phase t) (s.ca.phase t) (moved w).stage
                    (s.trace w ++ (moved w).effects))
                (sym ((==_iff u t).0 same)) (Tracks-advance p (a t) h))
            h)

    Tracks-Step :
        {s r : Proxy S} {label : Option (Option Inbound)}
        → Step p a Mints s label r
        → TracksAt s
        → TracksAt r
    Tracks-Step {s} (moves u) h = Tracks-move u s h
    Tracks-Step (calls u asks step own) h =
        Tracks-kept p (a t) (λ v k. (Waiting.returned-kept t v step k).1) (λ o k. k) h
    Tracks-Step (secures u asks port step own) h =
        Tracks-kept p (a t) (λ v k. k) (λ o k. Ends-Step t o step k) h
    Tracks-Step {s} (reads line) h =
        Tracks-kept p (a t)
          (λ v k. (Waiting.returned-kept t v (Steps.reads {c = s.channel} line) k).1) (λ o k. k) h
    Tracks-Step {s} writes h =
        Tracks-kept p (a t) (λ v k. (Waiting.returned-kept t v (Steps.writes {c = s.channel}) k).1)
          (λ o k. k) h

    -- each connection is where its own steps and its calls have brought it
    pub Run-Tracks :
        {lines : List (Option Inbound)} {s : Proxy S} → Run p a Mints lines s → TracksAt s
    unfolding start
    Run-Tracks here = at_start refl
    Run-Tracks (next label r step) = Tracks-Step step (Run-Tracks r)
