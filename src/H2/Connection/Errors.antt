-- ===== src/H2/Connection/Errors.antt =====
-- How an HTTP/2 connection ends, as a table.
use condukt.Prelude.{◌≡◌, refl, Bool, true, false, List, [], ◌∷◌, Option, none, some, Str, codes}
use condukt.Event.{Request}
use condukt.Conn.Outcome.{errors_as, first_error, outcome_of}
use condukt.H2.Connection.{
  Connection, served, after_handshake, drive, in_thread, awaited, spawned, handle,
}

-- the error of a thread that ends without a result
abbrev pub ends : Bool → Option Str
ends true = none
ends false = some (codes "h2 thread terminated without completing")

-- the fallible parts; a thread that ends early hides what happened in it
abbrev pub steps : Connection → List (Option Str)
steps c =
    errors_as (codes "h2 thread spawn") c.spawn
    ∷ ends c.completes
    ∷ errors_as (codes "h2 thread rt") c.runtime
    ∷ errors_as (codes "upstream h2 handshake") c.handshake
    ∷ errors_as (codes "client h2 serve") c.serve
    ∷ []

-- The outcome of a connection is the labelled error of the first part that fails, if one does.
pub handle-first_error :
    (c : Connection) (base : Request) → (handle c base).0 ≡ outcome_of (first_error (steps c))
unfolding handle drive
handle-first_error c base = at_spawn c.spawn
  where
    at_serve :
        (o : Option Str)
        → served o ≡ outcome_of (first_error (errors_as (codes "client h2 serve") o ∷ []))
    at_serve none = refl
    at_serve (some e) = refl

    at_handshake :
        (o : Option Str)
        → (after_handshake o c base).0
          ≡ outcome_of (
              first_error (
                errors_as (codes "upstream h2 handshake") o
                ∷ errors_as (codes "client h2 serve") c.serve
                ∷ []))
    at_handshake none = at_serve c.serve
    at_handshake (some e) = refl

    at_runtime :
        (o : Option Str)
        → (in_thread o c base).0
          ≡ outcome_of (
              first_error (
                errors_as (codes "h2 thread rt") o
                ∷ errors_as (codes "upstream h2 handshake") c.handshake
                ∷ errors_as (codes "client h2 serve") c.serve
                ∷ []))
    at_runtime none = at_handshake c.handshake
    at_runtime (some e) = refl

    at_end :
        (b : Bool)
        → (awaited b (in_thread c.runtime c base)).0
          ≡ outcome_of (
              first_error (
                ends b
                ∷ errors_as (codes "h2 thread rt") c.runtime
                ∷ errors_as (codes "upstream h2 handshake") c.handshake
                ∷ errors_as (codes "client h2 serve") c.serve
                ∷ []))
    at_end true = at_runtime c.runtime
    at_end false = refl

    at_spawn :
        (o : Option Str)
        → (spawned o c base).0
          ≡ outcome_of (
              first_error (
                errors_as (codes "h2 thread spawn") o
                ∷ ends c.completes
                ∷ errors_as (codes "h2 thread rt") c.runtime
                ∷ errors_as (codes "upstream h2 handshake") c.handshake
                ∷ errors_as (codes "client h2 serve") c.serve
                ∷ []))
    at_spawn none = at_end c.completes
    at_spawn (some e) = refl
