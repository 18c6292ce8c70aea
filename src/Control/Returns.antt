-- ===== src/Control/Returns.antt =====
-- A call returns, and leaves nothing behind.
use condukt.Prelude.{ℕ, ◌≤◌, ◌≡◌, ◌≢◌, List, Option, some, Str, length, arith}
use condukt.Prelude.Map
use condukt.Prelude.Map.{get-remove}
use condukt.Event.{Inbound}
use condukt.Control.{Decision, Query, Phase, Channel}
use condukt.Control.Steps.{Run, Run-Inv, IsOpen}

-- After any run, a call that returned has no entry in the map under any identifier, an entry belongs
-- to a call that has registered and not returned, under the call's own identifier, and the buffer
-- holds at most its 1024 frames.
pub Run-no_leak :
    {query : ℕ → Query} {lines : List (Option Inbound)} {c : Channel}
    → Run query lines c
    → ((t : ℕ) (r : Option Decision) (k : Str)
        → c.phase t ≡ Phase.returned r
        → Map.get k c.pending ≢ some t)
      × ((t : ℕ) (k : Str)
          → Map.get k c.pending ≡ some t
          → ((c.query t).id ≡ k) × IsOpen (c.phase t))
      × (length c.queue ≤ 1024)
Run-no_leak {c} run =
    let i = Run-Inv run in
    (
      λ t r k p h. ground (arith, i.entries k t h),
      λ t k h. ((i.entries k t h).0, (i.entries k t h).1),
      i.bounded,
    )
