-- ===== src/Proxy/Tests.antt =====
-- Two connections that ask at once, and the peer's word for the first.
use condukt.Prelude.{
  ℕ, zero, suc, ◌≡◌, refl, List, [], ◌∷◌, Option, none, some, Str, codes, All, Any, inl, inr,
}
use condukt.Prelude.Map
use condukt.Prelude.Bytes.{Bytes, from_utf8}
use condukt.Prelude.Decimal.{decimal}
use condukt.Glob.{matches_any}
use condukt.Policy.{
  Action, Rule, Policy, default_max_body_capture, default_decide_timeout_ms, default_decision,
  evaluate,
}
use condukt.Event.{SocketAddr, DecisionAction, Inbound, new_request}
use condukt.Control
use condukt.Control.{Channel, emit, register, send, receive, handle_line, try_send}
use condukt.Control.Steps
use condukt.OrigDst.{original_dst}
use condukt.Sni.{looks_like_tls}
use condukt.Conn.Host.{identify_host}
use condukt.Conn.Handle.{Answers}
use condukt.Conn.Handle.Contact.{IsTransfer}
use condukt.Conn.Tests.{answers, destination}
use condukt.Conn.Stages.{Stage, identified, begun}
use condukt.Proxy.{Proxy, move, start, Run, here, next, moves, calls, secures, reads}
use condukt.Proxy.Handling.{Handles, Run-Handles}
use condukt.Proxy.Presents.{Run-presents}
use condukt.Conn.Handle.Accepting.{IsAccepting}
use condukt.Conn.Https.Calls.{https_calls}
use condukt.Tls
use condukt.Tls.{look_up, mint_ok, share}
use condukt.Tls.Cache.{looks_up, mints, shares}
use condukt.Tls.Minting.{ServerConfig}
use condukt.Tls.Minting.Leaf.{IsLeaf, MintedBy}
use condukt.Tls.Tests.{Cert, Shared, crates, law, issuer, config_for, minted_for}
use condukt.Proxy.Verified.{Run-IsSecured}
use condukt.Conn.Handle.Verified.{IsSecured}
use condukt.Proxy.Safety.{IsAllowed, Run-IsAllowed}

-- everything is left to the decider
abbrev policy : Policy
policy = record {
  rules = Rule.decide ∷ [];
  default = Action.deny;
  redact = [];
  max_body_capture = default_max_body_capture;
  decide_timeout_ms = default_decide_timeout_ms;
}

abbrev connections : ℕ → Answers
connections zero = answers
connections (suc t) = record answers { id = codes "other" }

-- what `mint` may have returned for a host
abbrev Minted : Str → Shared → Type 0
Minted = MintedBy crates law issuer

abbrev line : Option Inbound
line = some (Inbound.decision (codes "id") DecisionAction.allow none)

abbrev allowance : Control.Decision
allowance = record { action = DecisionAction.allow; reason = none }

-- both have opened, and then the first registers and asks
abbrev opened : Proxy Shared
opened = move policy connections 1 (move policy connections 0 (start policy connections))

abbrev registered : Proxy Shared
registered = record opened { channel = register 0 opened.channel }

abbrev asked : Proxy Shared
asked = record registered { channel = send 0 registered.channel }

-- the peer allows it, and it goes on
abbrev heard : Proxy Shared
heard = record asked { channel = handle_line line asked.channel }

abbrev returned : Proxy Shared
returned = record heard { channel = receive 0 allowance heard.channel }

abbrev final : Proxy Shared
final = move policy connections 0 (move policy connections 0 (move policy connections 0 returned))

opened-Run : Run policy connections Minted [] opened
opened-Run = next none (next none here (moves 0)) (moves 1)

opened_stage : opened.stage 0 ≡ Stage.deciding destination (codes "a.org")
unfolding move start identified original_dst identify_host looks_like_tls from_utf8 decimal evaluate
    matches_any
opened_stage = refl

asked-Run : Run policy connections Minted [] asked
unfolding move start register
asked-Run =
    next none (next none opened-Run (calls 0 opened_stage (Steps.registers 0 refl) refl))
      (calls 0 opened_stage (Steps.sends 0 refl) refl)

final-Run : Run policy connections Minted (line ∷ []) final
unfolding move start register send handle_line Map.get Map.insert identified original_dst decimal
    new_request try_send emit begun evaluate matches_any identify_host looks_like_tls from_utf8
final-Run =
    next none
      (next none
        (next none
          (next none (next (some line) asked-Run (reads line))
            (calls 0 opened_stage (Steps.receives 0 allowance refl refl) refl))
          (moves 0))
        (moves 0))
      (moves 0)

final_transfers : Any IsTransfer (final.trace 0)
unfolding move start register send handle_line Map.get Map.insert identified original_dst decimal
    new_request try_send emit begun evaluate matches_any identify_host looks_like_tls from_utf8
    receive
final_transfers = inr (inr (inr (inl tt)))

Run-Handles_example :
    Handles policy
      (connections 0)
      (final.channel.phase 0)
      (final.ca.phase 0)
      (final.stage 0)
      (final.trace 0)
Run-Handles_example = Run-Handles 0 final-Run

Run-IsAllowed_example :
    (dst : SocketAddr) × (host : Str) × (identified (connections 0) ≡ some (dst, host))
    × IsAllowed policy (line ∷ []) (connections 0) host
Run-IsAllowed_example = Run-IsAllowed 0 final-Run final_transfers

-- a connection to port 443 that is allowed, and whose set-up succeeds
abbrev pub open_policy : Policy
open_policy = record policy { rules = []; default = Action.allow }

abbrev secure_answers : Answers
secure_answers = record answers {
  getsockopt = λ level optname. record {
    rc = 0;
    addr = record { port_0 = 1; port_1 = 187; addr_0 = 10; addr_1 = 0; addr_2 = 0; addr_3 = 1 };
    last_os_error = codes "";
  };
  https = record answers.https { connect = none };
}

abbrev secure_destination : SocketAddr
secure_destination = record { ip = codes "10.0.0.1"; port = 443; shown = codes "10.0.0.1:443" }

abbrev pub secure : ℕ → Answers
secure t = secure_answers

abbrev pub named : Str
named = codes "10.0.0.1"

-- let through, and then its configuration is minted
abbrev admitted : Proxy Shared
admitted = move open_policy secure 0 (move open_policy secure 0 (start open_policy secure))

abbrev minted : Proxy Shared
minted = record admitted { ca = mint_ok 0 (10, config_for named 20) (look_up 0 admitted.ca) }

abbrev shared : Proxy Shared
shared = record minted { ca = share 0 (10, config_for named 20) minted.ca }

abbrev pub secured : Proxy Shared
secured = move open_policy secure 0 shared

pub secure_identified : identified secure_answers ≡ some (secure_destination, named)
unfolding identified original_dst identify_host decimal
secure_identified = refl

pub secured-Run : Run open_policy secure Minted [] secured
unfolding move start identified original_dst identify_host decimal evaluate look_up mint_ok share
    Map.get Map.insert default_decision from_utf8 looks_like_tls
secured-Run =
    next none
      (next none
        (next none
          (next none (next none (next none here (moves 0)) (moves 0))
            (secures 0 refl refl (looks_up 0 refl) refl))
          (secures 0 refl refl (mints 0 (10, config_for named 20) refl (20, minted_for named 20))
            refl))
        (secures 0 refl refl (shares 0 (10, config_for named 20) refl) refl))
      (moves 0)

pub secured_accepts : Any IsAccepting (secured.trace 0)
unfolding move start identified original_dst identify_host decimal evaluate look_up mint_ok share
    Map.get Map.insert default_decision from_utf8 looks_like_tls https_calls begun
secured_accepts = inr (inr (inl (inr (inl tt))))

Run-IsSecured_example :
    All (IsSecured secure_answers.https.upstream_tls secure_destination named) (secured.trace 0)
Run-IsSecured_example = Run-IsSecured 0 secure_destination named secured-Run secure_identified

Run-presents_example :
    (arc : ℕ) × (cfg : ServerConfig (List Cert × Bytes)) × (secured.ca.phase 0
      ≡ Tls.Phase.returned (arc, cfg))
    × IsLeaf crates law issuer named cfg
Run-presents_example =
    Run-presents crates law issuer 0 secured-Run secure_identified secured_accepts
