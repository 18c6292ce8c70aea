-- ===== src/Conn/Handle/Tests.antt =====
-- Connections with their answers written out, and the theorems on the handler at them.
use condukt.Prelude.{◌≡◌, ◌↔◌, refl, List, [], ◌∷◌, none, codes, All, Any, ok}
use condukt.Prelude.Bytes.{from_utf8}
use condukt.Policy.{
  Action, Rule, Policy, default_max_body_capture, default_decide_timeout_ms, evaluate,
}
use condukt.Prelude.Decimal.{decimal}
use condukt.OrigDst.{original_dst}
use condukt.Sni.{looks_like_tls}
use condukt.Conn.Host.{identify_host}
use condukt.Conn.Handle.{request_of, handle}
use condukt.Conn.Handle.Lifecycle.{IsLifecycle, kinds, handle-IsLifecycle}
use condukt.Conn.Handle.Attribution.{IsAttributed, handle-IsAttributed}
use condukt.Conn.Handle.Contact.{IsTransfer, IsPermitted, handle_transfers_iff}
use condukt.Conn.Tests.{no_tls, request_text, answers, destination}

-- the rules that the tests share: one host is allowed, and the rest is left to `last`
abbrev policy : List Rule → Policy
policy last = record {
  rules = Rule.allow (codes "b.org" ∷ []) ∷ last;
  default = Action.deny;
  redact = [];
  max_body_capture = default_max_body_capture;
  decide_timeout_ms = default_decide_timeout_ms;
}

redirected : original_dst answers.little_endian answers.getsockopt ≡ ok destination
unfolding original_dst decimal
redirected = refl

named : identify_host no_tls request_text 80 (codes "10.0.0.1") ≡ codes "a.org"
unfolding identify_host looks_like_tls from_utf8
named = refl

handle-IsLifecycle_example : IsLifecycle (kinds (handle answers (policy [])))
handle-IsLifecycle_example = handle-IsLifecycle answers (policy [])

handle-IsAttributed_example :
    All
      (IsAttributed
        (request_of answers destination (identify_host no_tls request_text 80 (codes "10.0.0.1")))
        (evaluate (policy []) (identify_host no_tls request_text 80 (codes "10.0.0.1"))).1)
      (handle answers (policy []))
handle-IsAttributed_example =
    handle-IsAttributed answers (policy []) destination request_text redirected refl

handle_transfers_iff_example :
    Any IsTransfer (handle answers (policy []))
    ↔ IsPermitted (evaluate (policy []) (codes "a.org")).0 none
handle_transfers_iff_example =
    handle_transfers_iff answers (policy []) destination request_text (codes "a.org") redirected
      refl named
