-- ===== src/Conn/Https/Setup.antt =====
-- The outcome of `https_mitm` as a table: the first step that fails gives the label.
use condukt.Prelude.{
  ◌≡◌, refl, Bool, true, false, ◌&&◌, List, [], ◌∷◌, Option, none, some, Str, codes, if◌then◌else◌,
  ok, err,
}
use condukt.Prelude.Bytes.{Bytes}
use condukt.Http1.{Head}
use condukt.Event.{Request}
use condukt.Conn.Outcome.{Outcome, errors_as, error_is, first_error, outcome_of}
use condukt.H2.Connection
use condukt.H2.Connection.Errors
use condukt.H2.Connection.Errors.{handle-first_error}
use condukt.Conn.Transfer.{Streams, stopped, exchange}
use condukt.Conn.Https.{
  TlsAnswers, ◌>>◌, check, check_accept, error_text, is_h2, https_setup, https_rest, https_mitm,
}

-- the fallible steps in the order in which they are made
abbrev pub steps : TlsAnswers → List (Option Str)
steps a =
    errors_as (codes "server_config") (error_text a.server_config)
    ∷ error_is (codes "tls_client_rejected_ca") a.accept
    ∷ errors_as (codes "sni") a.server_name
    ∷ errors_as (codes "upstream_unreachable") a.connect
    ∷ errors_as (codes "upstream_tls") a.upstream_tls
    ∷ []

abbrev setup_of : Option Str → Bool → Outcome Bool
setup_of (some e) h2 = err e
setup_of none h2 = ok h2

module _ (h2 : Bool) where
  setup_by_answers :
      (sc ac sn co ut : Option Str)
      → (check (codes "server_config") sc
          >> (check_accept ac
              >> (check (codes "sni") sn
                  >> (check (codes "upstream_unreachable") co
                      >> (check (codes "upstream_tls") ut >> ok h2)))))
        ≡ setup_of
            (first_error (
              errors_as (codes "server_config") sc
              ∷ error_is (codes "tls_client_rejected_ca") ac
              ∷ errors_as (codes "sni") sn
              ∷ errors_as (codes "upstream_unreachable") co
              ∷ errors_as (codes "upstream_tls") ut
              ∷ []))
            h2
  setup_by_answers (some e) ac sn co ut = refl
  setup_by_answers none (some e) sn co ut = refl
  setup_by_answers none none (some e) co ut = refl
  setup_by_answers none none none (some e) ut = refl
  setup_by_answers none none none none (some e) = refl
  setup_by_answers none none none none none = refl

https_setup-first_error :
    (a : TlsAnswers)
    → https_setup a
      ≡ setup_of (first_error (steps a)) (is_h2 a.client_alpn && is_h2 a.upstream_alpn)
unfolding https_setup
https_setup-first_error a =
    setup_by_answers (is_h2 a.client_alpn && is_h2 a.upstream_alpn) (error_text a.server_config)
      a.accept a.server_name a.connect a.upstream_tls

-- `https_mitm` fails with the labelled error of the first failing step (leaf configuration, client
-- handshake, server name, upstream connection, upstream handshake, in this order) and forwards
-- nothing; with no failing step it goes on with HTTP/2 exactly when both sides negotiated it, and
-- with the HTTP/1 exchange otherwise.
pub https_mitm-first_error :
    (a : TlsAnswers) (parse : Bytes → Head) (s : Streams) (r : Request)
    → https_mitm a parse s r ≡ elim (first_error (steps a)) [
      | some e ↦ stopped e r
      | none ↦
          if is_h2 a.client_alpn && is_h2 a.upstream_alpn
          then record {
            outcome = outcome_of (first_error (Errors.steps a.h2));
            request = r;
            to_upstream = [];
            to_client = [];
            streams = (Connection.handle a.h2 r).1;
          }
          else exchange parse s r
    ]
unfolding https_mitm
https_mitm-first_error a parse s r =
    rw (https_setup-first_error a)
      (by_cases (first_error (steps a)) (is_h2 a.client_alpn && is_h2 a.upstream_alpn))
  where
    by_cases :
        (o : Option Str) (h2 : Bool)
        → https_rest (setup_of o h2) a parse s r ≡ elim o [
          | some e ↦ stopped e r
          | none ↦
              if h2
              then record {
                outcome = outcome_of (first_error (Errors.steps a.h2));
                request = r;
                to_upstream = [];
                to_client = [];
                streams = (Connection.handle a.h2 r).1;
              }
              else exchange parse s r
        ]
    by_cases (some e) h2 = refl
    by_cases none true = rw (handle-first_error a.h2 r) refl
    by_cases none false = refl
