-- ===== src/H2/Tests.antt =====
-- A stream that the upstream answers, a second one that the server drops, and the theorems at them.
use condukt.Prelude.{List, [], ◌∷◌, none, some, codes}
use condukt.Event.{Request, new_request}
use condukt.H2.{Incoming, Answers, proxy_stream}
use condukt.H2.Connection.{Exchanges, start, polls, drops, Turn, run}
use condukt.H2.Connection.Exclusion.{Streamed, run-Streamed}
use condukt.H2.Streams.{IsStream, proxy_stream-IsStream}

abbrev answers : Answers
answers = record { id = codes "s1"; clock = λ t. t; sent = some 204; send_error = [] }

abbrev request : Incoming
request = record {
  method = codes "GET";
  path_and_query = none;
  headers = record { name = codes "accept"; to_str = none } ∷ [];
}

abbrev base : Request
base = new_request (codes "c1") 0 (codes "a.org") 443 none none

proxy_stream-IsStream_example : IsStream answers (some 204) base (proxy_stream answers request base)
proxy_stream-IsStream_example = proxy_stream-IsStream answers request base

abbrev exchanges : Exchanges
exchanges = record { request = λ t. request; answers = λ t. record answers { id = t ∷ [] } }

-- stream 1 asks for the lock while stream 0 has it, and is dropped
abbrev turns : List Turn
turns = polls 0 ∷ polls 1 ∷ polls 0 ∷ polls 1 ∷ drops 1 ∷ polls 0 ∷ []

run-Streamed_example : Streamed exchanges base (run exchanges base turns start)
run-Streamed_example = run-Streamed exchanges base turns
