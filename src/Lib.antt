-- ===== src/Lib.antt =====
-- The Rust code of condukt: the egress sidecar and the two native sandboxes of an agent session.
--
-- The sidecar (native/condukt_egress) runs next to a workspace container. Its `netfilter-setup` mode
-- installs rules that redirect the workspace's outgoing TCP traffic to it; its `proxy` mode names the
-- host of each redirected connection, asks the session's policy, and where the policy leaves the host
-- open asks the BEAM over a control channel; it then refuses the connection or carries its bytes to the
-- upstream, and emits an event for every step. native/condukt_bashkit offers a virtual file system and
-- shell to a session, and native/condukt_microsandbox a microVM.
--
-- Which file models which part:
--   Startup       native/condukt_egress/src/main.rs and native/condukt_egress/src/proxy/mod.rs: `main`,
--                 `run_async` and its accept loop, over the list of the connections that come. The CA is
--                 loaded by Tls/Minting. Startup/Served puts the start and the runs of Proxy together.
--   Netfilter     native/condukt_egress/src/netfilter.rs: `build_rules` and `run`, a loop over the
--                 external `iptables`. Netfilter/Chain is the chain that it fills.
--   Policy        native/condukt_egress/src/proxy/policy.rs: the policy record and `evaluate`.
--   Glob          the same file: `compile`, `match_tokens`, `matches_one` and `matches_any`, over code
--                 points. Glob/Relation is the matching relation of the code, Glob/Documented that of
--                 the documented syntax.
--   Event         native/condukt_egress/src/proxy/event.rs: requests, events and frames as data.
--   Sni           native/condukt_egress/src/proxy/sni.rs: `extract` and `looks_like_tls`.
--   Http1         native/condukt_egress/src/proxy/http1.rs: `parse`.
--   Control       native/condukt_egress/src/proxy/control.rs. The state is the buffer of frames, the map
--                 of pending decisions, and for each call of `request_decision` where it stands and what
--                 its oneshot channel holds. A call is cut at its waits: `register`, `send`, then
--                 `receive` or `give_up` and `clean`; `handle_line` is the reader's step and `recv` the
--                 writer's. Control/Steps has the step relation of all parties, Control/Loops the
--                 loops around the reader's and the writer's step, and Control/Peers `accept_loop` for
--                 one peer after the other.
--   Conn          native/condukt_egress/src/proxy/conn.rs: Conn/Host is `identify_host`, Conn/Handle is
--                 `handle` as the list of its effects in order, Conn/Outcome its errors
--                 and their labels, Conn/Https the fallible steps of `https_mitm` and `http_forward`,
--                 Conn/Https/Calls these steps as calls with their arguments, Conn/Roots the
--                 certificates that an upstream is checked against, and Conn/Transfer the loops that
--                 move bytes.
--   Proxy         the same file and native/condukt_egress/src/proxy/mod.rs: the handlers of all
--                 connections at once over one control channel and one CA. Conn/Stages cuts a handler
--                 where it emits an event, where `request_decision` or `server_config_for` is under
--                 way, and where it transfers. What a transfer does besides `server_config_for` and its
--                 events is one step, although it has waits of its own without a limit of time: nothing is
--                 said of whether a handler returns. Proxy/Traces and Proxy/Runs are the invariant, and
--                 Proxy/Handling ties a run to `handle`.
--   OrigDst       native/condukt_egress/src/proxy/orig_dst.rs: `original_dst` on Linux, over the bytes that
--                 the system call writes.
--   Tls           native/condukt_egress/src/proxy/tls.rs: the cache of `server_config_for`, under
--                 interleaved calls, which are cut where they hold no lock. Tls/Minting is `load`,
--                 `from_pem` and `mint` over the crates rcgen and rustls.
--   H2            native/condukt_egress/src/proxy/h2.rs: `proxy_stream` as the list of its effects.
--                 H2/Connection cuts it at its waits, and is `drive` and `handle` for any order of the
--                 steps of the streams. The lock around the upstream's sender is given in the order in
--                 which it is asked for, as the documents of `tokio::sync::Mutex` say.
--   Bashkit       native/condukt_bashkit/src/lib.rs: Bashkit/Session has the operations of a session
--                 over an interpreter, which is a parameter, and the other children their helpers.
--                 Bashkit/Session/Interleaved cuts `read_file`, `write_file` and `edit_file`, which release
--                 the lock early, where they hold none.
--   Microsandbox  native/condukt_microsandbox/src/lib.rs: the operations of a session over the crate,
--                 which is a parameter. Microsandbox/Interleaved cuts them between the clone or the
--                 taking of the sandbox and its use, and Microsandbox/Opening is `new_session`.
--   Prelude       what the parts share: Boolean tests, lists, Rust's strings (`Str`, the list of code
--                 points), bytes with `from_utf8`, hash maps as association lists, and decimal numbers.
--
-- How code becomes definitions. A struct is a record, an enum a data type. Code that waits or fails
-- takes what the outside answers as an argument, and gives its effects as a list or its new state.
-- Crates, sockets, clocks and identifiers are parameters: records such as `TlsParser`, `Answers`,
-- `Backend` and `System`. Theorems ask laws of some of them: of `iptables` that a call that
-- succeeds has appended its rule and one that fails has left the chain alone (`Appends`), and of rcgen
-- and rustls that a signed certificate says what its parameters say and that a configuration presents
-- the chain that it is given (`Certifying`). A third, `Confines`, says of the sandboxes' builders that
-- a mount opens the tree at its path, and for writing only with the mode `readwrite`.
--
-- Bounds. Every loop is structural recursion. `decimal` takes the number itself, plus one, as fuel for
-- its digits, which is more than a number has digits. `parse_u64` fails above 2 ^ 64 - 1, as the code's
-- does; ports and uids are in range by hypothesis where it matters; the byte counters of a transfer wrap
-- around at 2 ^ 64, as they do in a release build. The buffer of the control channel holds 1024 frames.
--
-- What is not modelled: the JSON forms and the parsing of the command line, whose code serde and clap
-- generate; the bodies of an HTTP/2 connection, which hyper carries; the sockets of the control channel;
-- of a write that fails, how many of its bytes were sent; a failed allocation; a task of tokio that is
-- made to wait because its budget is spent; and, in the virtual sandbox, calls that use the file system
-- in the middle of a command. Exit codes are natural numbers.
-- What is not Rust is not modelled either.
pub mod Bashkit
pub mod Conn
pub mod Control
pub mod Event
pub mod Glob
pub mod H2
pub mod Http1
pub mod Microsandbox
pub mod Netfilter
pub mod OrigDst
pub mod Policy
pub mod Prelude
pub mod Proxy
pub mod Sni
pub mod Startup
pub mod Tls
