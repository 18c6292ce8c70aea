-- ===== src/Conn/Transfer.antt =====
-- The loops that move bytes: the head loop of `https_h1` and `http_forward`, and `splice_pairs`.
-- What a peer sends is a list of reads. A write is answered by a Boolean, and succeeds past the end
-- of the list of answers; what a failed write sent of its bytes is not counted as written.
pub mod Integrity
pub mod Counting
use condukt.Prelude.{
  ℕ, ◌+◌, ◌^◌, Bool, true, false, List, [], ◌∷◌, ◌++◌, Option, none, some, Str, codes,
  if◌then◌else◌, length, ok, err,
}
use Prim.Native.Nat.{◌%◌}
use condukt.Prelude.Bytes.{Bytes}
use condukt.Http1
use condukt.Http1.{RequestHead, Head}
use condukt.Event.{Request, DateTime}
use condukt.H2
use condukt.Conn.Outcome.{Outcome, labelled}

-- One result of `read`. `chunk []` is the end of the stream, where later reads end too, and so is
-- the end of the list.
pub data Read : Type 0 where
  chunk : Bytes → Read
  failed : Str → Read

-- what the head loop leaves: the head, the bytes read for it, and the reads that are left
pub record HeadRead : Type 0 where
  pub head : Option RequestHead
  pub head_buf : Bytes
  pub rest : List Read

abbrev pub stop_head : Option RequestHead → Bytes → List Read → Outcome HeadRead
stop_head head head_buf rest = ok (record { head = head; head_buf = head_buf; rest = rest })

unfoldable pub read_head : (Bytes → Head) → Bytes → List Read → Outcome HeadRead
read_head parse head_buf [] = stop_head none head_buf []
read_head parse head_buf (failed e ∷ rest) = err (labelled (codes "read_head") e)
read_head parse head_buf (chunk [] ∷ rest) = stop_head none head_buf (chunk [] ∷ rest)
read_head parse head_buf (chunk (b ∷ bs) ∷ rest) =
    let grown = head_buf ++ (b ∷ bs) in
    elim (parse grown) [
      | Http1.head h ↦ stop_head (some h) grown rest
      | Http1.more ↦ read_head parse grown rest
      | Http1.error ↦ stop_head none grown rest
    ]

-- addition on `u64`, which wraps around in a release build
abbrev pub add_u64 : ℕ → ℕ → ℕ
add_u64 a b = (a + b) % 2 ^ 64

-- One direction of `splice_pairs`: the total that it counts and the bytes that it wrote.
unfoldable pub pump : ℕ → Bytes → List Read → List Bool → ℕ × Bytes
pump total written [] writes = (total, written)
pump total written (failed e ∷ rest) writes = (total, written)
pump total written (chunk [] ∷ rest) writes = (total, written)
pump total written (chunk (b ∷ bs) ∷ rest) [] =
    pump (add_u64 total (length (b ∷ bs))) (written ++ (b ∷ bs)) rest []
pump total written (chunk (b ∷ bs) ∷ rest) (false ∷ writes) =
    (add_u64 total (length (b ∷ bs)), written)
pump total written (chunk (b ∷ bs) ∷ rest) (true ∷ writes) =
    pump (add_u64 total (length (b ∷ bs))) (written ++ (b ∷ bs)) rest writes

-- what stands around the loops, from the head to the end of both directions
pub record Streams : Type 0 where
  pub client_reads : List Read
  pub upstream_reads : List Read
  pub head_write : Option Str
  pub upstream_writes : List Bool
  pub client_writes : List Bool
  pub finished : DateTime

pub record Transfer : Type 0 where
  pub outcome : Outcome (Unit {0})
  pub request : Request
  pub to_upstream : Bytes
  pub to_client : Bytes
  -- what the streams of an HTTP/2 connection did, in order
  pub streams : List (ℕ × H2.Effect)

abbrev pub stopped : Str → Request → Transfer
stopped e request = record {
  outcome = err e;
  request = request;
  to_upstream = [];
  to_client = [];
  streams = [];
}

-- the captured head goes into the request
unfoldable pub with_head : Option RequestHead → Request → Request
with_head none request = request
with_head (some head) request = record request {
  method = some head.method;
  path = some head.path;
  request_headers = some head.headers;
}

-- `tokio::join!(client_to_up, up_to_client)`: the totals in that order, and the bytes written
unfoldable pub splice_pairs : List Read → Streams → (ℕ × ℕ) × Bytes × Bytes
unfolding pump
splice_pairs rest s =
    let (client_to_up, up_bytes) = pump 0 [] rest s.upstream_writes in
    let (up_to_client, client_bytes) = pump 0 [] s.upstream_reads s.client_writes in
    ((client_to_up, up_to_client), up_bytes, client_bytes)

-- The end of `https_h1` and of `http_forward`, which bind the totals as `(bytes_in, bytes_out)`.
unfoldable pub finish : HeadRead → Streams → Request → Transfer
unfolding splice_pairs
finish r s request =
    let ((bytes_in, bytes_out), up_bytes, client_bytes) = splice_pairs r.rest s in
    record {
      outcome = ok tt;
      request = record request {
        bytes_in = bytes_in;
        bytes_out = add_u64 (length r.head_buf) bytes_out;
        finished_at = some s.finished;
      };
      to_upstream = r.head_buf ++ up_bytes;
      to_client = client_bytes;
      streams = [];
    }

abbrev pub forward_head : Option Str → HeadRead → Streams → Request → Transfer
forward_head (some e) r s request = stopped (labelled (codes "forward_head") e) request
forward_head none r s request = finish r s request

abbrev pub after_head : Streams → Request → Outcome HeadRead → Transfer
after_head s request (err e) = stopped e request
after_head s request (ok r) = forward_head s.head_write r s (with_head r.head request)

-- `https_h1`, and `http_forward` once it is connected
unfoldable pub exchange : (Bytes → Head) → Streams → Request → Transfer
unfolding read_head with_head finish
exchange parse s request = after_head s request (read_head parse [] s.client_reads)
