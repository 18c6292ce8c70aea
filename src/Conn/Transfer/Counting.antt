-- ===== src/Conn/Transfer/Counting.antt =====
-- What the counters of a transfer hold.
use condukt.Prelude.{
  ℕ, ◌+◌, ◌^◌, ◌<◌, ◌≡◌, refl, sym, ap, ◌∙◌, Bool, true, false, List, [], ◌∷◌, ◌++◌, Option, none,
  some, Str, All, arith, length, length-append, append-nil, append_assoc, ok, err,
}
use Prim.Native.Nat.{◌%◌}
use condukt.Prelude.Bytes.{Bytes}
use condukt.Http1.{Head}
use condukt.Event.{Request}
use condukt.Conn.Outcome.{Outcome}
use condukt.Conn.Transfer.{
  Read, chunk, failed, HeadRead, read_head, add_u64, pump, Streams, Transfer, with_head, finish,
  forward_head, after_head, exchange,
}
use condukt.Conn.Transfer.Integrity.{data_of, Conserves, read_head-Conserves}

-- adding in two parts
add_u64_assoc : (a b c : ℕ) → add_u64 (add_u64 a b) c ≡ add_u64 a (b + c)
add_u64_assoc a b c = omega arith

-- One direction: all of the data when the writes succeed, and a prefix of it in any case.
pump-All :
    (total : ℕ) (written : Bytes) (reads : List Read) (writes : List Bool)
    → total < 2 ^ 64
    → All (λ b. b ≡ true) writes
    → pump total written reads writes
      ≡ (add_u64 total (length (data_of reads)), written ++ data_of reads)
unfolding pump
pump-All total written [] writes m h = ground (arith, append-nil written)
pump-All total written (failed e ∷ rest) writes m h = ground (arith, append-nil written)
pump-All total written (chunk [] ∷ rest) writes m h = ground (arith, append-nil written)
pump-All total written (chunk (b ∷ bs) ∷ rest) [] m h = ground (
  arith,
  pump-All (add_u64 total (length (b ∷ bs))) (written ++ (b ∷ bs)) rest [] (omega arith) tt,
  length-append bs (data_of rest),
  append_assoc written (b ∷ bs) (data_of rest),
)
pump-All total written (chunk (b ∷ bs) ∷ rest) (true ∷ writes) m h = ground (
  arith,
  pump-All (add_u64 total (length (b ∷ bs))) (written ++ (b ∷ bs)) rest writes (omega arith) h.1,
  length-append bs (data_of rest),
  append_assoc written (b ∷ bs) (data_of rest),
)
pump-All total written (chunk (b ∷ bs) ∷ rest) (false ∷ writes) m h = absurd (ground arith)

-- What the counters hold, with what the head loop has read of the client, and what it has left.
pub record IsCounted (parse : Bytes → Head) (s : Streams) (t : Transfer) : Type 0 where
  pub head_read : HeadRead
  pub reads_head : read_head parse [] s.client_reads ≡ ok head_read
  pub client_data : data_of s.client_reads ≡ head_read.head_buf ++ data_of head_read.rest
  pub upstream : t.to_upstream ≡ data_of s.client_reads
  pub client : t.to_client ≡ data_of s.upstream_reads
  pub counted_in : t.request.bytes_in ≡ length (data_of head_read.rest) % 2 ^ 64
  pub counted_out :
      t.request.bytes_out ≡ (length head_read.head_buf + length (data_of s.upstream_reads)) % 2 ^ 64
  pub finished : t.request.finished_at ≡ some s.finished

module _ (parse : Bytes → Head) (s : Streams) (r : Request) where
  finish-IsCounted :
      (h : HeadRead) (q : Request)
      → read_head parse [] s.client_reads ≡ ok h
      → h.head_buf ++ data_of h.rest ≡ data_of s.client_reads
      → All (λ b. b ≡ true) s.upstream_writes
      → All (λ b. b ≡ true) s.client_writes
      → IsCounted parse s (finish h s q)
  unfolding finish
  finish-IsCounted h q read e up down =
      let sent = pump-All 0 [] h.rest s.upstream_writes (omega arith) up in
      let got = pump-All 0 [] s.upstream_reads s.client_writes (omega arith) down in
      record {
        head_read = h;
        reads_head = read;
        client_data = sym e;
        upstream = ap (λ (p : ℕ × Bytes). h.head_buf ++ p.1) sent ∙ e;
        client = ap (λ (p : ℕ × Bytes). p.1) got;
        counted_in = ap (λ (p : ℕ × Bytes). p.0) sent ∙ omega arith;
        counted_out = ap (λ (p : ℕ × Bytes). add_u64 (length h.head_buf) p.0) got ∙ omega arith;
        finished = refl;
      }

  after_head-IsCounted :
      (o : Outcome HeadRead)
      → read_head parse [] s.client_reads ≡ o
      → Conserves (data_of s.client_reads) o
      → (after_head s r o).outcome ≡ ok tt
      → All (λ b. b ≡ true) s.upstream_writes
      → All (λ b. b ≡ true) s.client_writes
      → IsCounted parse s (after_head s r o)
  after_head-IsCounted (err e) read c q up down = absurd (ground arith)
  after_head-IsCounted (ok h) read c q up down = forwarded s.head_write q
    where
      forwarded :
          (w : Option Str)
          → (forward_head w h s (with_head h.head r)).outcome ≡ ok tt
          → IsCounted parse s (forward_head w h s (with_head h.head r))
      forwarded (some e) q = absurd (ground arith)
      forwarded none q = finish-IsCounted h (with_head h.head r) read c up down

-- When the exchange succeeds and no write of the splice fails, every byte of either peer reaches the
-- other; `bytes_in` counts what the client sent behind the bytes that the head loop has read, and
-- `bytes_out` these bytes and what the upstream sent, both modulo 2 ^ 64.
pub exchange-IsCounted :
    (parse : Bytes → Head) (s : Streams) (r : Request)
    → (exchange parse s r).outcome ≡ ok tt
    → All (λ b. b ≡ true) s.upstream_writes
    → All (λ b. b ≡ true) s.client_writes
    → IsCounted parse s (exchange parse s r)
unfolding exchange
exchange-IsCounted parse s r =
    after_head-IsCounted parse s r (read_head parse [] s.client_reads) refl
      (read_head-Conserves parse [] s.client_reads)
