-- ===== src/Conn/Transfer/Integrity.antt =====
-- What the exchange forwards.
use condukt.Prelude.{
  ℕ, ◌≡◌, refl, sym, ap, ◌∙◌, Bool, true, false, List, [], ◌∷◌, ◌++◌, Option, none, some, Str,
  length, append-nil, append_assoc, ok, err,
}
use condukt.Prelude.Bytes.{Bytes}
use condukt.Http1
use condukt.Http1.{RequestHead, Head}
use condukt.Event.{Request}
use condukt.Conn.Outcome.{Outcome}
use condukt.Conn.Transfer.{
  Read, chunk, failed, HeadRead, stop_head, read_head, add_u64, pump, Streams, Transfer, stopped,
  with_head, finish, forward_head, after_head, exchange,
}

-- the bytes that a peer sends, up to the end of its stream or its first failure
abbrev pub data_of : List Read → Bytes
data_of [] = []
data_of (failed e ∷ rest) = []
data_of (chunk [] ∷ rest) = []
data_of (chunk (b ∷ bs) ∷ rest) = (b ∷ bs) ++ data_of rest

abbrev pub Conserves : Bytes → Outcome HeadRead → Type 0
Conserves whole (err e) = Unit
Conserves whole (ok r) = r.head_buf ++ data_of r.rest ≡ whole

-- The head loop loses nothing: what it read and what is left are what was there.
pub read_head-Conserves :
    (parse : Bytes → Head) (buf : Bytes) (reads : List Read)
    → Conserves (buf ++ data_of reads) (read_head parse buf reads)
unfolding read_head
read_head-Conserves parse buf [] = refl
read_head-Conserves parse buf (failed e ∷ rest) = tt
read_head-Conserves parse buf (chunk [] ∷ rest) = refl
read_head-Conserves parse buf (chunk (b ∷ bs) ∷ rest) =
    go (parse (buf ++ (b ∷ bs))) (read_head-Conserves parse (buf ++ (b ∷ bs)) rest)
  where
    go :
        (h : Head)
        → Conserves ((buf ++ (b ∷ bs)) ++ data_of rest) (read_head parse (buf ++ (b ∷ bs)) rest)
        → Conserves (buf ++ ((b ∷ bs) ++ data_of rest)) (elim h [
          | Http1.head h ↦ stop_head (some h) (buf ++ (b ∷ bs)) rest
          | Http1.more ↦ read_head parse (buf ++ (b ∷ bs)) rest
          | Http1.error ↦ stop_head none (buf ++ (b ∷ bs)) rest
        ])
    go (Http1.head h) ih = append_assoc buf (b ∷ bs) (data_of rest)
    go Http1.more ih = rw (← append_assoc buf (b ∷ bs) (data_of rest)) ih
    go Http1.error ih = append_assoc buf (b ∷ bs) (data_of rest)

-- `sent` reaches the other side, and `lost` does not.
record Split (whole : Bytes) (from got : Bytes) : Type 0 where
  sent : Bytes
  lost : Bytes
  reaches : got ≡ from ++ sent
  splits : whole ≡ sent ++ lost

Split-nothing : (whole from : Bytes) → Split whole from from
Split-nothing whole from = record {
  sent = [];
  lost = whole;
  reaches = sym (append-nil from);
  splits = refl;
}

Split-more :
    (from bs whole got : Bytes) → Split whole (from ++ bs) got → Split (bs ++ whole) from got
Split-more from bs whole got s = record {
  sent = bs ++ s.sent;
  lost = s.lost;
  reaches = s.reaches ∙ append_assoc from bs s.sent;
  splits = ap (λ w. bs ++ w) s.splits ∙ sym (append_assoc bs s.sent s.lost);
}

pump-Split :
    (total : ℕ) (written : Bytes) (reads : List Read) (writes : List Bool)
    → Split (data_of reads) written (pump total written reads writes).1
unfolding pump
pump-Split total written [] writes = Split-nothing [] written
pump-Split total written (failed e ∷ rest) writes = Split-nothing [] written
pump-Split total written (chunk [] ∷ rest) writes = Split-nothing [] written
pump-Split total written (chunk (b ∷ bs) ∷ rest) [] =
    Split-more written (b ∷ bs) (data_of rest) _
      (pump-Split (add_u64 total (length (b ∷ bs))) (written ++ (b ∷ bs)) rest [])
pump-Split total written (chunk (b ∷ bs) ∷ rest) (true ∷ writes) =
    Split-more written (b ∷ bs) (data_of rest) _
      (pump-Split (add_u64 total (length (b ∷ bs))) (written ++ (b ∷ bs)) rest writes)
pump-Split total written (chunk (b ∷ bs) ∷ rest) (false ∷ writes) =
    Split-nothing (data_of (chunk (b ∷ bs) ∷ rest)) written

-- What comes out on each side is a prefix of what went in on the other.
pub record IsFaithful (s : Streams) (t : Transfer) : Type 0 where
  pub unsent : Bytes
  pub undelivered : Bytes
  pub upstream_prefix : data_of s.client_reads ≡ t.to_upstream ++ unsent
  pub client_prefix : data_of s.upstream_reads ≡ t.to_client ++ undelivered

stopped-IsFaithful : (s : Streams) (e : Str) (r : Request) → IsFaithful s (stopped e r)
stopped-IsFaithful s e r = record {
  unsent = data_of s.client_reads;
  undelivered = data_of s.upstream_reads;
  upstream_prefix = refl;
  client_prefix = refl;
}

finish-IsFaithful :
    (s : Streams) (h : HeadRead) (r : Request)
    → h.head_buf ++ data_of h.rest ≡ data_of s.client_reads
    → IsFaithful s (finish h s r)
unfolding finish
finish-IsFaithful s h r e =
    let up = pump-Split 0 [] h.rest s.upstream_writes in
    let down = pump-Split 0 [] s.upstream_reads s.client_writes in
    record {
      unsent = up.lost;
      undelivered = down.lost;
      upstream_prefix =
          sym e
          ∙ (ap (λ w. h.head_buf ++ w) (up.splits ∙ ap (λ w. w ++ up.lost) (sym up.reaches))
              ∙ sym (append_assoc h.head_buf _ up.lost));
      client_prefix = down.splits ∙ ap (λ w. w ++ down.lost) (sym down.reaches);
    }

after_head-IsFaithful :
    (s : Streams) (r : Request) (o : Outcome HeadRead)
    → Conserves (data_of s.client_reads) o
    → IsFaithful s (after_head s r o)
after_head-IsFaithful s r (err e) c = stopped-IsFaithful s e r
after_head-IsFaithful s r (ok h) c = forwarded s.head_write
  where
    forwarded : (w : Option Str) → IsFaithful s (forward_head w h s (with_head h.head r))
    forwarded (some e) = stopped-IsFaithful s _ (with_head h.head r)
    forwarded none = finish-IsFaithful s h (with_head h.head r) c

-- Whatever the parser says of the head, and whichever reads and writes fail, the bytes sent to the
-- upstream are a prefix of the bytes that the client sent, and the bytes sent to the client are a
-- prefix of those of the upstream: nothing is lost in between, repeated or reordered.
pub exchange-IsFaithful :
    (parse : Bytes → Head) (s : Streams) (r : Request) → IsFaithful s (exchange parse s r)
unfolding exchange
exchange-IsFaithful parse s r =
    after_head-IsFaithful s r (read_head parse [] s.client_reads)
      (read_head-Conserves parse [] s.client_reads)
