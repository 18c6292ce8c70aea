-- ===== src/Bashkit/Session/Interleaved/Race.antt =====
-- Two edits of one file whose reads both come before their writes.
use condukt.Prelude.{ℕ, ◌≡◌, ◌≢◌, refl, ap, ◌∙◌, false, Str, ==_iff, ok, arith}
use condukt.Prelude.Bytes.{Bytes}
use condukt.Bashkit.Edit.{count_occurrences, replace_first}
use condukt.Bashkit.Reply.{answered}
use condukt.Bashkit.Session.{Backend, Session}
use condukt.Bashkit.Session.Interleaved.{
  EditCall, Call, Answer, Phase, Shared, begin, advance, step,
}

-- What two calls see of a state.
record View {B : Type 0} (t u : ℕ) (p q : Phase) (s : Session B) (x : Shared B) : Type 0 where
  first : x.phase t ≡ p
  second : x.phase u ≡ q
  session : x.session ≡ s

module _ {B : Type 0} (b : Backend B) (t u : ℕ) (distinct : t ≢ u) where
  step_first :
      {p q : Phase} {s : Session B} {x : Shared B} (p' : Phase) (s' : Session B)
      → View t u p q s x
      → advance b p s ≡ (p', s')
      → View t u p' q s' (step b t x)
  unfolding step
  step_first p' s' v e = record {
    first = rw ((==_iff t t).1 refl, v.first, v.session, e) refl;
    second = ground (arith, ==_iff t u, v.second);
    session = rw (v.first, v.session, e) refl;
  }

  step_second :
      {p q : Phase} {s : Session B} {x : Shared B} (q' : Phase) (s' : Session B)
      → View t u p q s x
      → advance b q s ≡ (q', s')
      → View t u p q' s' (step b u x)
  unfolding step
  step_second q' s' v e = record {
    first = ground (arith, ==_iff u t, v.first);
    second = rw ((==_iff u u).1 refl, v.second, v.session, e) refl;
    session = rw (v.second, v.session, e) refl;
  }

-- Both calls edit the same readable file under a sound lock, each old text occurs in it once, and
-- both writes succeed.
pub record Contended {B : Type 0} (b : Backend B) (first second : EditCall) (s : Session B)
    (content : Str) : Type 0 where
  pub same_path : second.path ≡ first.path
  pub bytes : Bytes
  pub sound : s.poisoned ≡ false
  pub readable : b.read_file first.path s.bash ≡ ok bytes
  pub decoded : b.from_utf8_lossy bytes ≡ content
  pub once : count_occurrences content first.old_text ≡ 1
  pub once_too : count_occurrences content second.old_text ≡ 1
  pub between : B
  pub after : B
  pub writes :
      b.write_file first.path
        (b.as_bytes (replace_first content first.old_text first.new_text))
        s.bash
      ≡ (ok tt, between)
  pub writes_too :
      b.write_file first.path
        (b.as_bytes (replace_first content second.old_text second.new_text))
        between
      ≡ (ok tt, after)

abbrev pub succeeded : Str → EditCall → Phase
succeeded content call = Phase.returned (
    answered (
      Answer.edited
        (record { occurrences = 1; content = replace_first content call.old_text call.new_text })))

-- the order in which both are read before either is written
abbrev pub interleaved : {B : Type 0} → Backend B → (ℕ → Call) → ℕ → ℕ → Session B → Shared B
interleaved b calls t u s =
    step b u (step b t (step b u (step b t (step b u (step b t (begin calls s))))))

-- the three steps of one call that replaces its occurrence
module _ {B : Type 0} (b : Backend B) (call : EditCall) where
  advance_locks :
      (s : Session B)
      → s.poisoned ≡ false
      → advance b (Phase.locking (Call.edit_call call)) s ≡ (Phase.examining call, s)
  advance_locks s sound = rw sound refl

  advance_reads :
      (s : Session B) (bytes : Bytes) (content : Str)
      → b.read_file call.path s.bash ≡ ok bytes
      → b.from_utf8_lossy bytes ≡ content
      → count_occurrences content call.old_text ≡ 1
      → advance b (Phase.examining call) s
        ≡ (Phase.replacing call (replace_first content call.old_text call.new_text), s)
  advance_reads s bytes content readable decoded once = rw (readable, decoded, once) refl

  advance_writes :
      (s : Session B) (new_content : Str) (after : B)
      → b.write_file call.path (b.as_bytes new_content) s.bash ≡ (ok tt, after)
      → advance b (Phase.replacing call new_content) s ≡ (
        Phase.returned
            (answered (Answer.edited (record { occurrences = 1; content = new_content }))),
        record s { bash = after },
      )
  advance_writes s new_content after writes = rw writes refl

-- In this order both edits of the contended file answer that they replaced their one occurrence, each
-- with its own new content, and the file system is left by the second write: what a file system
-- reads back is the second call's content alone, which is made from the content before both, so that
-- the edit of the first call is lost without an error.
pub interleaved_loses_first :
    {B : Type 0} (b : Backend B) (calls : ℕ → Call) (t u : ℕ) (s : Session B) (content : Str)
    (one two : EditCall)
    → t ≢ u
    → calls t ≡ Call.edit_call one
    → calls u ≡ Call.edit_call two
    → ((path : Str) (bytes : Bytes) (before after : B)
        → b.write_file path bytes before ≡ (ok tt, after)
        → b.read_file path after ≡ ok bytes)
    → Contended b one two s content
    → let x = interleaved b calls t u s in
      (x.phase t ≡ succeeded content one)
      × (x.phase u ≡ succeeded content two)
      × (b.read_file one.path x.session.bash
          ≡ ok (b.as_bytes (replace_first content two.old_text two.new_text)))
interleaved_loses_first b calls t u s content one two distinct is_one is_two reads_back c =
    let written = λ (call : EditCall). replace_first content call.old_text call.new_text in
    let v1 =
      step_first b t u distinct _ _
        (record {
          first = ap Phase.locking is_one;
          second = ap Phase.locking is_two;
          session = refl;
        })
        (advance_locks b one s c.sound) in
    let v2 = step_second b t u distinct _ _ v1 (advance_locks b two s c.sound) in
    let v3 =
      step_first b t u distinct _ _ v2
        (advance_reads b one s c.bytes content c.readable c.decoded c.once) in
    let v4 = step_second b t u distinct _ _ v3 (
      advance_reads b two s c.bytes content
        (ap (λ path. b.read_file path s.bash) c.same_path ∙ c.readable) c.decoded c.once_too) in
    let v5 =
      step_first b t u distinct _ _ v4 (advance_writes b one s (written one) c.between c.writes) in
    let v6 = step_second b t u distinct _ _ v5 (
      advance_writes b two (record s { bash = c.between }) (written two) c.after
        (ap (λ path. b.write_file path (b.as_bytes (written two)) c.between) c.same_path
          ∙ c.writes_too)) in
    (v6.first, v6.second, rw v6.session (reads_back _ _ c.between c.after c.writes_too))
