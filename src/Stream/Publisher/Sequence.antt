-- ===== src/Stream/Publisher/Sequence.antt =====
-- src/stream.rs, `SessionPublisher`: each connection opens with the greeting, and its frames are
-- numbered without gaps.
use pprofessor.Common.{
  ℕ, ◌+◌, ◌*◌, ◌-◌, ◌^◌, ◌≤◌, ◌<◌, List, [], ◌∷◌, push, length, Option, none, some, ◌≡◌, refl, ◌∙◌,
  arith,
}
use pprofessor.Stream.{FrameKind, hello}
use pprofessor.Stream.Publisher.{
  Publisher, Frame, Answers, Connect, refused, broken, opened, Write, sent, soft, hard, Outcome,
  done, new, next_sequence, make_frame, connect, ensure_connected, write_on, send, open_or_connect,
  greeted, connected, written, after_connect,
}

-- The frames carry the numbers from `n` on, one after the other.
abbrev pub Numbered : ℕ → List Frame → Type 0
Numbered n [] = Unit {0}
Numbered n (f ∷ fs) = (f.header.sequence ≡ n) × Numbered (n + 1) fs

abbrev pub OpensWithHello : List Frame → Type 0
OpensWithHello [] = ⊥
OpensWithHello (f ∷ fs) = f.header.kind ≡ hello

-- The connection that stands open: it began with the greeting, and its frames are numbered in
-- order; the last one has the number that the publisher counts.
pub record IsOpen (sequence : ℕ) (fs : List Frame) : Type 0 where
  pub greets : OpensWithHello fs
  pub first : ℕ
  pub numbered : Numbered first fs
  pub last : first + length fs ≡ sequence + 1

abbrev pub StreamOk : ℕ → Option (List Frame) → Type 0
StreamOk n none = Unit {0}
StreamOk n (some fs) = IsOpen n fs

abbrev pub IsValid : Publisher → Type 0
IsValid p = StreamOk p.sequence p.stream

Numbered-push :
    (n : ℕ) (fs : List Frame) (f : Frame)
    → Numbered n fs
    → f.header.sequence ≡ n + length fs
    → Numbered n (push fs f)
Numbered-push n [] f h e = (e ∙ omega arith, tt)
Numbered-push n (g ∷ fs) f h e = (h.0, Numbered-push (n + 1) fs f h.1 (e ∙ omega arith))

OpensWithHello-push : (fs : List Frame) (f : Frame) → OpensWithHello fs → OpensWithHello (push fs f)
OpensWithHello-push [] f h = absurd h
OpensWithHello-push (g ∷ fs) f h = h

length-push : (fs : List Frame) (f : Frame) → length (push fs f) ≡ length fs + 1
length-push [] f = refl
length-push (g ∷ fs) f = omega (arith, length-push fs f)

IsOpen-push :
    (n : ℕ) (fs : List Frame) (kind : FrameKind) (payload : List ℕ)
    → n < 2 ^ 64 - 1
    → IsOpen n fs
    → IsOpen (next_sequence n) (push fs (make_frame kind (next_sequence n) payload))
unfolding make_frame
IsOpen-push n fs kind payload h o = record {
  greets = OpensWithHello-push fs _ o.greets;
  first = o.first;
  numbered = Numbered-push o.first fs _ o.numbered (omega (arith, o.last));
  last = omega (arith, o.last, length-push fs (make_frame kind (next_sequence n) payload));
}

-- A step of a call: the state stays valid, and at most `k` numbers are spent.
pub record Steps (k : ℕ) (p p' : Publisher) : Type 0 where
  pub valid : IsValid p'
  pub spends : p'.sequence ≤ p.sequence + k

connect-Steps : (p : Publisher) (a : Answers) → p.stream ≡ none → Steps 1 p (connect p a).0
unfolding connect make_frame
connect-Steps p a e = by_connect a.connects
  where
    by_write : (w : Write) → Steps 1 p (greeted p w).0
    by_write sent = record {
      valid = record {
        greets = refl;
        first = next_sequence p.sequence;
        numbered = (refl, tt);
        last = omega arith;
      };
      spends = omega arith;
    }
    by_write soft = record { valid = rw e tt; spends = omega arith }
    by_write hard = record { valid = rw e tt; spends = omega arith }

    by_connect : (c : Connect) → Steps 1 p (connected p a c).0
    by_connect refused = record { valid = rw e tt; spends = omega arith }
    by_connect broken = record { valid = rw e tt; spends = omega arith }
    by_connect opened = by_write a.greets

connect-IsValid_none :
    (p : Publisher) (a : Answers) (o : Option (List Frame))
    → p.stream ≡ o
    → IsValid p
    → Steps 1 p (open_or_connect p a o).0
connect-IsValid_none p a none e v = connect-Steps p a e
connect-IsValid_none p a (some fs) e v = record { valid = v; spends = omega arith }

ensure_connected-Steps :
    (p : Publisher) (a : Answers) → IsValid p → Steps 1 p (ensure_connected p a).0
unfolding ensure_connected
ensure_connected-Steps p a v = connect-IsValid_none p a p.stream refl v

write_on-Steps :
    (p : Publisher) (a : Answers) (fs : List Frame) (kind : FrameKind) (payload : List ℕ)
    → p.sequence < 2 ^ 64 - 1
    → IsOpen p.sequence fs
    → Steps 1 p (write_on p a fs kind payload).0
unfolding write_on
write_on-Steps p a fs kind payload h o = by_write a.writes
  where
    by_write :
        (w : Write)
        → Steps 1 p
            (written p fs
              (make_frame kind (next_sequence p.sequence) payload)
              (next_sequence p.sequence)
              w).0
    by_write sent = record {
      valid = IsOpen-push p.sequence fs kind payload h o;
      spends = omega arith;
    }
    by_write soft = record { valid = tt; spends = omega arith }
    by_write hard = record { valid = tt; spends = omega arith }

after_connect-Steps :
    (p : Publisher) (a : Answers) (kind : FrameKind) (payload : List ℕ) (fs? : Option (List Frame))
    (o : Outcome)
    → p.sequence < 2 ^ 64 - 1
    → StreamOk p.sequence fs?
    → IsValid p
    → Steps 1 p (after_connect a kind payload p fs? o).0
after_connect-Steps p a kind payload (some fs) done h v w = write_on-Steps p a fs kind payload h v
after_connect-Steps p a kind payload _ o h v w = record { valid = w; spends = omega arith }

pub send-Steps :
    (p : Publisher) (a : Answers) (kind : FrameKind) (payload : List ℕ)
    → p.sequence < 2 ^ 64 - 2
    → IsValid p
    → Steps 2 p (send p a kind payload).0
unfolding send
send-Steps p a kind payload h v =
    let first = ensure_connected-Steps p a v in
    let q = (ensure_connected p a).0 in
    let rest =
      after_connect-Steps q a kind payload q.stream (ensure_connected p a).1
        (omega (arith, first.spends)) first.valid first.valid in
    record { valid = rest.valid; spends = omega (arith, first.spends, rest.spends) }

-- One call of `send`, with what the network answers in its course.
pub record Call : Type 0 where
  pub answers : Answers
  pub kind : FrameKind
  pub payload : List ℕ

abbrev pub session : Publisher → List Call → Publisher
session p [] = p
session p (c ∷ cs) = session (send p c.answers c.kind c.payload).0 cs

session-IsValid_from :
    (p : Publisher) (cs : List Call)
    → p.sequence + 2 * length cs < 2 ^ 64 - 1
    → IsValid p
    → IsValid (session p cs)
session-IsValid_from p [] h v = v
session-IsValid_from p (c ∷ cs) h v =
    let step = send-Steps p c.answers c.kind c.payload (omega arith) v in
    session-IsValid_from (send p c.answers c.kind c.payload).0 cs (omega (arith, step.spends))
      step.valid

-- After any sequence of fewer than 2 ^ 62 sends of a new publisher, whatever the network answers to
-- each, a stream that stands open began with the greeting, its frames are numbered one after the
-- other, and the last has the number that the publisher counts.
pub session-IsValid :
    (greeting : List ℕ) (cs : List Call) → length cs < 2 ^ 62 → IsValid (session (new greeting) cs)
session-IsValid greeting cs h = session-IsValid_from (new greeting) cs (omega arith) tt
