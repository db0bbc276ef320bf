-- ===== src/Stream/Publisher.antt =====
-- src/stream.rs, `SessionPublisher`. The network is the environment: each call of it takes its
-- outcome from a list of answers, and a connection is the list of the frames that went out on it.
pub mod Sequence
pub mod Checkpoint
use Prim.Native.Nat.{min}
use pprofessor.Common.{
  ℕ, ◌+◌, ◌-◌, ◌^◌, List, [], ◌∷◌, push, length, Bool, true, false, Option, none, some,
  if◌then◌else◌,
}
use pprofessor.Stream.{FrameKind, hello, StreamHeader, encode}

-- `TcpStream::connect_timeout` and the calls that prepare the stream and the greeting: refused or
-- timed out, failed in another way, or open.
pub data Connect : Type 0 where
  refused broken opened : Connect

-- `write_all` of a frame: `soft` is one of the four kinds of error on which `send` gives up quietly
-- (broken pipe, reset, timeout, would block), `hard` any other.
pub data Write : Type 0 where
  sent soft hard : Write

-- What the network answers in the course of one call.
pub record Answers : Type 0 where
  pub connects : Connect
  pub greets : Write
  pub writes : Write

pub record Frame : Type 0 where
  pub header : StreamHeader
  pub payload : List ℕ

pub record Publisher : Type 0 where
  pub greeting : List ℕ
  pub stream : Option (List Frame)
  pub sequence : ℕ
  pub just_connected : Bool

-- `Ok(true)`, `Ok(false)` and `Err(_)`.
pub data Outcome : Type 0 where
  done not_sent error : Outcome

abbrev pub new : List ℕ → Publisher
new greeting = record { greeting = greeting; stream = none; sequence = 0; just_connected = false }

-- `self.sequence.saturating_add(1)` on a u64.
abbrev pub next_sequence : ℕ → ℕ
next_sequence n = min (n + 1) (2 ^ 64 - 1)

-- The frame that `write_frame` puts on the stream.
unfoldable pub make_frame : FrameKind → ℕ → List ℕ → Frame
make_frame kind sequence payload = record {
  header = record {
    major = 1;
    minor = 0;
    kind = kind;
    flags = 0;
    sequence = sequence;
    payload_len = length payload;
  };
  payload = payload;
}

-- A greeting that cannot be written is an error, whatever its kind, and leaves no stream.
abbrev pub greeted : Publisher → Write → Publisher × Outcome
greeted p sent =
    let n = next_sequence p.sequence in
    (
      record p {
        stream = some (make_frame hello n p.greeting ∷ []);
        sequence = n;
        just_connected = true;
      },
      done,
    )
greeted p soft = (record p { sequence = next_sequence p.sequence }, error)
greeted p hard = (record p { sequence = next_sequence p.sequence }, error)

abbrev pub connected : Publisher → Answers → Connect → Publisher × Outcome
connected p a refused = (p, not_sent)
connected p a broken = (p, error)
connected p a opened = greeted p a.greets

unfoldable pub connect : Publisher → Answers → Publisher × Outcome
unfolding make_frame
connect p a = connected p a a.connects

abbrev pub open_or_connect : Publisher → Answers → Option (List Frame) → Publisher × Outcome
open_or_connect p a (some fs) = (p, done)
open_or_connect p a none = connect p a

unfoldable pub ensure_connected : Publisher → Answers → Publisher × Outcome
unfolding connect
ensure_connected p a = open_or_connect p a p.stream

-- `send` on an open stream.
abbrev pub written : Publisher → List Frame → Frame → ℕ → Write → Publisher × Outcome
written p fs f n sent = (record p { stream = some (push fs f); sequence = n }, done)
written p fs f n soft = (record p { stream = none; sequence = n }, not_sent)
written p fs f n hard = (record p { stream = none; sequence = n }, error)

unfoldable pub write_on :
    Publisher → Answers → List Frame → FrameKind → List ℕ → Publisher × Outcome
unfolding make_frame
write_on p a fs kind payload =
    let n = next_sequence p.sequence in written p fs (make_frame kind n payload) n a.writes

abbrev pub after_connect :
    Answers → FrameKind → List ℕ → Publisher → Option (List Frame) → Outcome → Publisher × Outcome
after_connect a kind payload p (some fs) done = write_on p a fs kind payload
after_connect a kind payload p _ o = (p, o)

unfoldable pub send : Publisher → Answers → FrameKind → List ℕ → Publisher × Outcome
unfolding write_on ensure_connected
send p a kind payload =
    let (p', o) = ensure_connected p a in after_connect a kind payload p' p'.stream o

-- `take_just_connected`: the flag, which is then cleared.
unfoldable pub take_just_connected : Publisher → Publisher × Bool
take_just_connected p = (record p { just_connected = false }, p.just_connected)
