-- ===== src/Realtime/Protocol/Frames.antt =====
-- The frame of a server-sent event is read back as the lines that were put in.
use Prim.Native.Char.{Char, code}
use Prim.Native.String
use text.Mathlib.TextLemmas.{nil-append, cons-append, append_assoc}
use bighead.Common.{
  String, true, false, ◌&&◌, ◌≡◌, refl, ◌∙◌, ◌≢◌, inl, inr, Option, none, some, arith, eqb,
  if◌then◌else◌, or_empty, or_null, ◌>>=◌, ◌>>◌, guard, ◌==◌, truthy, truthy?, Bool-cases,
}
use bighead.Realtime.Protocol.{encode_sse}

abbrev pub NoNewline : String → Type 0
NoNewline String.[] = Unit
NoNewline (String.◌∷◌ c s) = (code c ≢ 10) × NoNewline s

abbrev cons_line : Char → Option (String × String) → Option (String × String)
cons_line c none = none
cons_line c (some (line, rest)) = some (String.◌∷◌ c line, rest)

-- The first line and what follows it.
abbrev cut_line : String → Option (String × String)
cut_line String.[] = none
cut_line (String.◌∷◌ c s) =
    let rest = cut_line s in if eqb (code c) 10 then some ("", s) else cons_line c rest

abbrev strip : String → String → Option String
strip String.[] s = some s
strip (String.◌∷◌ c p) String.[] = none
strip (String.◌∷◌ c p) (String.◌∷◌ d s) =
    let rest = strip p s in if eqb (code c) (code d) then rest else none

-- A reader of one frame, after the standard's field names: the id, the event and the data.
read_rest : Option String → String → Option (Option String × String × String)
read_rest id s = do
  (event_line, s₁) ← cut_line s
  event ← strip "event: " event_line
  (data_line, s₂) ← cut_line s₁
  body ← strip "data: " data_line
  (blank, s₃) ← cut_line s₂
  guard (blank == "" && s₃ == "")
  some (id, event, body)

read_after : Option String → String → String → Option (Option String × String × String)
read_after none whole rest = read_rest none whole
read_after (some id) whole rest = read_rest (some id) rest

pub read_frame : String → Option (Option String × String × String)
unfolding read_rest read_after
read_frame s = do (first, rest) ← cut_line s; read_after (strip "id: " first) s rest

cut_line-append :
    (line rest : String)
    → NoNewline line
    → cut_line (String.◌++◌ line (String.◌++◌ "\n" rest)) ≡ some (line, rest)
cut_line-append String.[] rest h = rw (nil-append, cons-append, nil-append)
cut_line-append (String.◌∷◌ c line) rest (p, h) =
    rw cons-append (ground (arith, cut_line-append line rest h))

strip-append : (p s : String) → strip p (String.◌++◌ p s) ≡ some s
strip-append String.[] s = rw nil-append
strip-append (String.◌∷◌ c p) s = rw cons-append (ground (arith, strip-append p s))

NoNewline-append : (s t : String) → NoNewline s → NoNewline t → NoNewline (String.◌++◌ s t)
NoNewline-append String.[] t h k = rw nil-append k
NoNewline-append (String.◌∷◌ c s) t (p, h) k = rw cons-append (p, NoNewline-append s t h k)

-- Three lines: the event, the data, and an empty one.
abbrev lines : String → String → String
lines event body =
    String.◌++◌ (String.◌++◌ "event: " event)
      (String.◌++◌ "\n" (String.◌++◌ (String.◌++◌ "data: " body) (String.◌++◌ "\n" "\n")))

data_break : (r : String) → String.◌++◌ "\ndata: " r ≡ String.◌++◌ "\n" (String.◌++◌ "data: " r)
data_break r = append_assoc "\n" "data: " r

encode_sse-lines : (event body : String) → encode_sse event body none ≡ lines event body
unfolding encode_sse
encode_sse-lines event body = simp (nil-append, append_assoc, data_break)

read_rest-lines :
    (id : Option String) (event body : String)
    → NoNewline event
    → NoNewline body
    → read_rest id (lines event body) ≡ some (id, event, body)
unfolding read_rest
read_rest-lines id event body e b = rw (
  cut_line-append (String.◌++◌ "event: " event) _
      (NoNewline-append "event: " event (omega arith) e),
  strip-append,
  cut_line-append (String.◌++◌ "data: " body) "\n" (NoNewline-append "data: " body (omega arith) b),
  strip-append,
)

strip_event : (event : String) → strip "id: " (String.◌++◌ "event: " event) ≡ none
strip_event event = rw cons-append refl

read_frame_cut :
    (s line rest : String)
    → cut_line s ≡ some (line, rest)
    → read_frame s ≡ read_after (strip "id: " line) s rest
unfolding read_frame
read_frame_cut s line rest h = rw h

line_event : (event : String) → NoNewline event → NoNewline (String.◌++◌ "event: " event)
line_event event e = NoNewline-append "event: " event (omega arith) e

read_frame-lines :
    (event body : String)
    → NoNewline event
    → NoNewline body
    → read_frame (lines event body) ≡ some (none, event, body)
unfolding read_after
read_frame-lines event body e b =
    read_frame_cut _ _ _ (cut_line-append (String.◌++◌ "event: " event) _ (line_event event e))
    ∙ rw strip_event (read_rest-lines none event body e b)

encode_sse-id :
    (event body id : String)
    → truthy id ≡ true
    → encode_sse event body (some id)
      ≡ String.◌++◌ (String.◌++◌ "id: " id) (String.◌++◌ "\n" (lines event body))
unfolding encode_sse
encode_sse-id event body id t = rw t (simp (append_assoc, data_break))

read_frame-id :
    (event body id : String)
    → NoNewline event
    → NoNewline body
    → NoNewline id
    → read_frame (String.◌++◌ (String.◌++◌ "id: " id) (String.◌++◌ "\n" (lines event body)))
      ≡ some (some id, event, body)
unfolding read_after
read_frame-id event body id e b i =
    read_frame_cut _ _ _
      (cut_line-append (String.◌++◌ "id: " id) _ (NoNewline-append "id: " id (omega arith) i))
    ∙ rw strip-append (read_rest-lines (some id) event body e b)

encode_sse-no_id :
    (event body : String) (id : Option String)
    → truthy? id ≡ false
    → encode_sse event body id ≡ lines event body
unfolding encode_sse
encode_sse-no_id event body id t = rw t (simp (nil-append, append_assoc, data_break))

-- A reader of the standard's lines gets back what a frame was made of, if none of it holds a line
-- break: the id, where one was given that is not empty, the event's name and the data.
pub read_frame-encode_sse :
    (event body : String) (id : Option String)
    → NoNewline event
    → NoNewline body
    → NoNewline (or_empty id)
    → read_frame (encode_sse event body id) ≡ some (or_null (or_empty id), event, body)
read_frame-encode_sse event body none e b i =
    rw (encode_sse-no_id event body none refl) (read_frame-lines event body e b)
read_frame-encode_sse event body (some id) e b i = elim (Bool-cases (truthy id)) [
  | inl t ↦ rw (encode_sse-id event body id t, t) (read_frame-id event body id e b i)
  | inr t ↦ rw (encode_sse-no_id event body (some id) t, t) (read_frame-lines event body e b)
]
