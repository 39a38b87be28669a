-- ===== src/Jt1078/Scan/Rules.antt =====
-- Two properties of the steps of a header parser, and how a chain of steps has them.
use multi_process_server.Base.{
  ℕ, ◌+◌, ◌≤◌, ◌≡◌, sym, ap, ◌∙◌, Bool, true, false, inl, inr, [], ◌++◌, Option, none, some, Bytes,
  length, take, drop, big_endian, ltb, if◌then◌else◌, if_elim, Bool-cases, ltb→lt, ltb→le, lt→ltb,
  le→ltb, subst, arith, length-drop, length-append, take-append, drop-append,
}
use multi_process_server.Buffer.{Buffer, skip, read_buffer, read_integer}
use multi_process_server.Buffer.Contents.{
  IsReadable, readable, readable_bytes-length, read_buffer_enough, read_integer_enough,
  readable-skip, skip-IsReadable,
}
use multi_process_server.Jt1078.Header.{Header}
use multi_process_server.Jt1078.Scan.{
  need_more_data, invalid_header, Reader, Scanned, abort, stop, next, Scan, after, ◌>>=◌, pure,
  update, require, need, integer, bytes, taken,
}

abbrev pub avail : Reader → ℕ
avail r = length (readable r.input)

-- The step did not abort: it found an invalid header, or went on having consumed `k` bytes.
pub data Post {A : Type 0} (k : ℕ) (r : Reader) : Scanned A → Type 0 where
  stops : {r' : Reader} → IsReadable r'.input → Post k r (stop invalid_header r')
  nexts :
      {a : A} {r' : Reader} → IsReadable r'.input → k + avail r' ≡ avail r → Post k r (next a r')

-- Given `k` bytes to read.
abbrev pub Safe : {A : Type 0} → ℕ → Scan A → Type 0
Safe k m = (r : Reader) → IsReadable r.input → k ≤ avail r → Post k r (m r)

widen :
    {A : Type 0} (i j : ℕ) {r r' : Reader} {s : Scanned A}
    → i + avail r' ≡ avail r
    → Post j r' s
    → Post (i + j) r s
widen i j e (stops h) = stops h
widen i j e (nexts h e') = nexts h (omega arith)

after-Post :
    {A B : Type 0} (i j : ℕ) {r : Reader} {s : Scanned A} (f : A → Scan B)
    → Post i r s
    → ((a : A) → Safe j (f a))
    → i + j ≤ avail r
    → Post (i + j) r (after s f)
after-Post i j f (stops h) later enough = stops h
after-Post i j f (nexts {a} {r'} h e) later enough = widen i j e (later a r' h (omega arith))

pub bind-Safe :
    {A B : Type 0} (i j : ℕ) {m : Scan A} {f : A → Scan B}
    → Safe i m
    → ((a : A) → Safe j (f a))
    → Safe (i + j) (m >>= f)
bind-Safe i j {f = f} first later r h enough =
    after-Post i j f (first r h (omega arith)) later enough

pub pure-Safe : {A : Type 0} (a : A) → Safe 0 (pure a)
pure-Safe a r h enough = nexts h (omega arith)

pub update-Safe : (f : Header → Header) → Safe 0 (update f)
unfolding update
update-Safe f r h enough = nexts h (omega arith)

pub require-Safe : (test : Bool) → Safe 0 (require test)
unfolding require
require-Safe true r h enough = nexts h (omega arith)
require-Safe false r h enough = stops h

spent :
    (k : ℕ) (b : Buffer)
    → k ≤ length (readable b)
    → k + length (readable (skip k b)) ≡ length (readable b)
spent k b h = rw (readable-skip k b) (omega (arith, length-drop k (readable b)))

pub integer-Safe : (k : ℕ) → Safe k (integer k)
unfolding integer
integer-Safe k r h enough =
    rw (read_integer_enough k r.input h enough)
      (nexts (skip-IsReadable k r.input h enough) (spent k r.input enough))

pub bytes-Safe : (k : ℕ) → Safe k (bytes k)
unfolding bytes
bytes-Safe k r h enough =
    rw (read_buffer_enough k r.input h enough)
      (nexts (skip-IsReadable k r.input h enough) (spent k r.input enough))

-- `s` is `r` with `more` bytes to read behind its own.
pub record Grown (more : Bytes) (r s : Reader) : Type 0 where
  pub same_header : r.header ≡ s.header
  pub left : IsReadable r.input
  pub right : IsReadable s.input
  pub content : readable s.input ≡ readable r.input ++ more

pub data Starved {A : Type 0} (r : Reader) : Scanned A → Type 0 where
  starved : {s : Reader} → Grown [] r s → Starved r (stop need_more_data s)

-- With more bytes to read a step does the same, unless it ran out of bytes before. It runs out
-- again where there are no more bytes.
pub data Follows {A : Type 0} (more : Bytes) : Scanned A → Scanned A → Type 0 where
  aborts : {s : Scanned A} → Follows more abort s
  starves :
      {r : Reader} {s : Scanned A}
      → (more ≡ [] → Starved r s)
      → Follows more (stop need_more_data r) s
  stops :
      {r r' : Reader}
      → Grown more r r'
      → Follows more (stop invalid_header r) (stop invalid_header r')
  nexts : {a : A} {r r' : Reader} → Grown more r r' → Follows more (next a r) (next a r')

abbrev pub Tracks : {A : Type 0} → Scan A → Type 0
Tracks m = (more : Bytes) (r s : Reader) → Grown more r s → Follows more (m r) (m s)

after-Starved :
    {A B : Type 0} {r : Reader} {s : Scanned A} (f : A → Scan B)
    → Starved r s
    → Starved r (after s f)
after-Starved f (starved g) = starved g

after-Follows :
    {A B : Type 0} {more : Bytes} {s t : Scanned A} (f : A → Scan B)
    → Follows more s t
    → ((a : A) → Tracks (f a))
    → Follows more (after s f) (after t f)
after-Follows f aborts later = aborts
after-Follows f (starves h) later = starves (λ e. after-Starved f (h e))
after-Follows f (Follows.stops g) later = Follows.stops g
after-Follows {more} f (Follows.nexts {a} {r} {r'} g) later = later a more r r' g

pub bind-Tracks :
    {A B : Type 0} {m : Scan A} {f : A → Scan B}
    → Tracks m
    → ((a : A) → Tracks (f a))
    → Tracks (m >>= f)
bind-Tracks {f = f} first later more r s g = after-Follows f (first more r s g) later

pub pure-Tracks : {A : Type 0} (a : A) → Tracks (pure a)
pure-Tracks a more r s g = Follows.nexts g

pub update-Tracks : (f : Header → Header) → Tracks (update f)
unfolding update
update-Tracks f more r s g = Follows.nexts (record {
  same_header = ap f g.same_header;
  left = g.left;
  right = g.right;
  content = g.content;
})

pub require-Tracks : (test : Bool) → Tracks (require test)
unfolding require
require-Tracks true more r s g = Follows.nexts g
require-Tracks false more r s g = Follows.stops g

Grown-length : {more : Bytes} {r s : Reader} → Grown more r s → avail s ≡ avail r + length more
Grown-length {more} {r} {s} g = ap length g.content ∙ length-append (readable r.input) more

pub need-Tracks : (n : ℕ) → Tracks (need n)
unfolding need
need-Tracks n more r s g =
    rw (readable_bytes-length r.input g.left, readable_bytes-length s.input g.right)
      (if_elim (λ x. Follows more x (if ltb (avail s) n then stop need_more_data s else next tt s))
        (ltb (avail r) n)
        (λ e. starves λ none_left.
          rw
            (lt→ltb (avail s) n
              (omega (arith, ltb→lt (avail r) n e, Grown-length g, ap length none_left)))
            (starved (subst (λ xs. Grown xs r s) none_left g)))
        λ e.
          rw (le→ltb (avail s) n (omega (arith, ltb→le (avail r) n e, Grown-length g)))
            (Follows.nexts g))

Grown-skip :
    {more : Bytes} {r s : Reader} (k : ℕ)
    → Grown more r s
    → k ≤ avail r
    → Grown more (record r { input = skip k r.input }) (record s { input = skip k s.input })
Grown-skip {more} {r} {s} k g enough = record {
  same_header = g.same_header;
  left = skip-IsReadable k r.input g.left enough;
  right = skip-IsReadable k s.input g.right (omega (arith, Grown-length g));
  content =
      readable-skip k s.input
      ∙ ap (drop k) g.content
      ∙ drop-append k (readable r.input) more enough
      ∙ ap (λ xs. xs ++ more) (sym (readable-skip k r.input));
}

Grown-take :
    {more : Bytes} {r s : Reader} (k : ℕ)
    → Grown more r s
    → k ≤ avail r
    → take k (readable s.input) ≡ take k (readable r.input)
Grown-take {more} {r} k g enough =
    ap (take k) g.content ∙ take-append k (readable r.input) more enough

read_buffer_short :
    (k : ℕ) (b : Buffer)
    → IsReadable b
    → ltb (length (readable b)) k ≡ true
    → read_buffer k b ≡ none
unfolding read_buffer
read_buffer_short k b h e = rw (readable_bytes-length b h) (ground arith)

taken-Follows :
    {A : Type 0} (read : Buffer → Option (A × Buffer)) (value : Bytes → A) (k : ℕ)
    → ((b : Buffer) → IsReadable b → ltb (length (readable b)) k ≡ true → read b ≡ none)
    → ((b : Buffer)
        → IsReadable b
        → k ≤ length (readable b)
        → read b ≡ some (value (take k (readable b)), skip k b))
    → Tracks (λ r. taken r (read r.input))
taken-Follows read value k short enough more r s g = elim (Bool-cases (ltb (avail r) k)) [
  | inl e ↦ rw (short r.input g.left e) aborts
  | inr e ↦ go (ltb→le (avail r) k e)
]
  where
    go : k ≤ avail r → Follows more (taken r (read r.input)) (taken s (read s.input))
    go room =
        rw
          (
            enough r.input g.left room,
            enough s.input g.right (omega (arith, Grown-length g)),
            Grown-take k g room,
          )
          (Follows.nexts (Grown-skip k g room))

pub bytes-Tracks : (k : ℕ) → Tracks (bytes k)
unfolding bytes
bytes-Tracks k =
    taken-Follows (read_buffer k) (λ xs. xs) k (read_buffer_short k) (read_buffer_enough k)

pub integer-Tracks : (k : ℕ) → Tracks (integer k)
unfolding integer
integer-Tracks k =
    taken-Follows (read_integer k) big_endian k
      (λ b h e. unfold read_integer in rw (read_buffer_short k b h e)) (read_integer_enough k)
