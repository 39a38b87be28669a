-- ===== src/Jt1078/Scan/Fits.antt =====
-- Bytes on which a step of a header parser goes on, and which value and header it then has.
use multi_process_server.Base.{
  ℕ, ◌+◌, ◌≤◌, ◌≡◌, refl, ap, ◌∙◌, Bool, true, [], ◌++◌, Bytes, length, drop, big_endian, arith,
  length-append, take-length, drop-length, append_assoc,
}
use multi_process_server.Buffer.{Buffer, skip}
use multi_process_server.Buffer.Contents.{
  IsReadable, readable, read_buffer_enough, read_integer_enough, readable-skip, skip-IsReadable,
}
use multi_process_server.Jt1078.Header.{Header}
use multi_process_server.Jt1078.Scan.{
  Reader, next, Scan, ◌>>=◌, pure, update, require, integer, bytes,
}

-- On these bytes the step goes on with this value and header, behind them.
abbrev pub Fits : {A : Type 0} → Scan A → Bytes → Header → A → Header → Type 0
Fits m xs h a h' =
    (r : Reader) (rest : Bytes)
    → r.header ≡ h
    → IsReadable r.input
    → readable r.input ≡ xs ++ rest
    → m r ≡ next a (record { header = h'; input = skip (length xs) r.input })

skip-skip : (i j k : ℕ) (b : Buffer) → k ≡ i + j → skip j (skip i b) ≡ skip k b
unfolding skip
skip-skip i j k b e = ground arith

fits_room :
    (xs rest : Bytes) (b : Buffer) → readable b ≡ xs ++ rest → length xs ≤ length (readable b)
fits_room xs rest b e = omega (arith, ap length e, length-append xs rest)

pub bind-Fits :
    {A B : Type 0} (xs ys : Bytes) {h h' h'' : Header} {m : Scan A} (f : A → Scan B) {a : A} {c : B}
    → Fits m xs h a h'
    → Fits (f a) ys h' c h''
    → Fits (m >>= f) (xs ++ ys) h c h''
bind-Fits xs ys {h' = h'} {h'' = h''} f {c = c} first later r rest same ok e =
    let split = e ∙ append_assoc xs ys rest in
    let behind : readable (skip (length xs) r.input) ≡ ys ++ rest =
      readable-skip (length xs) r.input
      ∙ ap (drop (length xs)) split
      ∙ drop-length xs (ys ++ rest) in
    let sound = skip-IsReadable (length xs) r.input ok (fits_room xs (ys ++ rest) r.input split) in
    rw (first r (ys ++ rest) same ok split) (
      later (record { header = h'; input = skip (length xs) r.input }) rest refl sound behind
      ∙ ap (λ i. next c (record { header = h''; input = i }))
          (skip-skip (length xs) (length ys) (length (xs ++ ys)) r.input (length-append xs ys)))

pub integer-Fits : (xs : Bytes) (h : Header) → Fits (integer (length xs)) xs h (big_endian xs) h
unfolding integer
integer-Fits xs h r rest same ok e = rw (
  read_integer_enough (length xs) r.input ok (fits_room xs rest r.input e),
  e,
  take-length xs rest,
  same,
)

pub bytes-Fits : (xs : Bytes) (h : Header) → Fits (bytes (length xs)) xs h xs h
unfolding bytes
bytes-Fits xs h r rest same ok e = rw (
  read_buffer_enough (length xs) r.input ok (fits_room xs rest r.input e),
  e,
  take-length xs rest,
  same,
)

skip_none : (b : Buffer) → skip 0 b ≡ b
unfolding skip
skip_none b = ground arith

pub update-Fits : (f : Header → Header) (h : Header) → Fits (update f) [] h tt (f h)
unfolding update
update-Fits f h r rest same ok e = rw (same, skip_none r.input)

pub require-Fits : (test : Bool) (h : Header) → test ≡ true → Fits (require test) [] h tt h
unfolding require
require-Fits test h pass r rest same ok e = rw (pass, ← same, skip_none r.input)

pub pure-Fits : {A : Type 0} (a : A) (h : Header) → Fits (pure a) [] h a h
pure-Fits a h r rest same ok e = rw (← same, skip_none r.input)
