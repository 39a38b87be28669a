-- ===== src/Buffer/Contents.antt =====
-- Buffer.h seen through its readable bytes: what each operation does to them.
use multi_process_server.Base.{
  ℕ, ◌≤◌, ◌≡◌, refl, sym, ap, ◌∙◌, [], ◌++◌, some, Bytes, length, take, drop, big_endian, le→leb,
  length-append, length-drop, drop-drop, drop-append, take-length, append-nil, arith,
}
use multi_process_server.Buffer.{
  Alloc, Buffer, get_buffer, readable_bytes, auto_remove, skip, read_buffer, read_integer, append,
  append_buffer, copy,
}

-- The read position is within the content: otherwise `GetBuffer` points past it.
abbrev pub IsReadable : Buffer → Type 0
IsReadable b = b.read_index ≤ length b.buffer

-- The bytes that are still to be read.
abbrev pub readable : Buffer → Bytes
readable b = drop b.read_index b.buffer

pub readable_bytes-length : (b : Buffer) → IsReadable b → readable_bytes b ≡ length (readable b)
unfolding readable_bytes
readable_bytes-length b h = rw (le→leb _ _ h) (sym (length-drop b.read_index b.buffer))

pub readable-skip : (n : ℕ) (b : Buffer) → readable (skip n b) ≡ drop n (readable b)
unfolding skip
readable-skip n b = drop-drop b.read_index n b.buffer

pub skip-IsReadable :
    (n : ℕ) (b : Buffer) → IsReadable b → n ≤ length (readable b) → IsReadable (skip n b)
unfolding skip
skip-IsReadable n b h e = omega (arith, length-drop b.read_index b.buffer)

pub read_buffer_enough :
    (n : ℕ) (b : Buffer)
    → IsReadable b
    → n ≤ length (readable b)
    → read_buffer n b ≡ some (take n (readable b), skip n b)
unfolding read_buffer get_buffer
read_buffer_enough n b h e = rw (readable_bytes-length b h, le→leb _ _ e)

pub read_integer_enough :
    (n : ℕ) (b : Buffer)
    → IsReadable b
    → n ≤ length (readable b)
    → read_integer n b ≡ some (big_endian (take n (readable b)), skip n b)
unfolding read_integer
read_integer_enough n b h e = rw (read_buffer_enough n b h e)

pub readable-auto_remove : (b : Buffer) → readable (auto_remove b) ≡ readable b
unfolding auto_remove
readable-auto_remove b = refl

pub take_all : (xs : Bytes) → take (length xs) xs ≡ xs
take_all xs = ap (take (length xs)) (sym (append-nil xs)) ∙ take-length xs []

module _ (alloc : Alloc) where
  pub readable-append :
      (new : Bytes) (b : Buffer) → IsReadable b → readable (append alloc new b) ≡ readable b ++ new
  unfolding append
  readable-append new b h = drop-append b.read_index b.buffer new h

  pub append-IsReadable :
      (new : Bytes) (b : Buffer) → IsReadable b → IsReadable (append alloc new b)
  unfolding append
  append-IsReadable new b h = omega (arith, length-append b.buffer new)

  pub append_buffer_lem :
      (other b : Buffer)
      → IsReadable other
      → append_buffer alloc other b ≡ append alloc (readable other) b
  unfolding append_buffer get_buffer
  append_buffer_lem other b h =
      ap (λ xs. append alloc xs b) (rw (readable_bytes-length other h) (take_all (readable other)))

  -- Both constructors from another buffer carry over its readable bytes and start at 0; the
  -- buffer that was moved from is left empty.
  pub readable-copy :
      (other : Buffer) → IsReadable other → readable (copy alloc other) ≡ readable other
  unfolding copy
  readable-copy other h =
      let start : Buffer = record { buffer = []; read_index = 0; capacity = 0 } in
      ap readable (append_buffer_lem other start h)
      ∙ readable-append (readable other) start (omega arith)
