-- ===== src/Buffer/Push.antt =====
-- What `decoder_t::PushBuffer` does in both decoders (core/ipc_packet/IpcPktDecoder.cpp and
-- jt1078/jt1078_server/Jt1078Decoder.cpp have the same text): new bytes go behind the unread ones,
-- and the buffer is moved to the front, or grown, only where that is needed.
use multi_process_server.Base.{
  ℕ, ◌+◌, ◌*◌, ◌≤◌, ◌<◌, min, ◌≡◌, refl, ◌++◌, Option, none, some, Bytes, length, ltb,
  if◌then◌else◌, if_elim, ltb→lt, ltb→le, arith, ap, ◌∙◌,
}
use multi_process_server.Buffer.{
  Alloc, Buffer, readable_bytes, get_left_capacity, auto_remove, append, reserve,
}
use multi_process_server.Buffer.Contents.{
  IsReadable, readable, readable_bytes-length, readable-append, append-IsReadable,
}

module _ (alloc : Alloc) where
  -- `none` for `kBufferFull`.
  unfoldable pub push : ℕ → Bytes → Buffer → Option Buffer
  push max_size new b =
      let needed = length new + readable_bytes b in
      if ltb max_size needed
      then none
      else if ltb b.capacity needed
      then some (append alloc new (reserve alloc (min (b.capacity * 2) max_size) (auto_remove b)))
      else if ltb (get_left_capacity b) (length new)
      then some (append alloc new (auto_remove b))
      else some (append alloc new b)

  -- The outcome of a push: refused, with the content over the limit, or accepted.
  pub data Pushed (max_size : ℕ) (new : Bytes) (b : Buffer) : Option Buffer → Type 0 where
    full : max_size < length (readable b) + length new → Pushed max_size new b none
    accepted :
        {c : Buffer}
        → length (readable b) + length new ≤ max_size
        → IsReadable c
        → readable c ≡ readable b ++ new
        → Pushed max_size new b (some c)

  Pushed-append :
      {max_size : ℕ} {new : Bytes} {b : Buffer} (c : Buffer)
      → length (readable b) + length new ≤ max_size
      → IsReadable c
      → readable c ≡ readable b
      → Pushed max_size new b (some (append alloc new c))
  Pushed-append {new} c room h e =
      accepted room (append-IsReadable alloc new c h)
        (readable-append alloc new c h ∙ ap (λ xs. xs ++ new) e)

  -- From a buffer whose read position is within its content: bytes are refused only where the unread
  -- ones and they are more than the limit; else they are within it, the read position is again within
  -- the content, and the new bytes stand behind the unread ones.
  pub push-Pushed :
      (max_size : ℕ) (new : Bytes) (b : Buffer)
      → IsReadable b
      → Pushed max_size new b (push max_size new b)
  unfolding push reserve auto_remove
  push-Pushed max_size new b h =
      let needed = length new + length (readable b) in
      rw (readable_bytes-length b h) (
        if_elim (Pushed max_size new b) (ltb max_size needed)
          (λ e. full (omega (arith, ltb→lt max_size needed e)))
          λ e.
            let room : length (readable b) + length new ≤ max_size =
              omega (arith, ltb→le max_size needed e) in
            if_elim (Pushed max_size new b) (ltb b.capacity needed)
              (λ _. Pushed-append (reserve alloc _ (auto_remove b)) room moved refl)
              λ _.
                if_elim (Pushed max_size new b) (ltb (get_left_capacity b) (length new))
                  (λ _. Pushed-append (auto_remove b) room moved refl)
                  (λ _. Pushed-append b room h refl))
    where
      moved : 0 ≤ length (readable b)
      moved = omega arith
