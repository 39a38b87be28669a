-- ===== src/Jt1078/Decoder/Ahead.antt =====
-- Jt1078Decoder.cpp: a decoder, and the same with more bytes behind its own.
use multi_process_server.Base.{
  ℕ, ◌+◌, ◌≤◌, ◌<◌, ◌≡◌, refl, sym, ap, ◌∙◌, lt→ltb, le→ltb, arith, [], ◌++◌, Bytes, length, take,
  drop, length-append, take-append, drop-append, some,
}
use multi_process_server.Buffer.{skip}
use multi_process_server.Buffer.Contents.{
  IsReadable, readable, readable_bytes-length, read_buffer_enough, readable-skip, skip-IsReadable,
}
use multi_process_server.Jt1078.Header.{Header, Packet, clear}
use multi_process_server.Jt1078.Scan.{ErrorType, need_more_data, Reader, Scanned}
use multi_process_server.Jt1078.Scan.Rules.{Grown, Follows, Starved, starved}
use multi_process_server.Jt1078.Decoder.{
  Decoder, ReadStatus, read_header_step1, Turn, crash, again, leave, overwrite, store_body,
  parse_body, store, proceed,
}

-- `d'` is `d` with `more` bytes to read behind its own.
pub record Ahead (more : Bytes) (d d' : Decoder) : Type 0 where
  pub same_packet : d.packet ≡ d'.packet
  pub same_howmuch : d.howmuch ≡ d'.howmuch
  pub same_status : d.read_status ≡ d'.read_status
  pub left : IsReadable d.buffer
  pub right : IsReadable d'.buffer
  pub content : readable d'.buffer ≡ readable d.buffer ++ more

-- The packet that the next round sees: the first step of the header clears it.
abbrev pub prepared : ReadStatus → Packet → Packet
prepared read_header_step1 p = clear p
prepared _ p = p

-- The same but for what the next round clears.
pub record Near (more : Bytes) (d d' : Decoder) : Type 0 where
  pub same_packet : prepared d.read_status d.packet ≡ prepared d.read_status d'.packet
  pub same_howmuch : d.howmuch ≡ d'.howmuch
  pub same_status : d.read_status ≡ d'.read_status
  pub left : IsReadable d.buffer
  pub right : IsReadable d'.buffer
  pub content : readable d'.buffer ≡ readable d.buffer ++ more

pub Ahead-Near : {more : Bytes} {d d' : Decoder} → Ahead more d d' → Near more d d'
Ahead-Near {d} a = record {
  same_packet = ap (prepared d.read_status) a.same_packet;
  same_howmuch = a.same_howmuch;
  same_status = a.same_status;
  left = a.left;
  right = a.right;
  content = a.content;
}

pub Near-Ahead :
    {more : Bytes} {d d' : Decoder} → Near more d d' → d.packet ≡ d'.packet → Ahead more d d'
Near-Ahead a e = record {
  same_packet = e;
  same_howmuch = a.same_howmuch;
  same_status = a.same_status;
  left = a.left;
  right = a.right;
  content = a.content;
}

pub data Waiting (d : Decoder) : Turn → Type 0 where
  waiting : {d' : Decoder} → Ahead [] d d' → Waiting d (leave need_more_data d')

pub data Keeps (more : Bytes) : Turn → Turn → Type 0 where
  crashes : {t : Turn} → Keeps more crash t
  waits :
      {d : Decoder} {t : Turn} → (more ≡ [] → Waiting d t) → Keeps more (leave need_more_data d) t
  leaves : {e : ErrorType} {d d' : Decoder} → Ahead more d d' → Keeps more (leave e d) (leave e d')
  agains : {d d' : Decoder} → Ahead more d d' → Keeps more (again d) (again d')

store-Ahead :
    {more : Bytes} (d d' : Decoder) {r r' : Reader}
    → d.packet.body ≡ d'.packet.body
    → d.howmuch ≡ d'.howmuch
    → d.read_status ≡ d'.read_status
    → Grown more r r'
    → Ahead more (store d r) (store d' r')
store-Ahead d d' b n s g = record {
  same_packet = λ i. record { header = g.same_header i; body = b i };
  same_howmuch = n;
  same_status = s;
  left = g.left;
  right = g.right;
  content = g.content;
}

pub proceed-Keeps :
    {more : Bytes} (d d' : Decoder) (howmuch : Header → ℕ) (status : ReadStatus)
    {s s' : Scanned (Unit {0})}
    → d.packet.body ≡ d'.packet.body
    → d.howmuch ≡ d'.howmuch
    → d.read_status ≡ d'.read_status
    → Follows more s s'
    → Keeps more (proceed d howmuch status s) (proceed d' howmuch status s')
proceed-Keeps d d' howmuch status b n e Follows.aborts = crashes
proceed-Keeps d d' howmuch status {s' = s'} b n e (Follows.starves {r} h) =
    waits (λ none_left. wait (h none_left))
  where
    wait :
        {t : Scanned (Unit {0})} → Starved r t → Waiting (store d r) (proceed d' howmuch status t)
    wait (starved g) = waiting (store-Ahead d d' b n e g)
proceed-Keeps d d' howmuch status b n e (Follows.stops g) = leaves (store-Ahead d d' b n e g)
proceed-Keeps d d' howmuch status b n e (Follows.nexts {r} {r'} g) =
    let a = store-Ahead d d' b n e g in
    agains (record {
      same_packet = a.same_packet;
      same_howmuch = ap howmuch g.same_header;
      same_status = refl;
      left = g.left;
      right = g.right;
      content = g.content;
    })

module _ (d : Decoder) (sound : IsReadable d.buffer) where
  pub parse_body_short :
      length (readable d.buffer) < d.howmuch → parse_body d ≡ leave need_more_data d
  unfolding parse_body
  parse_body_short h = rw (readable_bytes-length d.buffer sound, lt→ltb _ _ h)

  pub parse_body_outside :
      d.howmuch ≤ length (readable d.buffer)
      → length d.packet.body ≤ d.howmuch
      → parse_body d ≡ crash
  unfolding parse_body
  parse_body_outside h k = rw (readable_bytes-length d.buffer sound, le→ltb _ _ h, le→ltb _ _ k)

  pub parse_body_whole :
      d.howmuch ≤ length (readable d.buffer)
      → d.howmuch < length d.packet.body
      → parse_body d
        ≡ store_body d (some (take d.howmuch (readable d.buffer), skip d.howmuch d.buffer))
  unfolding parse_body
  parse_body_whole h k = rw (
    readable_bytes-length d.buffer sound,
    le→ltb _ _ h,
    lt→ltb _ _ k,
    read_buffer_enough d.howmuch d.buffer sound h,
  )

pub Ahead-length :
    {more : Bytes} {d d' : Decoder}
    → Ahead more d d'
    → length (readable d'.buffer) ≡ length (readable d.buffer) + length more
Ahead-length {more} {d} a = ap length a.content ∙ length-append (readable d.buffer) more

pub store_body-Ahead :
    {more : Bytes} {d d' : Decoder}
    → Ahead more d d'
    → d.howmuch ≤ length (readable d.buffer)
    → Keeps more
        (store_body d (some (take d.howmuch (readable d.buffer), skip d.howmuch d.buffer)))
        (store_body d' (some (take d'.howmuch (readable d'.buffer), skip d'.howmuch d'.buffer)))
store_body-Ahead {more} {d} {d'} a h = leaves (record {
  same_packet = λ i. record {
    header = (a.same_packet i).header;
    body = overwrite (sym taken i) (a.same_packet i).body;
  };
  same_howmuch = refl;
  same_status = refl;
  left = skip-IsReadable d.howmuch d.buffer a.left h;
  right =
      skip-IsReadable d'.howmuch d'.buffer a.right (omega (arith, Ahead-length a, a.same_howmuch));
  content =
      readable-skip d'.howmuch d'.buffer
      ∙ ap (λ n. drop n (readable d'.buffer)) (sym a.same_howmuch)
      ∙ ap (drop d.howmuch) a.content
      ∙ drop-append d.howmuch (readable d.buffer) more h
      ∙ ap (λ xs. xs ++ more) (sym (readable-skip d.howmuch d.buffer));
})
  where
    taken : take d'.howmuch (readable d'.buffer) ≡ take d.howmuch (readable d.buffer)
    taken =
        ap (λ n. take n (readable d'.buffer)) (sym a.same_howmuch)
        ∙ ap (take d.howmuch) a.content
        ∙ take-append d.howmuch (readable d.buffer) more h
