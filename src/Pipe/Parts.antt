-- ===== src/Pipe/Parts.antt =====
-- PipeChannel.cpp: a read event that gets some of what the channel waits for.
use multi_process_server.Base.{
  ℕ, zero, suc, ◌-◌, ◌<◌, ◌≤◌, ◌≡◌, refl, sym, ap, subst, ◌∙◌, arith, ◌==◌, if◌then◌else◌, if_else,
  List, [], ◌∷◌, ◌++◌, append-nil, append_assoc, Bytes, length, length-append, length-take,
  length-drop, take, drop, take-append-drop, take-whole, little_endian, get_or,
}
use multi_process_server.Ipc.Packet.{le_bytes}
use multi_process_server.Pipe.{
  asks_for, Channel, read_header, read_data, new_channel, pipe_packet_size, data_length_at,
  pkt_type_at, complete, on_read,
}
use multi_process_server.Pipe.Reads.{four_bytes}
use multi_process_server.Pipe.Arrivals.{
  Packet, written, AllSent, header, todo, Expects, at_header, at_data, start,
}

-- Where a list begins with `got`, which is no longer than `rest`, `rest` begins with it as well.
pub prefix :
    (got later rest tail : Bytes)
    → got ++ later ≡ rest ++ tail
    → length got ≤ length rest
    → (more : Bytes) × (rest ≡ got ++ more) × (later ≡ more ++ tail)
prefix [] later rest tail e h = (rest, refl, e)
prefix (x ∷ got) later [] tail e h = absurd (omega arith)
prefix (x ∷ got) later (y ∷ rest) tail e h =
    let (more, same, then_on) = prefix got later rest tail (ap (drop 1) e) (omega arith) in
    (more, (λ i. get_or (sym e i) 0 0 ∷ same i), then_on)

-- How much is read: some of what the channel waits for.
pub asks_some :
    (c : Channel) → 0 < todo c → todo c ≤ c.howmuch → (asks_for c ≤ todo c) × (0 < asks_for c)
asks_some c some_left fits = (ground arith, ground arith)

-- The channel after a read that leaves something.
abbrev pub partly : Channel → Bytes → Channel
partly c got = record c { left_to_read = todo c - length got; read_buffer = c.read_buffer ++ got }

-- What `OnRead` does with the bytes that it got.
abbrev pub taken : Channel → Bytes → ℕ → Channel × List Packet
taken c got left =
    let c' : Channel = record c { left_to_read = left; read_buffer = c.read_buffer ++ got } in
    if length got == 0 then (c, []) else if left == 0 then complete c.read_status c' else (c', [])

pub on_read-taken :
    (now : Bytes) (c : Channel) (got : Bytes)
    → take (asks_for c) now ≡ got
    → on_read now c ≡ taken c got (todo c - length got)
unfolding on_read
on_read-taken now c got e =
    let left : Bytes → ℕ =
      λ xs. if c.left_to_read == 0 then c.howmuch - length xs else c.left_to_read - length xs in
    let same : left got ≡ todo c - length got = ground arith in
    ap (λ xs. taken c xs (left xs)) e ∙ ap (taken c got) same

pub on_read_whole :
    (now : Bytes) (c : Channel) (got : Bytes)
    → take (asks_for c) now ≡ got
    → 0 < length got
    → length got ≡ todo c
    → on_read now c
      ≡ complete c.read_status (record c { left_to_read = 0; read_buffer = c.read_buffer ++ got })
on_read_whole now c got e some_read whole =
    let none_left : todo c - length got ≡ 0 = omega (arith, whole) in
    on_read-taken now c got e
    ∙ ap (taken c got) none_left
    ∙ if_else (length got == 0) _ _ (ground arith)

pub on_read_part :
    (now : Bytes) (c : Channel) (got : Bytes)
    → take (asks_for c) now ≡ got
    → 0 < length got
    → length got < todo c
    → on_read now c ≡ (partly c got, [])
on_read_part now c got e some_read part =
    let left = todo c - length got in
    let more : 0 < left = omega arith in
    on_read-taken now c got e
    ∙ if_else (length got == 0) _ _ (ground arith)
    ∙ if_else (left == 0) _ _ (ground arith)

-- What a read event leads to: the packets that are handled, and what is expected then.
pub record Step (c : Channel) (now later : Bytes) (ps : List Packet) : Type 0 where
  pub after : Channel
  pub handled : List Packet
  pub ahead : List Packet
  pub read : on_read now c ≡ (after, handled)
  pub split : ps ≡ handled ++ ahead
  pub expects : Expects (drop (asks_for c) now ++ later) after ahead
  pub progress : 0 < length now → length (drop (asks_for c) now) < length now

pub take_nil : (n : ℕ) → take n [] ≡ (let xs : Bytes = [] in xs)
take_nil zero = refl
take_nil (suc n) = refl

pub drop_nil : (n : ℕ) → drop n [] ≡ (let xs : Bytes = [] in xs)
drop_nil zero = refl
drop_nil (suc n) = refl

pub nothing-Step :
    (c : Channel) (later future : Bytes) (ps : List Packet)
    → Expects future c ps
    → later ≡ future
    → Step c [] later ps
nothing-Step c later future ps x e = record {
  after = c;
  handled = [];
  ahead = ps;
  read = on_read-taken [] c [] (take_nil (asks_for c));
  split = refl;
  expects =
      subst (λ f. Expects f c ps) (sym e ∙ ap (λ xs. xs ++ later) (sym (drop_nil (asks_for c)))) x;
  progress = λ some. absurd (omega arith);
}

-- A read event of a pipe that holds something, of what the channel waits for.
module _ (c : Channel) (x : ℕ) (xs later rest tail : Bytes)
    (arrives : (x ∷ xs) ++ later ≡ rest ++ tail) (waits : todo c ≡ length rest)
    (some_left : 0 < length rest) (fits : length rest ≤ c.howmuch) where
  abbrev got : Bytes
  got = take (asks_for c) (x ∷ xs)

  abbrev left : Bytes
  left = drop (asks_for c) (x ∷ xs)

  pub enough : (length got ≤ length rest) × (0 < length got)
  enough =
      let (few, some_asked) = asks_some c (omega (arith, waits)) (omega (arith, waits)) in
      (
        omega (arith, few, waits, length-take (asks_for c) (x ∷ xs)),
        omega (arith, some_asked, length-take (asks_for c) (x ∷ xs)),
      )

  pub forward : length left < length (x ∷ xs)
  forward =
      omega (arith, enough.1, length-take (asks_for c) (x ∷ xs), length-drop (asks_for c) (x ∷ xs))

  pub divided : (more : Bytes) × (rest ≡ got ++ more) × (left ++ later ≡ more ++ tail)
  divided =
      prefix got (left ++ later) rest tail
        (sym (append_assoc got left later)
          ∙ ap (λ ys. ys ++ later) (take-append-drop (asks_for c) (x ∷ xs))
          ∙ arrives)
        enough.0

-- The channel was waiting for `got` with `more` behind it, and has got `got`.
module _ (c : Channel) (now later got more tail : Bytes) (p : Packet) (ps : List Packet)
    (seen : Bytes) (all : AllSent (p ∷ ps)) (took : take (asks_for c) now ≡ got)
    (some_got : 0 < length got) (forward : length (drop (asks_for c) now) < length now)
    (then_on : drop (asks_for c) now ++ later ≡ more ++ tail)
    (waits : todo c ≡ length (got ++ more)) where
  todo-partly : 0 < length more → todo (partly c got) ≡ length more
  todo-partly some_more =
      let n : todo c - length got ≡ length more = omega (arith, waits, length-append got more) in
      if_else (todo c - length got == 0) _ _ (ground arith) ∙ n

  read_part : 0 < length more → on_read now c ≡ (partly c got, [])
  read_part some_more =
      on_read_part now c got took some_got (omega (arith, waits, length-append got more))

  read_whole :
      more ≡ []
      → on_read now c
        ≡ complete c.read_status (record c { left_to_read = 0; read_buffer = c.read_buffer ++ got })
  read_whole none =
      on_read_whole now c got took some_got
        (sym (waits ∙ ap (λ ys. length (got ++ ys)) none ∙ ap length (append-nil got)))

  all_of :
      (front whole : Bytes)
      → c.read_buffer ≡ front ++ seen
      → seen ++ (got ++ more) ≡ whole
      → more ≡ []
      → c.read_buffer ++ got ≡ front ++ whole
  all_of front whole buffer sum none =
      ap (λ ys. ys ++ got) buffer
      ∙ append_assoc front seen got
      ∙ ap (◌++◌ front) (ap (◌++◌ seen) (sym (append-nil got) ∙ ap (◌++◌ got) (sym none)) ∙ sum)

  module _ (sum : seen ++ (got ++ more) ≡ header p) (status : c.read_status ≡ read_header)
      (size : c.howmuch ≡ pipe_packet_size) (buffer : c.read_buffer ≡ seen)
      (tail_is : tail ≡ p.1 ++ written ps) where
    pub header_part : 0 < length more → Step c now later (p ∷ ps)
    header_part some_more = record {
      after = partly c got;
      handled = [];
      ahead = p ∷ ps;
      read = read_part some_more;
      split = refl;
      expects =
          at_header p ps (seen ++ got) more all (append_assoc seen got more ∙ sum) some_more status
            size (todo-partly some_more) (ap (λ ys. ys ++ got) buffer)
            (then_on ∙ ap (◌++◌ more) tail_is);
      progress = λ _. forward;
    }

    pub header_done : more ≡ [] → Step c now later (p ∷ ps)
    unfolding complete header le_bytes
    header_done none =
        let (type_fits, some_data, fits) = all.0 in
        let n = length p.1 in
        let next : ℕ → Bytes → Channel = λ k ys. record {
          read_status = read_data;
          howmuch = k;
          left_to_read = 0;
          read_buffer = ys;
        } in
        record {
          after = next n (header p);
          handled = [];
          ahead = p ∷ ps;
          read =
              read_whole none
              ∙ ap
                  (λ st.
                    complete st (record c { left_to_read = 0; read_buffer = c.read_buffer ++ got }))
                  status
              ∙ ap (λ ys. (next (data_length_at ys) ys, [])) (all_of [] (header p) buffer sum none)
              ∙ ap (λ k. (next k (header p), [])) (four_bytes n fits);
          split = refl;
          expects =
              at_data p ps [] p.1 all refl some_data refl refl refl (sym (append-nil (header p)))
                (then_on ∙ ap (λ ys. ys ++ tail) none ∙ tail_is);
          progress = λ _. forward;
        }

  module _ (sum : seen ++ (got ++ more) ≡ p.1) (status : c.read_status ≡ read_data)
      (size : c.howmuch ≡ length p.1) (buffer : c.read_buffer ≡ header p ++ seen)
      (tail_is : tail ≡ written ps) where
    pub data_part : 0 < length more → Step c now later (p ∷ ps)
    data_part some_more = record {
      after = partly c got;
      handled = [];
      ahead = p ∷ ps;
      read = read_part some_more;
      split = refl;
      expects =
          at_data p ps (seen ++ got) more all (append_assoc seen got more ∙ sum) some_more status
            size (todo-partly some_more)
            (ap (λ ys. ys ++ got) buffer ∙ append_assoc (header p) seen got)
            (then_on ∙ ap (◌++◌ more) tail_is);
      progress = λ _. forward;
    }

    pub data_done : more ≡ [] → Step c now later (p ∷ ps)
    unfolding complete header le_bytes
    data_done none =
        let (type_fits, some_data, fits) = all.0 in
        let n = length p.1 in
        let handle : Bytes → Channel × List Packet = λ ys. (
          new_channel,
          (pkt_type_at ys, take (data_length_at ys) (drop pipe_packet_size ys)) ∷ [],
        ) in
        let bytes : take (little_endian (le_bytes 4 n)) p.1 ≡ p.1 =
          ap (λ k. take k p.1) (four_bytes n fits) ∙ take-whole n p.1 (omega arith) in
        record {
          after = new_channel;
          handled = p ∷ [];
          ahead = ps;
          read =
              read_whole none
              ∙ ap
                  (λ st.
                    complete st (record c { left_to_read = 0; read_buffer = c.read_buffer ++ got }))
                  status
              ∙ ap handle (all_of (header p) p.1 buffer sum none)
              ∙ (λ i. (new_channel, (four_bytes p.0 type_fits i, bytes i) ∷ []));
          split = refl;
          expects =
              start (drop (asks_for c) now ++ later) ps all.1
                (then_on ∙ ap (λ ys. ys ++ tail) none ∙ tail_is);
          progress = λ _. forward;
        }
