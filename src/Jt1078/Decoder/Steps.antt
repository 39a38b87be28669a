-- ===== src/Jt1078/Decoder/Steps.antt =====
-- The two header parsers of Jt1078Decoder.cpp: what they consume, and that more bytes behind the
-- first ones change nothing.
use multi_process_server.Base.{
  ℕ, ◌≤◌, ◌<◌, ◌≡◌, subst, ◌⊎◌, inl, inr, true, false, ltb, ◌==◌, if◌then◌else◌, if_elim,
  Bool-cases, ltb→lt, ltb→le, arith,
}
use multi_process_server.Buffer.Contents.{IsReadable, readable_bytes-length}
use multi_process_server.Jt1078.Header.{Header, jt1078_max_length, data_type_audio, data_type_route}
use multi_process_server.Jt1078.Scan.{
  need_more_data, Reader, Scanned, stop, next, Scan, after, need, require, update, abort, integer,
}
use multi_process_server.Jt1078.Scan.Rules.{
  avail, Post, Safe, bind-Safe, update-Safe, require-Safe, integer-Safe, bytes-Safe, Tracks,
  bind-Tracks, update-Tracks, require-Tracks, need-Tracks, integer-Tracks, bytes-Tracks, Follows,
}
use multi_process_server.Jt1078.Decoder.{
  fixed_fields, describing_fields, parse_header_step1, video_fields, audio_fields, body_length,
  timing_fields, parse_header_step2, is_video_type,
}

fixed_fields-Tracks : Tracks fixed_fields
unfolding fixed_fields
fixed_fields-Tracks = bind-Tracks (integer-Tracks 4) λ mark. bind-Tracks (update-Tracks _) λ _.
    bind-Tracks (require-Tracks _) λ _. bind-Tracks (integer-Tracks 1) λ octet.
      bind-Tracks (update-Tracks _) λ _. bind-Tracks (require-Tracks _) λ _.
        bind-Tracks (update-Tracks _) λ _. bind-Tracks (require-Tracks _) λ _.
          bind-Tracks (update-Tracks _) λ _.
            bind-Tracks (require-Tracks _) λ _. bind-Tracks (update-Tracks _) λ _. require-Tracks _

fixed_fields-Safe : Safe 5 fixed_fields
unfolding fixed_fields
fixed_fields-Safe = bind-Safe 4 1 (integer-Safe 4) λ mark. bind-Safe 0 1 (update-Safe _) λ _.
    bind-Safe 0 1 (require-Safe _) λ _. bind-Safe 1 0 (integer-Safe 1) λ octet.
      bind-Safe 0 0 (update-Safe _) λ _. bind-Safe 0 0 (require-Safe _) λ _.
        bind-Safe 0 0 (update-Safe _) λ _. bind-Safe 0 0 (require-Safe _) λ _.
          bind-Safe 0 0 (update-Safe _) λ _.
            bind-Safe 0 0 (require-Safe _) λ _. bind-Safe 0 0 (update-Safe _) λ _. require-Safe _

describing_fields-Tracks : Tracks describing_fields
unfolding describing_fields
describing_fields-Tracks = bind-Tracks (integer-Tracks 1) λ octet.
    bind-Tracks (update-Tracks _) λ _. bind-Tracks (require-Tracks _) λ _.
      bind-Tracks (integer-Tracks 2) λ sequence. bind-Tracks (update-Tracks _) λ _.
        bind-Tracks (bytes-Tracks 6) λ sim. bind-Tracks (update-Tracks _) λ _.
          bind-Tracks (integer-Tracks 1) λ channel. bind-Tracks (update-Tracks _) λ _.
            bind-Tracks (integer-Tracks 1) λ kinds. bind-Tracks (update-Tracks _) λ _.
              bind-Tracks (require-Tracks _)
                λ _. bind-Tracks (update-Tracks _) λ _. require-Tracks _

describing_fields-Safe : Safe 11 describing_fields
unfolding describing_fields
describing_fields-Safe = bind-Safe 1 10 (integer-Safe 1) λ octet.
    bind-Safe 0 10 (update-Safe _) λ _. bind-Safe 0 10 (require-Safe _) λ _.
      bind-Safe 2 8 (integer-Safe 2) λ sequence. bind-Safe 0 8 (update-Safe _) λ _.
        bind-Safe 6 2 (bytes-Safe 6) λ sim. bind-Safe 0 2 (update-Safe _) λ _.
          bind-Safe 1 1 (integer-Safe 1) λ channel. bind-Safe 0 1 (update-Safe _) λ _.
            bind-Safe 1 0 (integer-Safe 1) λ kinds. bind-Safe 0 0 (update-Safe _) λ _.
              bind-Safe 0 0 (require-Safe _) λ _. bind-Safe 0 0 (update-Safe _) λ _. require-Safe _

video_fields-Tracks : Tracks video_fields
unfolding video_fields
video_fields-Tracks = bind-Tracks (integer-Tracks 8) λ stamp. bind-Tracks (update-Tracks _) λ _.
    bind-Tracks (integer-Tracks 2) λ last_i.
      bind-Tracks (update-Tracks _) λ _. bind-Tracks (integer-Tracks 2) λ last. update-Tracks _

video_fields-Safe : Safe 12 video_fields
unfolding video_fields
video_fields-Safe = bind-Safe 8 4 (integer-Safe 8) λ stamp. bind-Safe 0 4 (update-Safe _) λ _.
    bind-Safe 2 2 (integer-Safe 2) λ last_i.
      bind-Safe 0 2 (update-Safe _) λ _. bind-Safe 2 0 (integer-Safe 2) λ last. update-Safe _

audio_fields-Tracks : Tracks audio_fields
unfolding audio_fields
audio_fields-Tracks = bind-Tracks (integer-Tracks 8) λ stamp. update-Tracks _

audio_fields-Safe : Safe 8 audio_fields
unfolding audio_fields
audio_fields-Safe = bind-Safe 8 0 (integer-Safe 8) λ stamp. update-Safe _

body_length-Tracks : Tracks body_length
unfolding body_length
body_length-Tracks =
    bind-Tracks (integer-Tracks 2) λ len. bind-Tracks (update-Tracks _) λ _. require-Tracks _

body_length-Safe : Safe 2 body_length
unfolding body_length
body_length-Safe =
    bind-Safe 2 0 (integer-Safe 2) λ len. bind-Safe 0 0 (update-Safe _) λ _. require-Safe _

timing_fields-Tracks : (t : ℕ) → Tracks (timing_fields t)
unfolding timing_fields
timing_fields-Tracks t =
    if_elim Tracks (is_video_type t) (λ _. bind-Tracks (need-Tracks 14) λ _. video_fields-Tracks)
      λ _.
        if_elim Tracks (t == data_type_audio)
          (λ _. bind-Tracks (need-Tracks 10) λ _. audio_fields-Tracks) (λ _. require-Tracks _)

pub parse_header_step1-Tracks : (n : ℕ) → Tracks (parse_header_step1 n)
unfolding parse_header_step1
parse_header_step1-Tracks n =
    bind-Tracks (need-Tracks n) λ _. bind-Tracks fixed_fields-Tracks λ _. describing_fields-Tracks

current-Tracks :
    {B : Type 0} (f : Header → Scan B) → ((h : Header) → Tracks (f h)) → Tracks (λ r. f r.header r)
current-Tracks {B} f later more r s g =
    subst (λ h. Follows {A = B} more (f r.header r) (f h s)) g.same_header
      (later r.header more r s g)

pub parse_header_step2-Tracks : (n : ℕ) → Tracks (parse_header_step2 n)
unfolding parse_header_step2
parse_header_step2-Tracks n = bind-Tracks (need-Tracks n) λ _.
    current-Tracks _ λ h. bind-Tracks (timing_fields-Tracks h.data_type4) λ _. body_length-Tracks

-- A parser either has too few bytes, says so and leaves everything as it was, or it has enough,
-- and then finds the header invalid or goes on behind the `k` bytes that it consumed.
pub data Outcome (k : ℕ) (r : Reader) : Scanned (Unit {0}) → Type 0 where
  hungry : avail r < k → Outcome k r (stop need_more_data r)
  served : {s : Scanned (Unit {0})} → k ≤ avail r → Post k r s → Outcome k r s

need_elim :
    (P : Scanned (Unit {0}) → Type 0) (n : ℕ) (r : Reader)
    → IsReadable r.input
    → (avail r < n → P (stop need_more_data r))
    → (n ≤ avail r → P (next tt r))
    → P (need n r)
unfolding need
need_elim P n r ok few enough = rw (readable_bytes-length r.input ok) (
    if_elim P (ltb (avail r) n) (λ e. few (ltb→lt (avail r) n e))
      (λ e. enough (ltb→le (avail r) n e)))

pub parse_header_step1-Outcome :
    (r : Reader) → IsReadable r.input → Outcome 16 r (parse_header_step1 16 r)
unfolding parse_header_step1
parse_header_step1-Outcome r ok =
    need_elim (λ s. Outcome 16 r (after s λ _ r'. after (fixed_fields r') λ _. describing_fields))
      16 r ok hungry
      λ room. served room (bind-Safe 5 11 fixed_fields-Safe (λ _. describing_fields-Safe) r ok room)

-- The size of the second part of the header.
abbrev pub second_size : ℕ → ℕ
second_size t = if is_video_type t then 14 else if t == data_type_audio then 10 else 2

second_fields-Outcome :
    (t : ℕ) (r : Reader)
    → IsReadable r.input
    → 2 ≤ avail r
    → Outcome (second_size t) r (after (timing_fields t r) (λ _. body_length))
unfolding timing_fields
second_fields-Outcome t r ok room = elim (Bool-cases (is_video_type t)) [
  | inl e ↦
      rw (e, timing_fields)
        (need_elim (λ s. Outcome 14 r (after (after s λ _. video_fields) λ _. body_length)) 14 r ok
          hungry
          λ enough.
            served enough (bind-Safe 12 2 video_fields-Safe (λ _. body_length-Safe) r ok enough))
  | inr e ↦ rw (e, timing_fields) (rest (Bool-cases (t == data_type_audio)))
]
  where
    rest :
        ((t == data_type_audio) ≡ true) ⊎ ((t == data_type_audio) ≡ false)
        → Outcome (if t == data_type_audio then 10 else 2) r (
            after
              ((if t == data_type_audio
                  then (λ s. after (need 10 s) λ _. audio_fields)
                  else require (t == data_type_route))
                r)
              (λ _. body_length))
    rest (inl e) = rw e (
        need_elim (λ s. Outcome 10 r (after (after s λ _. audio_fields) λ _. body_length)) 10 r ok
          hungry
          λ enough.
            served enough (bind-Safe 8 2 audio_fields-Safe (λ _. body_length-Safe) r ok enough))
    rest (inr e) =
        rw e (served room (bind-Safe 0 2 (require-Safe _) (λ _. body_length-Safe) r ok room))

second_size-bound : (t : ℕ) → 2 ≤ second_size t
second_size-bound t = ground arith

Outcome-hungry : (k : ℕ) (r : Reader) → avail r < 2 → 2 ≤ k → Outcome k r (stop need_more_data r)
Outcome-hungry k r few small = hungry (omega arith)

pub parse_header_step2-Outcome :
    (r : Reader)
    → IsReadable r.input
    → Outcome (second_size r.header.data_type4) r (parse_header_step2 2 r)
unfolding parse_header_step2
parse_header_step2-Outcome r ok =
    let t = r.header.data_type4 in
    need_elim
      (λ s.
        Outcome (second_size t) r
          (after s λ _ r'. after (timing_fields r'.header.data_type4 r') λ _. body_length))
      2 r ok (λ few. Outcome-hungry (second_size t) r few (second_size-bound t))
      (second_fields-Outcome t r ok)

after-next :
    {A B : Type 0} (s : Scanned A) (f : A → Scan B) {c : B} {r : Reader}
    → after s f ≡ next c r
    → (a : A) × (r' : Reader) × (f a r' ≡ next c r)
after-next (next a r') f e = (a, r', e)
after-next abort f e = cc
after-next (stop _ _) f e = cc

body_length_bound :
    (r : Reader) {r' : Reader} → body_length r ≡ next tt r' → r'.header.body_len ≤ jt1078_max_length
unfolding body_length update require
body_length_bound r e = let (len, s, last) = after-next (integer 2 r) _ e in ground arith

-- A header that is accepted announces at most `JT1078_MAX_LENGTH` bytes of body.
pub parse_header_step2_bound :
    (n : ℕ) (r : Reader) {r' : Reader}
    → parse_header_step2 n r ≡ next tt r'
    → r'.header.body_len ≤ jt1078_max_length
unfolding parse_header_step2
parse_header_step2_bound n r e =
    let (_, s, rest) = after-next (need n r) _ e in
    let (_, t, last) = after-next (timing_fields s.header.data_type4 s) _ rest in
    body_length_bound t last
