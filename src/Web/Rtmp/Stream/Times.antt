-- ===== src/Web/Rtmp/Stream/Times.antt =====
-- RtmpStream.cpp: the times that `GetAVPts` gives to the frames of a stream.
use multi_process_server.Base.{
  ℕ, ◌+◌, ◌-◌, ◌%◌, ◌^◌, ◌≤◌, ◌<◌, ◌≡◌, refl, sym, ap, subst, ◌∙◌, arith, ltb, ◌==◌, if◌then◌else◌,
  lt→ltb, le→ltb, ==_iff, if_elim, ltb→lt, ltb→le, negsuc, List, [], ◌∷◌, ℤ, pos, signed,
}
use multi_process_server.Web.Rtmp.Stream.{Clock, get_av_pts}

-- The clock of a new stream.
abbrev pub fresh : Clock
fresh = record { last = 0; offset = 0 }

-- The clock after a first frame and others.
abbrev pub clock_after : List ℕ → Clock → Clock
clock_after [] k = k
clock_after (t ∷ ts) k = clock_after ts (get_av_pts t k).1

-- The last of the times, from one on, that is not before all that precede it.
abbrev pub latest : ℕ → List ℕ → ℕ
latest a [] = a
latest a (t ∷ ts) = latest (if ltb t a then a else t) ts

-- A clock that a stream has since the time `start`.
record Since (start now : ℕ) (k : Clock) : Type 0 where
  positive : 0 < start
  after : start ≤ now
  at_now : k.last ≡ now
  apart : k.offset ≡ (now - start) % 2 ^ 32

step :
    (start now t : ℕ) (k : Clock)
    → Since start now k
    → Since start (if ltb t now then now else t) (get_av_pts t k).1
unfolding get_av_pts
step start now t k s =
    let P : ℤ × Clock → Type 0 = λ p. Since start (if ltb t now then now else t) p.1 in
    if_elim P (k.last == 0)
      (λ z. absurd (omega (arith, (==_iff k.last 0).0 z, s.at_now, s.positive, s.after)))
      (λ _.
        if_elim P (ltb t k.last)
          (λ l.
            subst (λ n. Since start n k)
              (sym (
                ap (λ b. if b then now else t)
                  (lt→ltb t now (omega (arith, ltb→lt t k.last l, s.at_now)))))
              s)
          (λ l.
            let behind = (k.offset + (t - k.last)) % 2 ^ 32 in
            subst (λ n. Since start n (record { last = t; offset = behind }))
              (sym (
                ap (λ b. if b then now else t)
                  (le→ltb t now (omega (arith, ltb→le t k.last l, s.at_now)))))
              (record {
                positive = s.positive;
                after = omega (arith, ltb→le t k.last l, s.at_now, s.after);
                at_now = refl;
                apart = omega (arith, ltb→le t k.last l, s.at_now, s.after, s.apart);
              })))

clock_after-Since :
    (start now : ℕ) (ts : List ℕ) (k : Clock)
    → Since start now k
    → Since start (latest now ts) (clock_after ts k)
clock_after-Since start now [] k s = s
clock_after-Since start now (t ∷ ts) k s =
    clock_after-Since start (if ltb t now then now else t) ts (get_av_pts t k).1
      (step start now t k s)

elapsed_time :
    (start now t : ℕ) (k : Clock)
    → Since start now k
    → now ≤ t
    → t - start < 2 ^ 31
    → (get_av_pts t k).0 ≡ pos (t - start)
unfolding get_av_pts signed
elapsed_time start now t k s h near =
    let P : ℤ × Clock → Type 0 = λ p. p.0 ≡ pos (t - start) in
    if_elim P (k.last == 0)
      (λ z. absurd (omega (arith, (==_iff k.last 0).0 z, s.at_now, s.positive, s.after)))
      (λ _.
        if_elim P (ltb t k.last) (λ l. absurd (omega (arith, ltb→lt t k.last l, s.at_now)))
          (λ l.
            let behind = (k.offset + (t - k.last)) % 2 ^ 32 in
            let e : behind ≡ t - start = omega (arith, s.at_now, s.after, s.apart) in
            ap (λ b. if b then pos behind else negsuc (2 ^ 32 - 1 - behind))
              (lt→ltb behind (2 ^ 31) (omega (arith, e)))
            ∙ ap pos e))

-- A stream whose first time is not 0 gives each frame that is not before an earlier one, and less than
-- 2 ^ 31 after the first, the time that has passed since the first.
pub get_av_pts-elapsed :
    (first : ℕ) (ts : List ℕ) (t : ℕ)
    → 0 < first
    → latest first ts ≤ t
    → t - first < 2 ^ 31
    → (get_av_pts t (clock_after (first ∷ ts) fresh)).0 ≡ pos (t - first)
unfolding get_av_pts
get_av_pts-elapsed first ts t positive ahead near =
    elapsed_time first (latest first ts) t (clock_after (first ∷ ts) fresh)
      (clock_after-Since first first ts (record { last = first; offset = 0 })
        (record { positive = positive; after = omega arith; at_now = refl; apart = omega arith }))
      ahead near
