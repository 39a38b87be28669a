-- ===== src/Web/Rtmp/Stream/Key.antt =====
-- RtmpStream.cpp: what `isIdrFrame1` finds.
use multi_process_server.Base.{
  ℕ, zero, suc, ◌+◌, ◌-◌, ◌<◌, ◌∙◌, ◌≡◌, refl, sym, arith, ap, ◌==◌, if◌then◌else◌, Bool, true,
  false, ◌&&◌, ◌||◌, not, [], ◌∷◌, Bytes, length, get_or,
}
use multi_process_server.Web.Rtmp.Stream.{is_idr_frame2, is_start_code, idr_loop, is_idr_frame1}

-- Among these many positions from one on, one ends a start code whose next byte begins a key frame.
abbrev pub any_key : Bytes → ℕ → ℕ → Bool
any_key buf zero i = false
any_key buf (suc k) i =
    (is_start_code buf i && is_idr_frame2 (get_or buf (i + 1) 0)) || any_key buf k (i + 1)

le_same : (a b : ℕ) → a ≡ b → (a == b) ≡ true
le_same a b e = ground arith

differs : (a b : ℕ) → a < b → (a == b) ≡ false
differs a b h = ground arith

not_zero : (n : ℕ) → (n + 1 == 0) ≡ false
not_zero n = ground arith

or_false : (b : Bool) → (if b then true else false) ≡ (b || false)
or_false true = refl
or_false false = refl

-- One turn of the loop, on its tests.
turn :
    (start found next rest : Bool)
    → (if start then (if found then true else (next || rest)) else (found || rest))
      ≡ (found || ((start && next) || rest))
turn true true next rest = refl
turn true false next rest = refl
turn false found next rest = refl

idr_loop-any_key :
    (buf : Bytes) (k i last : ℕ)
    → i + k ≡ length buf
    → idr_loop buf (suc k) i last
      ≡ ((not (last == 0) && is_idr_frame2 (get_or buf last 0)) || any_key buf k i)
unfolding idr_loop
idr_loop-any_key buf zero i last e =
    let found = not (last == 0) && is_idr_frame2 (get_or buf last 0) in
    ap
      (λ b.
        if b
        then (if found then true else false)
        else if is_start_code buf i
        then (if found then true else false)
        else false)
      (le_same i (length buf) (omega (arith, e)))
    ∙ or_false found
idr_loop-any_key buf (suc k) i last e =
    let found = not (last == 0) && is_idr_frame2 (get_or buf last 0) in
    let next = is_idr_frame2 (get_or buf (i + 1) 0) in
    let rest = any_key buf k (i + 1) in
    ap
      (λ b.
        if b
        then (if found then true else idr_loop buf (suc k) (i + 1) last)
        else if is_start_code buf i
        then (if found then true else idr_loop buf (suc k) (i + 1) (i + 1))
        else idr_loop buf (suc k) (i + 1) last)
      (differs i (length buf) (omega (arith, e)))
    ∙ (λ j.
        if is_start_code buf i
        then (if found then true else idr_loop-any_key buf k (i + 1) (i + 1) (omega (arith, e)) j)
        else idr_loop-any_key buf k (i + 1) last (omega (arith, e)) j)
    ∙ ap
        (λ b.
          if is_start_code buf i
          then (if found then true else ((not b && next) || rest))
          else (found || rest))
        (not_zero i)
    ∙ turn (is_start_code buf i) found next rest

less : (n : ℕ) → suc (suc n) - 1 ≡ suc n
less n = omega arith

less_two : (n : ℕ) → suc (suc n) - 2 ≡ n
less_two n = omega arith

-- `isIdrFrame1` finds a key frame exactly where some start code has the byte of a parameter set or of
-- an IDR slice behind it.
pub is_idr_frame1-any_key : (buf : Bytes) → is_idr_frame1 buf ≡ any_key buf (length buf - 2) 2
unfolding is_idr_frame1
is_idr_frame1-any_key [] = refl
is_idr_frame1-any_key (x ∷ []) = refl
is_idr_frame1-any_key (x ∷ y ∷ bytes) =
    let buf = x ∷ y ∷ bytes in
    ap (λ k. idr_loop buf k 2 0) (less (length bytes))
    ∙ idr_loop-any_key buf (length bytes) 2 0 (omega arith)
    ∙ ap (λ k. any_key buf k 2) (sym (less_two (length bytes)))
