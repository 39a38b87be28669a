-- ===== src/Pipe/Whole.antt =====
-- PipeChannel.cpp: packets that arrive through a pipe in any parts.
use multi_process_server.Base.{
  ℕ, zero, suc, ◌<◌, ◌≤◌, ◌≡◌, refl, sym, ap, subst, ◌∙◌, arith, inl, inr, ◌⊎◌, List, [], ◌∷◌, ◌++◌,
  append-nil, append_assoc, Bytes, concat, length, length-append, length-drop, take, drop,
  replicate,
}
use multi_process_server.Pipe.{asks_for, Channel, new_channel, on_read, then_run}
use multi_process_server.Pipe.Arrivals.{
  Packet, read_all, written, AllSent, length-header, Expects, at_end, at_header, at_data, start,
}
use multi_process_server.Pipe.Parts.{
  Step, nothing-Step, enough, forward, divided, header_part, header_done, data_part, data_done,
}

nil_or_some : (xs : Bytes) → (xs ≡ []) ⊎ (0 < length xs)
nil_or_some [] = inl refl
nil_or_some (x ∷ xs) = inr (omega arith)

expects-Step :
    (now later future : Bytes) (c : Channel) (ps : List Packet)
    → Expects future c ps
    → now ++ later ≡ future
    → Step c now later ps
expects-Step [] later future c ps v e = nothing-Step c later future ps v e
expects-Step (x ∷ xs) later future c _ (at_end none) e =
    absurd (let no : (x ∷ xs) ++ later ≡ [] = e ∙ none in cc)
expects-Step (x ∷ xs) later future c _
      (at_header p ps seen rest all sum some_left status size waits buffer comes) e =
    let tail = p.1 ++ written ps in
    let arrives = e ∙ comes in
    let fits : length rest ≤ c.howmuch =
      omega (arith, size, ap length sum, length-append seen rest, length-header p) in
    let (few, some_got) = enough c x xs later rest tail arrives waits some_left fits in
    let on = forward c x xs later rest tail arrives waits some_left fits in
    let (more, same, then_on) = divided c x xs later rest tail arrives waits some_left fits in
    let g = take (asks_for c) (x ∷ xs) in
    let waits2 = waits ∙ ap length same in
    let sum2 = ap (◌++◌ seen) (sym same) ∙ sum in
    elim (nil_or_some more) [
      | inl none ↦
          header_done c (x ∷ xs) later g more tail p ps seen all refl some_got on then_on waits2
            sum2 status size buffer refl none
      | inr some ↦
          header_part c (x ∷ xs) later g more tail p ps seen all refl some_got on then_on waits2
            sum2 status size buffer refl some
    ]
expects-Step (x ∷ xs) later future c _
      (at_data p ps seen rest all sum some_left status size waits buffer comes) e =
    let tail = written ps in
    let arrives = e ∙ comes in
    let fits : length rest ≤ c.howmuch =
      omega (arith, size, ap length sum, length-append seen rest) in
    let (few, some_got) = enough c x xs later rest tail arrives waits some_left fits in
    let on = forward c x xs later rest tail arrives waits some_left fits in
    let (more, same, then_on) = divided c x xs later rest tail arrives waits some_left fits in
    let g = take (asks_for c) (x ∷ xs) in
    let waits2 = waits ∙ ap length same in
    let sum2 = ap (◌++◌ seen) (sym same) ∙ sum in
    elim (nil_or_some more) [
      | inl none ↦
          data_done c (x ∷ xs) later g more tail p ps seen all refl some_got on then_on waits2 sum2
            status size buffer refl none
      | inr some ↦
          data_part c (x ∷ xs) later g more tail p ps seen all refl some_got on then_on waits2 sum2
            status size buffer refl some
    ]

then_on-Step :
    (c : Channel) (now later : Bytes) (ps : List Packet) (step : Step c now later ps)
    (rest : Channel → Channel × List Packet)
    → rest step.after ≡ (new_channel, step.ahead)
    → then_run rest (on_read now c) ≡ (new_channel, ps)
then_on-Step c now later ps step rest e =
    ap (then_run rest) step.read
    ∙ ap (λ (r : Channel × List Packet). (r.0, step.handled ++ r.1)) e
    ∙ ap (λ qs. (new_channel, qs)) (sym step.split)

finished :
    (c : Channel) (ps : List Packet)
    → Expects [] c ps
    → let r : Channel × List Packet = (c, []) in r ≡ (new_channel, ps)
finished c _ (at_end e) = refl
finished c _ (at_header p ps seen rest all sum some_left status size waits buffer comes) =
    absurd (omega (arith, ap length comes, length-append rest (p.1 ++ written ps)))
finished c _ (at_data p ps seen rest all sum some_left status size waits buffer comes) =
    absurd (omega (arith, ap length comes, length-append rest (written ps)))

-- Nothing more is written, and there are enough read events for what is there.
drain-Expects :
    (n : ℕ) (held : Bytes) (c : Channel) (ps : List Packet)
    → Expects held c ps
    → length held ≤ n
    → read_all (replicate n []) held c ≡ (new_channel, ps)
unfolding read_all
drain-Expects zero [] c ps v few = finished c ps v
drain-Expects zero (x ∷ held) c ps v few = absurd (omega arith)
drain-Expects (suc n) held c ps v few =
    let now = held ++ [] in
    let step = expects-Step now [] held c ps v (append-nil now ∙ append-nil held) in
    let left = drop (asks_for c) now in
    let shorter : length left ≤ n = elim (nil_or_some now) [
      | inl none ↦ omega (arith, ap length none, length-drop (asks_for c) now)
      | inr some ↦ omega (arith, step.progress some, ap length (append-nil held))
    ] in
    then_on-Step c now [] ps step (read_all (replicate n []) left) (
      drain-Expects n left step.after step.ahead
        (subst (λ f. Expects f step.after step.ahead) (append-nil left) step.expects) shorter)

arrive-Expects :
    (n : ℕ) (cs : List Bytes) (held future : Bytes) (c : Channel) (ps : List Packet)
    → Expects future c ps
    → held ++ concat cs ≡ future
    → length future ≤ n
    → read_all (cs ++ replicate n []) held c ≡ (new_channel, ps)
unfolding read_all
arrive-Expects n [] held future c ps v e few =
    let all = sym (append-nil held) ∙ e in
    drain-Expects n held c ps (subst (λ f. Expects f c ps) (sym all) v)
      (omega (arith, ap length all, few))
arrive-Expects n (new ∷ more) held future c ps v e few =
    let now = held ++ new in
    let later = concat more in
    let all : now ++ later ≡ future = append_assoc held new later ∙ e in
    let step = expects-Step now later future c ps v all in
    let left = drop (asks_for c) now in
    then_on-Step c now later ps step (read_all (more ++ replicate n []) left) (
      arrive-Expects n more left (left ++ later) step.after step.ahead step.expects refl (
        omega (
          arith,
          ap length all,
          length-append now later,
          length-append left later,
          length-drop (asks_for c) now,
        )))

-- Packets with at least one byte of data, whose types and lengths have 32 bits, are written to a pipe, and
-- arrive in any parts between its read events, each of which takes what the channel asks for, at most
-- 1024 bytes; behind the last part there are as many read events as there are bytes, or more. The packets
-- are handled, each once, with its type and data and in order, and the channel is as at first.
pub read_all-written :
    (ps : List Packet) (cs : List Bytes) (n : ℕ)
    → AllSent ps
    → concat cs ≡ written ps
    → length (written ps) ≤ n
    → read_all (cs ++ replicate n []) [] new_channel ≡ (new_channel, ps)
read_all-written ps cs n all e few =
    arrive-Expects n cs [] (written ps) new_channel ps (start (written ps) ps all refl) e few
