-- ===== src/Tcp/Ids.antt =====
-- TcpSession.cpp: `GenerateSessionId`, the ids under which the servers keep their sessions.
use multi_process_server.Base.{
  ℕ, ◌+◌, ◌-◌, ◌*◌, ◌%◌, ◌^◌, ◌≤◌, ◌<◌, ◌≡◌, ◌≢◌, ap, ◌∙◌, arith, ltb, if◌then◌else◌, if_then,
  lt→ltb, List, [], ◌∷◌, length,
}

abbrev pub one_million : ℕ
one_million = 1000000

-- The value of `time(nullptr)` and `s_total_session_count`: the id, and the count afterwards. The count
-- is converted to an `int`, so that its remainder is negative from 2 ^ 31 on.
unfoldable pub generate_session_id : ℕ → ℕ → ℕ × ℕ
generate_session_id t total =
    let count = (total + 1) % 2 ^ 64 in
    let cur = count % 2 ^ 32 in
    (
      if ltb cur (2 ^ 31)
          then (t * one_million + cur % one_million) % 2 ^ 64
          else (t * one_million + (2 ^ 64 - (2 ^ 32 - cur) % one_million)) % 2 ^ 64,
      count,
    )

-- The ids of the sessions that are made at these times, one after the other.
unfoldable pub generate_all : List ℕ → ℕ → List ℕ
unfolding generate_session_id
generate_all [] total = []
generate_all (t ∷ ts) total =
    let (id, total') = generate_session_id t total in let ids = generate_all ts total' in id ∷ ids

-- Times in seconds whose ids have 64 bits, of more than half a million years.
abbrev pub AllEarly : List ℕ → Type 0
AllEarly [] = Unit {0}
AllEarly (t ∷ ts) = (t < 2 ^ 44) × AllEarly ts

abbrev pub AllOthers : ℕ → List ℕ → Type 0
AllOthers id [] = Unit {0}
AllOthers id (j ∷ ids) = (id ≢ j) × AllOthers id ids

abbrev pub AllDifferent : List ℕ → Type 0
AllDifferent [] = Unit {0}
AllDifferent (id ∷ ids) = AllOthers id ids × AllDifferent ids

id-remainder :
    (t total : ℕ)
    → t < 2 ^ 44
    → total + 1 < 2 ^ 31
    → ((generate_session_id t total).0 % one_million ≡ (total + 1) % one_million)
      × ((generate_session_id t total).1 ≡ total + 1)
unfolding generate_session_id
id-remainder t total early few =
    let cur : (total + 1) % 2 ^ 64 % 2 ^ 32 ≡ total + 1 = omega arith in
    (
      ap (λ v. v % one_million)
            (if_then (ltb ((total + 1) % 2 ^ 64 % 2 ^ 32) (2 ^ 31)) _ _
              (lt→ltb _ _ (omega (arith, cur))))
          ∙ omega (arith, cur),
      omega arith,
    )

generate_all-AllOthers :
    (id n : ℕ) (ts : List ℕ) (total : ℕ)
    → id % one_million ≡ n % one_million
    → n ≤ total
    → total + length ts < n + one_million
    → total + length ts < 2 ^ 31
    → AllEarly ts
    → AllOthers id (generate_all ts total)
unfolding generate_all
generate_all-AllOthers id n [] total r behind near few early = tt
generate_all-AllOthers id n (t ∷ ts) total r behind near few (early, all) =
    let (r', count) = id-remainder t total early (omega arith) in
    (
      λ same.
          let remainder : id % one_million ≡ (total + 1) % one_million =
            ap (λ v. v % one_million) same ∙ r' in
          omega arith,
      generate_all-AllOthers id n ts (generate_session_id t total).1 r (omega (arith, count))
          (omega (arith, count)) (omega (arith, count)) all,
    )

-- At most a million sessions that are made one after the other, at times below 2 ^ 44 in any order, have
-- different ids, while fewer than 2 ^ 31 have been made.
pub generate_all-AllDifferent :
    (ts : List ℕ) (total : ℕ)
    → length ts ≤ one_million
    → total + length ts < 2 ^ 31
    → AllEarly ts
    → AllDifferent (generate_all ts total)
unfolding generate_all
generate_all-AllDifferent [] total short few early = tt
generate_all-AllDifferent (t ∷ ts) total short few (early, all) =
    let (r, count) = id-remainder t total early (omega arith) in
    (
      generate_all-AllOthers (generate_session_id t total).0 (total + 1) ts
          (generate_session_id t total).1 r (omega (arith, count)) (omega (arith, count))
          (omega (arith, count)) all,
      generate_all-AllDifferent ts (generate_session_id t total).1 (omega arith)
          (omega (arith, count)) all,
    )
