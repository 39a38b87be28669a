-- ===== src/WebSocket/Server/Counts.antt =====
-- CarTopicManager.h: how many topics a device has after each operation.
use multi_process_server.Base.{
  ℕ, suc, ◌+◌, ◌≤◌, ◌≡◌, refl, sym, ◌∙◌, arith, ◌==◌, if◌then◌else◌, if_else, Bool-cases, inl, inr,
  List, [], ◌∷◌, find, insert, erase,
}
use multi_process_server.WebSocket.Topics.{
  Topics, no_handles, exists_topic, create_topic, subscribe_topic, remove_subscriber, empty_topics,
  remove_topics,
}

abbrev pub copies : ℕ → Topics → ℕ
copies k [] = 0
copies k ((j, hs) ∷ m) = let n = copies k m in if j == k then suc n else n

abbrev pub count : ℕ → List ℕ → ℕ
count k [] = 0
count k (j ∷ js) = let n = count k js in if j == k then suc n else n

pub exists-copies :
    (k : ℕ) (m : Topics) → if exists_topic k m then 1 ≤ copies k m else (copies k m ≡ 0)
unfolding exists_topic find
exists-copies k [] = refl
exists-copies k ((j, hs) ∷ m) = elim (Bool-cases (j == k)) [
  | inl h ↦ rw h (omega arith)
  | inr h ↦ rw h (exists-copies k m)
]

pub copies-subscribe_topic :
    (i h k : ℕ) (m : Topics) → copies k (subscribe_topic i h m) ≡ copies k m
unfolding subscribe_topic
copies-subscribe_topic i h k [] = refl
copies-subscribe_topic i h k ((j, hs) ∷ m) = ground (arith, copies-subscribe_topic i h k m)

pub copies-remove_subscriber :
    (h k : ℕ) (m : Topics) → copies k (remove_subscriber h m) ≡ copies k m
unfolding remove_subscriber
copies-remove_subscriber h k [] = refl
copies-remove_subscriber h k ((j, hs) ∷ m) = ground (arith, copies-remove_subscriber h k m)

copies-erase : (i k : ℕ) (m : Topics) → copies k (erase i m) ≡ (if i == k then 0 else copies k m)
unfolding erase
copies-erase i k [] = ground arith
copies-erase i k ((j, hs) ∷ m) = ground (arith, copies-erase i k m)

pub copies-create_topic :
    (i k : ℕ) (m : Topics)
    → copies i m ≡ 0
    → copies k (create_topic i m) ≡ (if i == k then suc (copies k m) else copies k m)
unfolding create_topic insert
copies-create_topic i k [] h = refl
copies-create_topic i k ((j, hs) ∷ m) h = elim (Bool-cases (j == i)) [
  | inl same ↦ absurd (ground (arith, h, same))
  | inr other ↦ rw other (
      ground (
        arith,
        copies-create_topic i k m
            (sym (if_else (j == i) (suc (copies i m)) (copies i m) other) ∙ h),
      ))
]

copies-remove_topics :
    (k : ℕ) (js : List ℕ) (m : Topics)
    → copies k (remove_topics js m) ≡ (if count k js == 0 then copies k m else 0)
unfolding remove_topics
copies-remove_topics k [] m = refl
copies-remove_topics k (j ∷ js) m =
    ground (arith, copies-remove_topics k js (erase j m), copies-erase j k m)

count-empty_topics : (k : ℕ) (m : Topics) → count k (empty_topics m) ≤ copies k m
unfolding empty_topics
count-empty_topics k [] = omega arith
count-empty_topics k ((j, hs) ∷ m) = elim (Bool-cases (no_handles hs)) [
  | inl e ↦ rw e (ground (arith, count-empty_topics k m))
  | inr e ↦ rw e (ground (arith, count-empty_topics k m))
]

-- Of a device with at most one topic, the empty topics and those that are left are all of them.
pub copies-removed :
    (k : ℕ) (m : Topics)
    → copies k m ≤ 1
    → copies k m ≡ copies k (remove_topics (empty_topics m) m) + count k (empty_topics m)
copies-removed k m one =
    let n = count k (empty_topics m) in
    ground (arith, one, count-empty_topics k m, copies-remove_topics k (empty_topics m) m)
