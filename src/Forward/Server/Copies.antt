-- ===== src/Forward/Server/Copies.antt =====
-- ForwardServer.cpp and Publisher.cpp: which channels there are, and which requests were made, after
-- each operation.
use multi_process_server.Base.{
  ℕ, suc, ◌+◌, ◌≤◌, ◌≡◌, refl, sym, ap, ◌∙◌, arith, ◌==◌, ltb, Bool, true, false, if◌then◌else◌,
  if_elim, Bool-cases, inl, inr, List, [], ◌∷◌, ◌++◌, find, insert, some,
}
use mathlib.Core.Bool.{true≢false}
use multi_process_server.Forward.Publisher.{
  Channel, Channels, is_empty, found, exists, create_channel, alter, unsubscribe_all,
}
use multi_process_server.Forward.Server.{Notice, command, no_subscriber, release_empty}

-- How often the service was asked to connect a device, or to disconnect it.
abbrev pub tally : ℕ → Bool → List Notice → ℕ
tally k b [] = 0
tally k true (command j true r ∷ ns) = let n = tally k true ns in if j == k then suc n else n
tally k true (command j false r ∷ ns) = tally k true ns
tally k false (command j false r ∷ ns) = let n = tally k false ns in if j == k then suc n else n
tally k false (command j true r ∷ ns) = tally k false ns
tally k b (no_subscriber j r ∷ ns) = tally k b ns

pub tally-append :
    (k : ℕ) (b : Bool) (xs ys : List Notice) → tally k b (xs ++ ys) ≡ tally k b xs + tally k b ys
tally-append k b [] ys = omega arith
tally-append k true (command j true r ∷ xs) ys = ground (arith, tally-append k true xs ys)
tally-append k true (command j false r ∷ xs) ys = tally-append k true xs ys
tally-append k false (command j false r ∷ xs) ys = ground (arith, tally-append k false xs ys)
tally-append k false (command j true r ∷ xs) ys = tally-append k false xs ys
tally-append k true (no_subscriber j r ∷ xs) ys = tally-append k true xs ys
tally-append k false (no_subscriber j r ∷ xs) ys = tally-append k false xs ys

-- How many channels a device has.
abbrev pub copies : ℕ → Channels → ℕ
copies k [] = 0
copies k ((j, c) ∷ m) = let n = copies k m in if c.channel_id == k then suc n else n

-- Every channel stands under its own id.
abbrev pub Keyed : Channels → Type 0
Keyed [] = Unit {0}
Keyed ((j, c) ∷ m) = (c.channel_id ≡ j) × Keyed m

module _ (f : Channel → Channel) (same : (c : Channel) → (f c).channel_id ≡ c.channel_id) where
  pub copies-alter : (i k : ℕ) (m : Channels) → copies k (alter i f m) ≡ copies k m
  unfolding alter
  copies-alter i k [] = refl
  copies-alter i k ((j, c) ∷ m) = ground (arith, copies-alter i k m, same c)

  pub alter-Keyed : (i : ℕ) (m : Channels) → Keyed m → Keyed (alter i f m)
  unfolding alter
  alter-Keyed i [] v = v
  alter-Keyed i ((j, c) ∷ m) (e, v) =
      if_elim Keyed (j == i) (λ _. (same c ∙ e, v)) (λ _. (e, alter-Keyed i m v))

pub copies-unsubscribe_all :
    (id k : ℕ) (m : Channels) → copies k (unsubscribe_all id m) ≡ copies k m
unfolding unsubscribe_all
copies-unsubscribe_all id k [] = refl
copies-unsubscribe_all id k ((j, c) ∷ m) = ground (arith, copies-unsubscribe_all id k m)

pub unsubscribe_all-Keyed : (id : ℕ) (m : Channels) → Keyed m → Keyed (unsubscribe_all id m)
unfolding unsubscribe_all
unsubscribe_all-Keyed id [] v = v
unsubscribe_all-Keyed id ((j, c) ∷ m) (e, v) = (e, unsubscribe_all-Keyed id m v)

-- A channel that leaves takes one request to disconnect its device with it.
pub release_empty-copies :
    (r : Bool) (k : ℕ) (m : Channels)
    → copies k m ≡ copies k (release_empty r m).0 + tally k false (release_empty r m).1
unfolding release_empty
release_empty-copies r k [] = refl
release_empty-copies r k ((j, c) ∷ m) = elim (Bool-cases (is_empty c.subscribers)) [
  | inl e ↦ rw e (ground (arith, release_empty-copies r k m))
  | inr e ↦ rw e (ground (arith, release_empty-copies r k m))
]

pub release_empty-opens : (r : Bool) (k : ℕ) (m : Channels) → tally k true (release_empty r m).1 ≡ 0
unfolding release_empty
release_empty-opens r k [] = refl
release_empty-opens r k ((j, c) ∷ m) = elim (Bool-cases (is_empty c.subscribers)) [
  | inl e ↦ rw e (release_empty-opens r k m)
  | inr e ↦ rw e (release_empty-opens r k m)
]

pub release_empty-Keyed : (r : Bool) (m : Channels) → Keyed m → Keyed (release_empty r m).0
unfolding release_empty
release_empty-Keyed r [] v = v
release_empty-Keyed r ((j, c) ∷ m) (e, v) =
    if_elim (λ (p : Channels × List Notice). Keyed p.0) (is_empty c.subscribers)
      (λ _. release_empty-Keyed r m v) (λ _. (e, release_empty-Keyed r m v))

pub exists-copies :
    (k : ℕ) (m : Channels) → Keyed m → if exists k m then 1 ≤ copies k m else (copies k m ≡ 0)
unfolding exists find
exists-copies k [] v = refl
exists-copies k ((j, c) ∷ m) (e, v) = elim (Bool-cases (j == k)) [
  | inl h ↦ rw (e, h) (omega arith)
  | inr h ↦ rw (e, h) (exists-copies k m v)
]

pub copies-create_channel :
    (i k : ℕ) (m : Channels)
    → Keyed m
    → exists i m ≡ false
    → copies k (create_channel i m) ≡ (if i == k then suc (copies k m) else copies k m)
unfolding create_channel insert exists find
copies-create_channel i k [] v h = refl
copies-create_channel i k ((j, c) ∷ m) (e, v) h = elim (Bool-cases (j == i)) [
  | inl same ↦ absurd (true≢false (sym (ap (λ b. found (if b then some c else find i m)) same) ∙ h))
  | inr other ↦ rw other (
      ground (
        arith,
        copies-create_channel i k m v
            (sym (ap (λ b. found (if b then some c else find i m)) other) ∙ h),
      ))
]

pub create_channel-Keyed : (i : ℕ) (m : Channels) → Keyed m → Keyed (create_channel i m)
unfolding create_channel insert
create_channel-Keyed i [] v = (refl, v)
create_channel-Keyed i ((j, c) ∷ m) (e, v) =
    if_elim Keyed (j == i) (λ _. (refl, v))
      (λ _. if_elim Keyed (ltb i j) (λ _. (refl, (e, v))) (λ _. (e, create_channel-Keyed i m v)))
