-- ===== src/Web/Audio/G711/Codes.antt =====
-- G711.cpp: decoding loses nothing, by a run over the 256 codes.
use multi_process_server.Base.{
  ℕ, zero, suc, ◌<◌, ◌≡◌, ◌≢◌, refl, sym, ap, ◌∙◌, arith, Bool, true, false, ◌&&◌, ◌==◌, ==_iff,
  if◌then◌else◌, [], ◌∷◌, map, Bytes, length, unsigned, signed, Bool-cases, inl, inr,
}
use multi_process_server.Web.Audio.G711.{
  search, quantum, segment_of, to_short, alaw2linear, ulaw2linear, linear2alaw, linear2ulaw,
  g711a_decode, g711a_encode, g711u_decode, g711u_encode,
}

abbrev all_below : (ℕ → Bool) → ℕ → Bool
all_below p zero = true
all_below p (suc n) = p n && all_below p n

true_and : (a b : Bool) → (a && b) ≡ true → (a ≡ true) × (b ≡ true)
true_and true b e = (refl, e)
true_and false b e = absurd cc

all_below_holds : (p : ℕ → Bool) (n i : ℕ) → all_below p n ≡ true → i < n → p i ≡ true
all_below_holds p zero i all h = absurd (omega arith)
all_below_holds p (suc n) i all h =
    let (here, below) = true_and (p n) (all_below p n) all in
    elim (Bool-cases (i == n)) [
      | inl e ↦ ap p ((==_iff i n).0 e) ∙ here
      | inr e ↦ all_below_holds p n i below (ground arith)
    ]

alaw_codes : all_below (λ c. linear2alaw (to_short (alaw2linear c)) == c) 256 ≡ true
unfolding search quantum segment_of to_short alaw2linear linear2alaw unsigned signed
alaw_codes = refl

-- 0x7f is the second code of zero.
ulaw_codes :
    all_below (λ c. if c == 0x7f then true else linear2ulaw (to_short (ulaw2linear c)) == c) 256
    ≡ true
unfolding search quantum segment_of to_short ulaw2linear linear2ulaw unsigned signed
ulaw_codes = refl

abbrev pub AllOf : (ℕ → Type 0) → Bytes → Type 0
AllOf P [] = Unit {0}
AllOf P (c ∷ cs) = P c × AllOf P cs

-- The codes that A-law, and that u-law, gives to samples.
abbrev pub IsAlaw : ℕ → Type 0
IsAlaw c = c < 256

abbrev pub IsUlaw : ℕ → Type 0
IsUlaw c = (c < 256) × (c ≢ 0x7f)

linear2alaw-alaw2linear : (c : ℕ) → IsAlaw c → linear2alaw (to_short (alaw2linear c)) ≡ c
linear2alaw-alaw2linear c h =
    (==_iff (linear2alaw (to_short (alaw2linear c))) c).0
      (all_below_holds (λ c. linear2alaw (to_short (alaw2linear c)) == c) 256 c alaw_codes h)

linear2ulaw-ulaw2linear : (c : ℕ) → IsUlaw c → linear2ulaw (to_short (ulaw2linear c)) ≡ c
linear2ulaw-ulaw2linear c (h, other) =
    let e =
      all_below_holds (λ c. if c == 0x7f then true else linear2ulaw (to_short (ulaw2linear c)) == c)
        256 c ulaw_codes h in
    elim (Bool-cases (c == 0x7f)) [
      | inl same ↦ absurd (other ((==_iff c 0x7f).0 same))
      | inr differs ↦ (==_iff (linear2ulaw (to_short (ulaw2linear c))) c).0 (
          sym (ap (λ b. if b then true else linear2ulaw (to_short (ulaw2linear c)) == c) differs)
          ∙ e)
    ]

map_back :
    {A : Type 0} (P : ℕ → Type 0) (f : ℕ → A) (g : A → ℕ)
    → ((c : ℕ) → P c → g (f c) ≡ c)
    → (cs : Bytes) → AllOf P cs
    → map g (map f cs) ≡ cs
map_back P f g h [] ps = refl
map_back P f g h (c ∷ cs) (p, ps) = λ i. h c p i ∷ map_back P f g h cs ps i

length-map : {A : Type 0} (f : ℕ → A) (cs : Bytes) → length (map f cs) ≡ length cs
length-map f [] = refl
length-map f (c ∷ cs) = ap suc (length-map f cs)

-- A-law codes that are decoded and encoded again are the same codes, as many.
pub g711a_encode-g711a_decode :
    (cs : Bytes) → AllOf IsAlaw cs → g711a_encode (g711a_decode cs).0 ≡ (cs, length cs)
unfolding g711a_encode g711a_decode
g711a_encode-g711a_decode cs all = λ i. (
  map_back IsAlaw (λ c. to_short (alaw2linear c)) linear2alaw linear2alaw-alaw2linear cs all i,
  length-map (λ c. to_short (alaw2linear c)) cs i,
)

-- u-law codes without 0x7f, the second code of zero, that are decoded and encoded again are the same
-- codes, as many.
pub g711u_encode-g711u_decode :
    (cs : Bytes) → AllOf IsUlaw cs → g711u_encode (g711u_decode cs).0 ≡ (cs, length cs)
unfolding g711u_encode g711u_decode
g711u_encode-g711u_decode cs all = λ i. (
  map_back IsUlaw (λ c. to_short (ulaw2linear c)) linear2ulaw linear2ulaw-ulaw2linear cs all i,
  length-map (λ c. to_short (ulaw2linear c)) cs i,
)
