-- ===== src/Web/Audio/Codec/Header.antt =====
-- CCodec.cpp: which of the headers that `AddHaiSiHeader` writes `HaveHaiSiHeader` finds.
use multi_process_server.Base.{
  ℕ, suc, ◌+◌, ◌-◌, ◌*◌, ◌/◌, ◌%◌, ◌<◌, ◌≡◌, ap, ◌∙◌, arith, ltb, ◌==◌, if◌then◌else◌, false, ◌&&◌,
  ◌++◌, Bytes, length, unsigned, signed,
}
use multi_process_server.Web.Audio.Codec.{have_hai_si_header, hai_si_header}

signed_byte : (b : ℕ) → b < 256 → unsigned 16 (signed 8 b) ≡ (if ltb b 128 then b else b + 65280)
unfolding unsigned signed
signed_byte b h = ground arith

length_matches :
    (n : ℕ)
    → n < 65536
    → ((if ltb (n / 2 % 256) 128 then n / 2 % 256 else n / 2 % 256 + 65280) * 2 == n)
      ≡ (n % 2 == 0 && ltb n 256)
length_matches n h = ground arith

long_enough :
    (n v : ℕ)
    → (if ltb (suc (suc (suc (suc n)))) 4 then false else v * 2 == suc (suc (suc (suc n))) - 4)
      ≡ (v * 2 == n)
long_enough n v = ground arith

-- The header of a body of fewer than 65536 bytes is found exactly where their number is even and
-- below 256.
pub have_hai_si_header-hai_si_header :
    (body : Bytes)
    → length body < 65536
    → have_hai_si_header (hai_si_header (length body) ++ body)
      ≡ (length body % 2 == 0 && ltb (length body) 256)
unfolding have_hai_si_header hai_si_header
have_hai_si_header-hai_si_header body h =
    long_enough (length body) (unsigned 16 (signed 8 (length body / 2 % 256)))
    ∙ ap (λ b. b * 2 == length body) (signed_byte (length body / 2 % 256) (omega arith))
    ∙ length_matches (length body) h
