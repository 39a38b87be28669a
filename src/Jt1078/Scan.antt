-- ===== src/Jt1078/Scan.antt =====
-- The steps that the header parsers of jt1078/jt1078_server/Jt1078Decoder.cpp are made of, as a
-- monad over the header and the buffer that they write to: a failed assertion ends the process, a
-- failed check leaves the function with its error code and all that was written so far.
pub mod Rules
pub mod Fits
use multi_process_server.Base.{
  ℕ, ◌≤◌, Bool, true, false, Option, none, some, Bytes, ltb, if◌then◌else◌,
}
use multi_process_server.Buffer.{Buffer, readable_bytes, read_integer, read_buffer}
use multi_process_server.Jt1078.Header.{Header}

-- `decoder_t::ErrorType`.
pub data ErrorType : Type 0 where
  no_error need_more_data buffer_full invalid_header body_length_invalid : ErrorType

pub record Reader : Type 0 where
  pub header : Header
  pub input : Buffer

pub data Scanned (A : Type 0) : Type 0 where
  abort : Scanned A
  stop : ErrorType → Reader → Scanned A
  next : A → Reader → Scanned A

abbrev pub Scan : Type 0 → Type 0
Scan A = Reader → Scanned A

-- What follows a step that ended this way.
abbrev pub after : {A B : Type 0} → Scanned A → (A → Scan B) → Scanned B
after abort f = abort
after (stop e r) f = stop e r
after (next a r) f = f a r

infixl 5 ◌>>=◌ ◌>>◌
abbrev pub ◌>>=◌ : {A B : Type 0} → Scan A → (A → Scan B) → Scan B
◌>>=◌ m f r = after (m r) f

abbrev pub ◌>>◌ : {B : Type 0} → Scan (Unit {0}) → Scan B → Scan B
m >> k = m >>= λ _. k

abbrev pub pure : {A : Type 0} → A → Scan A
pure a r = next a r

abbrev pub current : Scan Header
current r = next r.header r

unfoldable pub update : (Header → Header) → Scan (Unit {0})
update f r = next tt (record r { header = f r.header })

-- `if (!test) { error = kInvalidHeader; break; }`
unfoldable pub require : Bool → Scan (Unit {0})
require test r = if test then next tt r else stop invalid_header r

-- `if (m_buffer.ReadableBytes() < n) { error = kNeedMoreData; break; }`
unfoldable pub need : ℕ → Scan (Unit {0})
need n r = if ltb (readable_bytes r.input) n then stop need_more_data r else next tt r

-- A failed assertion of the buffer ends the process.
abbrev pub taken : {A : Type 0} → Reader → Option (A × Buffer) → Scanned A
taken r none = abort
taken r (some (v, b)) = next v (record r { input = b })

unfoldable pub integer : ℕ → Scan ℕ
integer n r = taken r (read_integer n r.input)

unfoldable pub bytes : ℕ → Scan Bytes
bytes n r = taken r (read_buffer n r.input)
