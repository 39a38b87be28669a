-- ===== src/Buffer.antt =====
-- core/buffer/Buffer.h and Buffer.cpp: the byte buffer of a connection. `buffer` is the content of
-- `m_buffer`, `capacity` what its `capacity()` returns, and `read_index` is `m_read_index`. The
-- scratch array `m_recv_buffer` holds nothing between two calls and has no field.
-- How much a std::string allocates is the library's choice: the parameter `Alloc`.
pub mod Contents
pub mod Push
use multi_process_server.Base.{
  ℕ, ◌+◌, ◌-◌, ◌*◌, ◌^◌, ◌≤◌, min, ◌||◌, List, [], ◌∷◌, ◌++◌, Option, none, some, Bytes, length,
  take, drop, big_endian, ltb, leb, if◌then◌else◌, Bool, true, false, ◌>>=◌,
}

-- std::string's allocation: the capacity after an append that needs `n` bytes where `c` are too
-- few, and after `reserve(n)`. The standard promises room for `n` bytes in both cases.
pub record Alloc : Type 0 where
  pub grown : ℕ → ℕ → ℕ
  pub reserved : ℕ → ℕ → ℕ
  pub grown_fits : (c n : ℕ) → n ≤ grown c n
  pub reserved_fits : (c n : ℕ) → n ≤ reserved c n

pub record Buffer : Type 0 where
  pub buffer : Bytes
  pub read_index : ℕ
  pub capacity : ℕ

abbrev pub max_size_once_read : ℕ
max_size_once_read = 5 * 1024

-- `GetBuffer()`: what follows the read position.
unfoldable pub get_buffer : Buffer → Bytes
get_buffer b = drop b.read_index b.buffer

-- `m_buffer.size() - m_read_index` in size_t.
unfoldable pub readable_bytes : Buffer → ℕ
readable_bytes b =
    if leb b.read_index (length b.buffer)
    then length b.buffer - b.read_index
    else length b.buffer + 2 ^ 64 - b.read_index

unfoldable pub get_left_capacity : Buffer → ℕ
get_left_capacity b = b.capacity - length b.buffer

unfoldable pub clear : Buffer → Buffer
clear b = record b { buffer = []; read_index = 0 }

-- `m_buffer.erase(m_read_index + pos, n)`, which throws where the position is past the end.
unfoldable pub remove : ℕ → ℕ → Buffer → Option Buffer
remove pos n b =
    let at = b.read_index + pos in
    if leb at (length b.buffer)
    then some (record b { buffer = take at b.buffer ++ drop n (drop at b.buffer) })
    else none

unfoldable pub auto_remove : Buffer → Buffer
auto_remove b = record b { buffer = drop b.read_index b.buffer; read_index = 0 }

unfoldable pub skip : ℕ → Buffer → Buffer
skip n b = record b { read_index = b.read_index + n }

-- `ReadInterger`'s memcpy and `ReadBuffer`: both assert that the bytes are there; `none` aborts.
unfoldable pub read_buffer : ℕ → Buffer → Option (Bytes × Buffer)
read_buffer n b = if leb n (readable_bytes b) then some (take n (get_buffer b), skip n b) else none

-- An integer of `n` bytes in network order, as an unsigned number.
unfoldable pub read_integer : ℕ → Buffer → Option (ℕ × Buffer)
read_integer n b = do (v, b') ← read_buffer n b; some (big_endian v, b')

-- What `read` answers: interruptions first, then data (none at the end of the stream) or an error.
pub data Answer : Type 0 where
  interrupted : Answer → Answer
  received : Bytes → Answer
  failed : Answer

-- The value of `GetDataFromFd`: a count, or -1.
pub data Count : Type 0 where
  count : ℕ → Count
  minus_one : Count

module _ (alloc : Alloc) where
  open alloc use {grown, reserved}

  unfoldable pub reserve : ℕ → Buffer → Buffer
  reserve n b = record b { capacity = reserved b.capacity n }

  unfoldable pub append : Bytes → Buffer → Buffer
  append new b = record b {
    buffer = b.buffer ++ new;
    capacity =
        let needed = length b.buffer + length new in
        if leb needed b.capacity then b.capacity else grown b.capacity needed;
  }

  unfoldable pub append_buffer : Buffer → Buffer → Buffer
  unfolding append
  append_buffer other b = append (take (readable_bytes other) (get_buffer other)) b

  unfoldable pub empty : Buffer
  unfolding reserve
  empty = reserve max_size_once_read (record { buffer = []; read_index = 0; capacity = 0 })

  -- The copy constructor.
  unfoldable pub copy : Buffer → Buffer
  unfolding append_buffer
  copy other = append_buffer other (record { buffer = []; read_index = 0; capacity = 0 })

  -- The move constructor: the new buffer, and what it leaves behind.
  unfoldable pub move : Buffer → Buffer × Buffer
  unfolding copy
  move other = (copy other, record { buffer = []; read_index = 0; capacity = 0 })

  -- `read` into the scratch array, again while it is interrupted. At most `n` bytes arrive.
  unfoldable pub receive : ℕ → Answer → Buffer → Count × Buffer
  unfolding append
  receive n (interrupted a) b = receive n a b
  receive n (received xs) b =
      let got = take n xs in (count (length got), if ltb 0 (length got) then append got b else b)
  receive n failed b = (minus_one, b)

  -- `GetDataFromFd`; the flags say that the descriptor or the size is negative.
  unfoldable pub get_data_from_fd : Bool → Bool → ℕ → Answer → Buffer → Count × Buffer
  unfolding receive
  get_data_from_fd bad_fd bad_size max_size answer b =
      let got = receive (min max_size max_size_once_read) answer b in
      if bad_fd || bad_size then (minus_one, b) else got
