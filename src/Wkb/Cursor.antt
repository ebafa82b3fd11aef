-- ===== src/Wkb/Cursor.antt =====
-- The reader's state and its monad. `buf` and `*pos` are kept as the position and the bytes
-- `buf[*pos..]` that are still to be read; `extra_coords` is the vector that the readers push to.
use geo_repair.Prelude.{ℕ, ◌+◌, List, length, drop, ltb, take, if◌then◌else◌}
use geo_repair.Words.{Bytes}
use geo_repair.Wkb.Types.{WkbError, Result, ok, err, fault, bind}

pub record Cursor : Type 0 where
  pub pos : ℕ
  pub unread : Bytes
  pub extra_coords : List ℕ

-- `buf.len()`
abbrev pub buf_len : Cursor → ℕ
buf_len c = c.pos + length c.unread

-- `*pos += n`
abbrev pub advance : ℕ → Cursor → Cursor
advance n c = record c { pos = c.pos + n; unread = drop n c.unread }

-- The start of a buffer.
abbrev pub start : Bytes → Cursor
start buf = record { pos = 0; unread = buf; extra_coords = List.[] }

abbrev pub M {ℓ} : Type ℓ → Type ℓ
M A = Cursor → Result (A × Cursor)

abbrev pub pure {ℓ} : {A : Type ℓ} → A → M A
pure a c = ok (a, c)

abbrev pub fail {ℓ} : {A : Type ℓ} → WkbError → M A
fail e c = err e

abbrev pub lift {ℓ} : {A : Type ℓ} → Result A → M A
lift r c = bind r λ a. ok (a, c)

module _ {ℓ κ} {A : Type ℓ} {B : Type κ} where
  infixl 5 ◌>>=◌ ◌>>◌
  abbrev pub ◌>>=◌ : M A → (A → M B) → M B
  p >>= f = λ c. bind (p c) λ (a, c'). f a c'

  abbrev pub ◌>>◌ : M A → M B → M B
  p >> q = p >>= λ _. q

-- `len` bytes at offset `k`; outside the buffer this is a fault.
unfoldable pub peek : ℕ → ℕ → Bytes → Result Bytes
peek k len bytes = if ltb (length bytes) (k + len) then fault else ok (take len (drop k bytes))
