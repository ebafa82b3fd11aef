-- ===== src/Wkb/Sound.antt =====
-- What every reader keeps to on any bytes: it refuses its input, or it takes a part of the front of
-- it and gives the same result wherever these bytes stand and whatever follows them. A read outside
-- the buffer and a panic are neither.
use mathlib.Core.Path.{ap₂}
use native.Mathlib.Nat.{le-div_iff_mul-le, le_trans}
use geo_repair.Prelude.{
  ℕ, zero, suc, max, ◌+◌, ◌-◌, ◌/◌, ◌≤◌, ◌<◌, ◌≡◌, refl, sym, ap, ◌∙◌, ◌⊎◌, Bool, true, false, List,
  [], ◌∷◌, ◌++◌, append-nil, append_assoc, arith, length, length-append, take, drop,
  take-append-drop, length-take, length-drop, take-append, drop-append, ltb, ltb-false, ltb→lt,
  lt→ltb, ltb→le, Bool-cases, inl, inr, ◌==◌,
}
use geo_repair.Words.{Bytes, word_value, to_order}
use geo_repair.Geo.{Platform}
use geo_repair.Wkb.Types.{WkbError, Result, ok, err, unexpected_eof, invalid_byte_order}
use geo_repair.Wkb.Cursor.{M, pure, fail, lift, ◌>>=◌, peek}
use geo_repair.Wkb.Read.{
  byte_order, read_byte_order, read_u32, check_count, read_bounded_count, repeat,
}
use geo_repair.Wkb.Reads.{cursor}

pub data Takes {ℓ} {A : Type ℓ} (k : ℕ) (m : M A) (unread : Bytes) : Type ℓ where
  takes :
      (a : A) (used rest : Bytes) (pushed : List ℕ)
      → unread ≡ used ++ rest
      → k ≤ length used
      → ((pos : ℕ) (more : Bytes) (extra : List ℕ)
          → m (cursor pos (unread ++ more) extra)
            ≡ ok (a, cursor (pos + length used) (rest ++ more) (extra ++ pushed)))
      → Takes k m unread
  refuses :
      (e : WkbError)
      → ((pos : ℕ) (extra : List ℕ) → m (cursor pos unread extra) ≡ err e)
      → Takes k m unread

abbrev pub Sound {ℓ} : {A : Type ℓ} → ℕ → M A → Type ℓ
Sound k m = (unread : Bytes) → Takes k m unread

module _ {ℓ} {A : Type ℓ} where
  pub Sound-pure : (a : A) → Sound 0 (pure a)
  Sound-pure a unread = takes a [] unread [] refl (omega arith) (λ pos more extra.
      ap₂ (λ n e. ok (a, cursor n (unread ++ more) e)) (omega arith) (sym (append-nil extra)))

  pub Sound-fail : (e : WkbError) → Sound 0 (fail {A = A} e)
  Sound-fail e unread = refuses e (λ pos extra. refl)

  pub Sound-le : (m : M A) (k k' : ℕ) → k' ≤ k → Sound k m → Sound k' m
  Sound-le m k k' h s unread = elim (s unread) [
    | takes a used rest pushed e lo run ↦ takes a used rest pushed e (omega arith) run
    | refuses e run ↦ refuses e run
  ]

  -- the run of `takes` with nothing behind the input
  pub takes_here :
      (m : M A) (a : A) (unread used rest : Bytes) (pushed : List ℕ)
      → ((pos : ℕ) (more : Bytes) (extra : List ℕ)
          → m (cursor pos (unread ++ more) extra)
            ≡ ok (a, cursor (pos + length used) (rest ++ more) (extra ++ pushed)))
      → (pos : ℕ) (extra : List ℕ)
      → m (cursor pos unread extra) ≡ ok (a, cursor (pos + length used) rest (extra ++ pushed))
  takes_here m a unread used rest pushed run pos extra =
      ap (λ b. m (cursor pos b extra)) (sym (append-nil unread))
      ∙ run pos [] extra
      ∙ ap (λ b. ok (a, cursor (pos + length used) b (extra ++ pushed))) (append-nil rest)

module _ {ℓ κ} {A : Type ℓ} {B : Type κ} (m : M A) (f : A → M B) (k k' : ℕ) where
  Takes-bind :
      (a : A) (unread used rest : Bytes) (pushed : List ℕ)
      → unread ≡ used ++ rest
      → k ≤ length used
      → ((pos : ℕ) (more : Bytes) (extra : List ℕ)
          → m (cursor pos (unread ++ more) extra)
            ≡ ok (a, cursor (pos + length used) (rest ++ more) (extra ++ pushed)))
      → Takes k' (f a) rest
      → Takes (k + k') (m >>= f) unread
  Takes-bind a unread used rest pushed e lo run (takes b used' rest' pushed' e' lo' run') =
      takes b (used ++ used') rest' (pushed ++ pushed')
        (e ∙ ap (λ t. used ++ t) e' ∙ sym (append_assoc used used' rest'))
        (omega (arith, length-append used used'))
        (λ pos more extra. rw (run pos more extra) (
          run' (pos + length used) more (extra ++ pushed)
          ∙ ap₂ (λ n x. ok (b, cursor n (rest' ++ more) x))
              (omega (arith, length-append used used')) (append_assoc extra pushed pushed')))
  Takes-bind a unread used rest pushed e lo run (refuses x run') = refuses x (λ pos extra.
      rw (takes_here m a unread used rest pushed run pos extra)
        (run' (pos + length used) (extra ++ pushed)))

  pub Sound-bind : Sound k m → ((a : A) → Sound k' (f a)) → Sound (k + k') (m >>= f)
  Sound-bind s t unread = elim (s unread) [
    | takes a used rest pushed e lo run ↦ Takes-bind a unread used rest pushed e lo run (t a rest)
    | refuses e run ↦ refuses e (λ pos extra. rw (run pos extra))
  ]

pub Sound-lift {ℓ} :
    {A : Type ℓ} (r : Result A)
    → ((a : A) × (r ≡ ok a)) ⊎ ((e : WkbError) × (r ≡ err e))
    → Sound 0 (lift r)
Sound-lift r (inl (a, h)) unread = rw h (Sound-pure a unread)
Sound-lift r (inr (e, h)) unread = rw h (refuses e (λ pos extra. refl))

pub Sound-repeat {ℓ} : {A : Type ℓ} (m : M A) (n : ℕ) → Sound 0 m → Sound 0 (repeat n m)
unfolding repeat
Sound-repeat m zero s = Sound-pure []
Sound-repeat m (suc n) s =
    Sound-bind m (λ a. repeat n m >>= λ xs. pure (a ∷ xs)) 0 0 s
      (λ a.
        Sound-bind (repeat n m) (λ xs. pure (a ∷ xs)) 0 0 (Sound-repeat m n s)
          (λ xs. Sound-pure (a ∷ xs)))

pub read_byte_order-Sound : Sound 1 read_byte_order
unfolding read_byte_order byte_order
read_byte_order-Sound [] = refuses unexpected_eof (λ pos extra. refl)
read_byte_order-Sound (b ∷ rest) = elim (Bool-cases (b == 0)) [
  | inl zero' ↦
      takes false (b ∷ []) rest [] refl (omega arith)
        (λ pos more extra. rw (zero', append-nil extra))
  | inr other ↦ elim (Bool-cases (b == 1)) [
    | inl one ↦
        takes true (b ∷ []) rest [] refl (omega arith)
          (λ pos more extra. rw (other, one, append-nil extra))
    | inr neither ↦ refuses (invalid_byte_order b) (λ pos extra. rw (other, neither))
  ]
]

pub peek-eq :
    (k n : ℕ) (bytes : Bytes) → k + n ≤ length bytes → peek k n bytes ≡ ok (take n (drop k bytes))
unfolding peek
peek-eq k n bytes h = rw (ltb-false (length bytes) (k + n) h)

-- bytes behind the input do not change a read inside it
pub peek-more :
    (k n : ℕ) (bytes more : Bytes)
    → k + n ≤ length bytes
    → peek k n (bytes ++ more) ≡ peek k n bytes
peek-more k n bytes more h =
    peek-eq k n (bytes ++ more) (omega (arith, length-append bytes more))
    ∙ ap (λ b. ok (take n b)) (drop-append k bytes more (omega arith))
    ∙ ap ok (take-append n (drop k bytes) more (omega (arith, length-drop k bytes)))
    ∙ sym (peek-eq k n bytes h)

div_mono : (n a b d : ℕ) → 0 < d → a ≤ b → n ≤ a / d → n ≤ b / d
div_mono n a b d pos h k = (le-div_iff_mul-le pos).1 (le_trans ((le-div_iff_mul-le pos).0 k) h)

-- what is left of a buffer behind a position
remaining : (pos total : ℕ) → pos + total - pos ≡ total
remaining pos total = omega arith

module _ (p : Platform) where
  pub read_u32-Sound : (le : Bool) → Sound 4 (read_u32 p le)
  unfolding read_u32
  read_u32-Sound le unread = elim (Bool-cases (ltb (length unread) 4)) [
    | inl short ↦ refuses unexpected_eof (λ pos extra.
        rw (lt→ltb (pos + length unread) (pos + 4) (omega (arith, ltb→lt (length unread) 4 short))))
    | inr long ↦
        let enough : 4 ≤ length unread = ltb→le (length unread) 4 long in
        let used = take 4 unread in
        let used_len : length used ≡ 4 = length-take 4 unread enough in
        takes (to_order p.target_le le 4 (word_value p.target_le used)) used (drop 4 unread) []
          (sym (take-append-drop 4 unread)) (omega arith)
          (λ pos more extra.
            rw
              (ltb-false (pos + length (unread ++ more)) (pos + 4)
                (omega (arith, length-append unread more)))
              (rw (
                peek-more 0 4 unread more enough,
                peek-eq 0 4 unread enough,
                drop-append 4 unread more enough,
                append-nil extra,
                used_len,
              )))
  ]

  check_count-Sound : (min_bytes n : ℕ) → Sound 0 (check_count p min_bytes n)
  unfolding check_count
  check_count-Sound min_bytes n unread =
      let d = max min_bytes 1 in
      elim (Bool-cases (ltb (length unread / d) n)) [
        | inl many ↦ refuses unexpected_eof (λ pos extra. rw (remaining pos (length unread), many))
        | inr fits ↦ takes n [] unread [] refl (omega arith) (λ pos more extra.
            rw
              (
                remaining pos (length (unread ++ more)),
                ltb-false (length (unread ++ more) / d) n (
                    div_mono n (length unread) (length (unread ++ more)) d (omega arith)
                      (omega (arith, length-append unread more))
                      (ltb→le (length unread / d) n fits)),
              )
              (ap₂ (λ at e. ok (n, cursor at (unread ++ more) e)) (omega arith)
                (sym (append-nil extra))))
      ]

  pub read_bounded_count-Sound :
      (le : Bool) (min_bytes : ℕ) → Sound 4 (read_bounded_count p le min_bytes)
  unfolding read_bounded_count
  read_bounded_count-Sound le min_bytes =
      Sound-bind (read_u32 p le) (check_count p min_bytes) 4 0 (read_u32-Sound le)
        (check_count-Sound min_bytes)
