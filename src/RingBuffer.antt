-- ===== src/RingBuffer.antt =====
-- The ring buffer of the logging and messaging code, lib/ringbuffer/RingBuffer.hpp, on a target
-- with 32-bit `size_t`.
use infinity_autopilot.Prelude.{
  ℕ, zero, suc, ◌+◌, ◌-◌, ◌%◌, List, [], ◌∷◌, ◌++◌, Option, none, some, ◌>>=◌, Bool, true, false,
  ◌&&◌, ◌||◌, if◌then◌else◌, ltb, leb, ◌==◌,
}
pub mod Queue
pub mod Runs
pub mod Examples

-- `buffer` is null, or an array of `size` elements; places behind them are not read.
pub record RingBuffer (A : Type 0) : Type 0 where
  pub buffer : Option (ℕ → A)
  pub size : ℕ
  pub head : ℕ
  pub tail : ℕ
  pub count : ℕ

-- The value of an unsigned word of 32 bits.
abbrev pub word : ℕ → ℕ
word n = n % 4294967296

-- Subtraction of words.
abbrev pub minus : ℕ → ℕ → ℕ
minus a b = word (a + 4294967296 - b)

-- `none` is undefined behaviour, here a division by zero.
abbrev pub remainder : ℕ → ℕ → Option ℕ
remainder a b = if b == 0 then none else some (a % b)

module _ {A : Type 0} where
  -- An access to the array; undefined at the null pointer and out of bounds.
  abbrev pub load : RingBuffer A → ℕ → Option A
  load r i = do buffer ← r.buffer; if ltb i r.size then some (buffer i) else none

  abbrev pub updated : (ℕ → A) → ℕ → A → ℕ → A
  updated buffer i x j = if j == i then x else buffer j

  abbrev pub store : RingBuffer A → ℕ → A → Option (RingBuffer A)
  store r i x = do
    buffer ← r.buffer
    if ltb i r.size then some (record r { buffer = some (updated buffer i x) }) else none

  unfoldable pub pop : RingBuffer A → Option (RingBuffer A × Option A)
  pop r = if r.count == 0 then some (r, none) else (do
    out ← load r r.tail
    tail ← remainder (word (r.tail + 1)) r.size
    some (record r { tail = tail; count = minus r.count 1 }, some out))

  unfoldable pub push : A → RingBuffer A → Option (RingBuffer A)
  push x r = do
    r' ← store r r.head x
    head ← remainder (word (r.head + 1)) r.size
    if r.count == r.size
        then (do
          tail ← remainder (word (r.tail + 1)) r.size
          some (record r' { head = head; tail = tail }))
        else some (record r' { head = head; count = word (r.count + 1) })

  unfoldable pub get : ℕ → RingBuffer A → Option (Option A)
  get idx r = if ltb idx r.size then (do out ← load r idx; some (some out)) else some none

  -- The elements that `memcpy` reads from the array, from a place on.
  abbrev pub range : (ℕ → A) → ℕ → ℕ → List A
  range buffer i zero = []
  range buffer i (suc n) = buffer i ∷ range buffer (suc i) n

  abbrev pub load_range : RingBuffer A → ℕ → ℕ → Option (List A)
  load_range r i n = do
    buffer ← r.buffer
    if leb (i + n) r.size then some (range buffer i n) else none

  -- The copying that `drain`, `drain_all` and `peek` share: the elements that are written to the
  -- destination.
  unfoldable pub copy_out : RingBuffer A → ℕ → Option (List A)
  copy_out r to_copy =
      let first_part = minus r.size r.tail in
      if leb to_copy first_part then load_range r r.tail to_copy else (do
        first ← load_range r r.tail first_part
        second ← load_range r 0 (minus to_copy first_part)
        some (first ++ second))

  abbrev pub to_copy : ℕ → RingBuffer A → ℕ
  to_copy len r = if ltb len r.count then len else r.count

  unfoldable pub drain : ℕ → RingBuffer A → Option (RingBuffer A × List A)
  drain len r = if r.count == 0 then some (r, []) else (do
    items ← copy_out r (to_copy len r)
    tail ← remainder (word (r.tail + to_copy len r)) r.size
    some (record r { tail = tail; count = minus r.count (to_copy len r) }, items))

  -- With the returned flag.
  unfoldable pub drain_all : ℕ → RingBuffer A → Option (RingBuffer A × List A × Bool)
  drain_all max_len r = if r.count == 0 then some (r, [], true) else (do
    items ← copy_out r (to_copy max_len r)
    tail ← remainder (word (r.tail + to_copy max_len r)) r.size
    some (
      record r { tail = tail; count = minus r.count (to_copy max_len r) },
      items,
      minus r.count (to_copy max_len r) == 0,
    ))

  unfoldable pub peek : ℕ → RingBuffer A → Option (List A)
  peek len r = if r.count == 0 then some [] else copy_out r (to_copy len r)

  abbrev pub check : RingBuffer A → Bool
  check r = elim r.buffer [ none ↦ false | some buffer ↦ ltb 0 r.size ]

  -- `memcpy` into the array.
  abbrev pub written_range : (ℕ → A) → ℕ → (ℕ → A) → ℕ → ℕ → A
  written_range buffer i src n j =
      if ltb j i then buffer j else if ltb j (i + n) then src (j - i) else buffer j

  abbrev pub store_range : RingBuffer A → ℕ → (ℕ → A) → ℕ → Option (RingBuffer A)
  store_range r i src n = do
    buffer ← r.buffer
    if leb (i + n) r.size
        then some (record r { buffer = some (written_range buffer i src n) })
        else none

  -- The room that `push_batch` makes for its elements.
  abbrev pub advanced : ℕ → RingBuffer A → Option (RingBuffer A)
  advanced len r =
      let free_space = minus r.size r.count in
      if ltb free_space len
      then (do
        tail ← remainder (word (r.tail + minus len free_space)) r.size
        some (record r { tail = tail; count = minus r.count (minus len free_space) }))
      else some r

  -- The two copies of `push_batch`.
  abbrev pub copy_in : (ℕ → A) → ℕ → RingBuffer A → Option (RingBuffer A)
  copy_in src len r =
      let first_part = minus r.size r.head in
      if leb len first_part then store_range r r.head src len else (do
        r' ← store_range r r.head src first_part
        store_range r' 0 (λ j. src (first_part + j)) (minus len first_part))

  abbrev pub counted : ℕ → RingBuffer A → Option (RingBuffer A)
  counted len r = do
    head ← remainder (word (r.head + len)) r.size
    some (record r { head = head; count = word (r.count + len) })

  -- `src` is null or an array of at least `len` elements.
  unfoldable pub push_batch : Option (ℕ → A) → ℕ → RingBuffer A → Option (RingBuffer A)
  push_batch none len r = some r
  push_batch (some src) len r =
      if len == 0
      then some r
      else (do r' ← advanced len r; r'' ← copy_in src len r'; counted len r'')

  abbrev pub deallocate : RingBuffer A → RingBuffer A
  deallocate r = elim r.buffer [ none ↦ r | some buffer ↦ record r { buffer = none; size = 0 } ]

  module _ (initial : A) where
    -- `data_type{}` is the element that a new or reset array holds.
    unfoldable pub reset : RingBuffer A → RingBuffer A
    reset r = elim r.buffer [
      | none ↦ r
      | some buffer ↦ record r { buffer = some (λ j. initial); head = 0; tail = 0; count = 0 }
    ]

    -- `available` tells whether `new` finds the memory.
    unfoldable pub allocate : Bool → ℕ → RingBuffer A → RingBuffer A × Bool
    allocate available size r =
        if check r && size == r.size
        then (r, true)
        else if size == 0
        then (r, false)
        else if available
        then (reset (record r { buffer = some (λ j. initial); size = size }), true)
        else (record r { buffer = none }, false)

    unfoldable pub reallocate : Bool → ℕ → RingBuffer A → RingBuffer A × Bool
    reallocate available new_size r = allocate available new_size (deallocate r)

    -- The constructor.
    unfoldable pub construct : Bool → ℕ → RingBuffer A
    construct available size =
        (allocate available size
          (record { buffer = none; size = 0; head = 0; tail = 0; count = 0 })).0

  -- `get_element_count`, `isEmpty` and `isFull`.
  abbrev pub element_count : RingBuffer A → ℕ
  element_count r = r.count

  abbrev pub is_empty : RingBuffer A → Bool
  is_empty r = r.count == 0

  abbrev pub is_full : RingBuffer A → Bool
  is_full r = r.count == r.size
