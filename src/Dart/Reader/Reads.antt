-- ===== src/Dart/Reader/Reads.antt =====
-- The reader on bytes that hold an encoded field.
use packagekit_dart.Base.{
  ℕ, ◌+◌, ◌%◌, ◌^◌, ◌<◌, ◌≡◌, refl, sym, ap, subst, ◌∙◌, signed64, Bool, true, false, not, List, [],
  ◌∷◌, ◌++◌, append_assoc, append-nil, arith, length, length-append, take, drop, leb, ltb, ◌==◌,
  All, if◌then◌else◌, take-drop-append, At, At-advance, At-take, At-bound, le_bytes, of_le_bytes,
  of_le_bytes-u32, of_le_bytes-u64,
}
use packagekit_dart.Dart.Core.{Result, value, throws, DartString}
use packagekit_dart.Dart.Core.{◌>>=◌ as ◌>>>=◌}
use packagekit_dart.Dart.Utf8.{utf8_decode}
use packagekit_dart.Glaze.{strings}
use packagekit_dart.Glaze.Encode.{string_bytes, each_bytes, field_bytes}
use packagekit_dart.Glaze.RoundTrip.{IsU32, FitsString}
use packagekit_dart.Dart.Reader.{
  Reader, R, ◌>>=◌, ◌>>◌, pure, with_reader, check_bounds, get_uint, get_at, read_uint, read_uint32,
  read_uint64, read_bool, utf8_or_throw, read_view, read_string, read_each, read_string_list,
}

-- The cursor stands before `rest`, which runs to the end of the view; the buffer may go on.
pub record Stands (r : Reader) (rest : List ℕ) : Type 0 where
  pub window : List ℕ
  pub tail : List ℕ
  pub bytes : r.bytes ≡ window ++ tail
  pub len : r.len ≡ length window
  pub at : At window r.offset rest

abbrev pub advance : Reader → ℕ → Reader
advance r n = record r { offset = r.offset + n }

Stands-advance :
    (r : Reader) (front rest : List ℕ)
    → Stands r (front ++ rest)
    → Stands (advance r (length front)) rest
Stands-advance r front rest s = record {
  window = s.window;
  tail = s.tail;
  bytes = s.bytes;
  len = s.len;
  at = At-advance s.window r.offset front rest s.at;
}

-- A result with the reader behind `n` bytes.
abbrev pub after_bytes : {A : Type 0} → Reader → ℕ → Result A → Result (A × Reader)
after_bytes r n (value a) = value (a, advance r n)
after_bytes r n (throws e) = throws e

-- Where `bytes` come next, `m` takes them and no more, and its result is `c`.
abbrev pub Reads : {A : Type 0} → R A → List ℕ → Result A → Type 0
Reads m bytes c =
    (r : Reader) (rest : List ℕ) → Stands r (bytes ++ rest) → m r ≡ after_bytes r (length bytes) c

module _ (r : Reader) (front rest : List ℕ) (s : Stands r (front ++ rest)) where
  in_view : ltb r.len (r.offset + length front) ≡ false
  in_view = ground (arith, s.len, At-bound s.window r.offset front rest s.at)

  in_buffer : leb (r.offset + length front) (length r.bytes) ≡ true
  in_buffer = ground (
    arith,
    ap length s.bytes,
    length-append s.window s.tail,
    At-bound s.window r.offset front rest s.at,
  )

  next_bytes : take (length front) (drop r.offset r.bytes) ≡ front
  next_bytes = rw s.bytes (
      take-drop-append r.offset (length front) s.window s.tail
        (At-bound s.window r.offset front rest s.at)
      ∙ At-take s.window r.offset front rest s.at)

module _ (bytes rest : List ℕ) (r : Reader) (s : Stands r (bytes ++ rest)) where
  check_bounds_lem : check_bounds (length bytes) r ≡ value (tt, r)
  unfolding check_bounds
  check_bounds_lem = rw (in_view r bytes rest s)

  get_at_lem :
      (v : ℕ)
      → of_le_bytes bytes ≡ v
      → get_at (length bytes) r ≡ value (v, advance r (length bytes))
  unfolding get_at get_uint
  get_at_lem v e = rw (in_buffer r bytes rest s, next_bytes r bytes rest s, e, get_at, get_uint)

  read_view_lem : read_view (length bytes) r ≡ value (bytes, advance r (length bytes))
  unfolding read_view
  read_view_lem = rw (in_buffer r bytes rest s, next_bytes r bytes rest s)

read_uint_lem :
    (bytes : List ℕ) (v : ℕ)
    → of_le_bytes bytes ≡ v
    → Reads (read_uint (length bytes)) bytes (value v)
unfolding read_uint
read_uint_lem bytes v e r rest s =
    rw (check_bounds_lem bytes rest r s) (get_at_lem bytes rest r s v e)

after_bytes-advance :
    {A : Type 0} (r : Reader) (m n k : ℕ) (c : Result A)
    → m + n ≡ k
    → after_bytes (advance r m) n c ≡ after_bytes r k c
after_bytes-advance r m n k (value a) e =
    ap (λ o. value (a, record r { offset = o })) (omega (arith, e))
after_bytes-advance r m n k (throws x) e = refl

-- One read after another, where the first gives `a`.
pub >>=-Reads_value :
    {A B : Type 0} (m : R A) (f : A → R B) (front back : List ℕ) (a : A) (c : Result B)
    → Reads m front (value a)
    → Reads (f a) back c
    → Reads (m >>= f) (front ++ back) c
>>=-Reads_value m f front back a c hm hf r rest s =
    let s' = subst (Stands r) (append_assoc front back rest) s in
    rw (hm r (back ++ rest) s') (
      hf (advance r (length front)) rest (Stands-advance r front (back ++ rest) s')
      ∙ after_bytes-advance r (length front) (length back) (length (front ++ back)) c
          (sym (length-append front back)))

-- One read after another.
pub >>=-Reads :
    {A B : Type 0} (m : R A) (f : A → R B) (front back : List ℕ) (c : Result A) (d : A → Result B)
    → Reads m front c
    → ((a : A) → Reads (f a) back (d a))
    → Reads (m >>= f) (front ++ back) (c >>>= d)
>>=-Reads m f front back (value a) d hm hf r rest s =
    >>=-Reads_value m f front back a (d a) hm (hf a) r rest s
>>=-Reads m f front back (throws e) d hm hf r rest s =
    rw (hm r (back ++ rest) (subst (Stands r) (append_assoc front back rest) s))

pub with_reader-Reads : {A : Type 0} (c : Result A) → Reads (with_reader c) [] c
with_reader-Reads (value a) r rest s = ap (λ o. value (a, record r { offset = o })) (omega arith)
with_reader-Reads (throws e) r rest s = refl

pub pure-Reads : {A : Type 0} (a : A) → Reads (pure a) [] (value a)
pure-Reads a = with_reader-Reads (value a)

pub map-Reads :
    {A B : Type 0} (m : R A) (f : A → B) (bytes : List ℕ) (c : Result A)
    → Reads m bytes c
    → Reads (m >>= λ a. pure (f a)) bytes (c >>>= λ a. value (f a))
map-Reads m f bytes c h =
    subst (λ bs. Reads (m >>= λ a. pure (f a)) bs (c >>>= λ a. value (f a))) (append-nil bytes)
      (>>=-Reads m (λ a. pure (f a)) bytes [] c (λ a. value (f a)) h (λ a. pure-Reads (f a)))

module _ (v : ℕ) where
  pub read_uint32_lem : IsU32 v → Reads read_uint32 (le_bytes 4 v) (value v)
  unfolding read_uint32
  read_uint32_lem h = read_uint_lem (le_bytes 4 v) v (of_le_bytes-u32 v h)

  pub read_uint64_lem : v < 2 ^ 64 → Reads read_uint64 (le_bytes 8 v) (value (signed64 v))
  unfolding read_uint64
  read_uint64_lem h =
      >>=-Reads (read_uint 8) (λ n. pure (signed64 n)) (le_bytes 8 v) [] (value v)
        (λ n. value (signed64 n)) (read_uint_lem (le_bytes 8 v) v (of_le_bytes-u64 v h))
        (λ n. pure-Reads (signed64 n))

bool_bytes : (n : ℕ) → Reads read_bool (n ∷ []) (value (not (n == 0)))
unfolding read_bool
bool_bytes n =
    >>=-Reads (read_uint 1) (λ n. pure (not (n == 0))) (n ∷ []) [] (value n)
      (λ n. value (not (n == 0))) (read_uint_lem (n ∷ []) n (omega arith))
      (λ n. pure-Reads (not (n == 0)))

pub read_bool_lem : (b : Bool) → Reads read_bool ((if b then 1 else 0) ∷ []) (value b)
read_bool_lem true = bool_bytes 1
read_bool_lem false = bool_bytes 0

-- A String from the bytes of a std::string.
unfoldable pub string_of : List ℕ → Result DartString
unfolding utf8_or_throw
string_of s = utf8_or_throw (utf8_decode s)

u32_length : (n : ℕ) → IsU32 n → n % 2 ^ 32 ≡ n
u32_length n h = omega arith

with_reader-advance :
    {A : Type 0} (r : Reader) (n : ℕ) (c : Result A)
    → with_reader c (advance r n) ≡ after_bytes r n c
with_reader-advance r n (value a) = refl
with_reader-advance r n (throws e) = refl

string_body :
    (s : List ℕ)
    → Reads
        (check_bounds (length s)
          >> (read_view (length s) >>= λ bytes. with_reader (utf8_or_throw (utf8_decode bytes))))
        s
        (string_of s)
unfolding string_of
string_body s r rest st =
    rw (check_bounds_lem s rest r st, read_view_lem s rest r st)
      (with_reader-advance r (length s) (utf8_or_throw (utf8_decode s)))

pub read_string_lem : (s : List ℕ) → FitsString s → Reads read_string (string_bytes s) (string_of s)
unfolding read_string
read_string_lem s h =
    >>=-Reads_value read_uint32
      (λ n.
        check_bounds n
        >> (read_view n >>= λ bytes. with_reader (utf8_or_throw (utf8_decode bytes))))
      (le_bytes 4 (length s % 2 ^ 32)) s (length s) (string_of s)
      (rw (u32_length (length s) h) (read_uint32_lem (length s) h)) (string_body s)

unfoldable pub strings_of : List (List ℕ) → Result (List DartString)
strings_of [] = value []
strings_of (s ∷ ss) = string_of s >>>= λ a. strings_of ss >>>= λ more. value (a ∷ more)

read_each_lem :
    (ss : List (List ℕ))
    → All FitsString ss
    → Reads (read_each (length ss)) (each_bytes ss) (strings_of ss)
unfolding read_each strings_of
read_each_lem [] h = pure-Reads []
read_each_lem (s ∷ ss) h =
    >>=-Reads read_string (λ a. read_each (length ss) >>= λ more. pure (a ∷ more)) (string_bytes s)
      (each_bytes ss) (string_of s) (λ a. strings_of ss >>>= λ more. value (a ∷ more))
      (read_string_lem s h.0)
      (λ a.
        map-Reads (read_each (length ss)) (λ more. a ∷ more) (each_bytes ss) (strings_of ss)
          (read_each_lem ss h.1))

pub read_string_list_lem :
    (ss : List (List ℕ))
    → IsU32 (length ss) × All FitsString ss
    → Reads read_string_list (field_bytes strings ss) (strings_of ss)
unfolding read_string_list
read_string_list_lem ss h =
    >>=-Reads_value read_uint32 read_each (le_bytes 4 (length ss % 2 ^ 32)) (each_bytes ss)
      (length ss) (strings_of ss)
      (rw (u32_length (length ss) h.0) (read_uint32_lem (length ss) h.0)) (read_each_lem ss h.1)
