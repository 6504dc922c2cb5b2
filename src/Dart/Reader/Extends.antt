-- ===== src/Dart/Reader/Extends.antt =====
-- The reader of lib/src/ffi/codec.dart on any bytes: where a read ends, and what it does when more
-- bytes stand behind the end of the view.
use packagekit_dart.Base.{
  ℕ, zero, suc, ◌+◌, ◌≤◌, ◌<◌, ◌≡◌, inl, inr, refl, sym, ap, subst, ◌∙◌, signed64, not, List, [],
  ◌∷◌, ◌++◌, arith, length, length-append, take, drop, ◌==◌, take-drop-append, ≤-or-<, of_le_bytes,
}
use mathlib.Core.Path.{fun_ext}
use packagekit_dart.Dart.Core.{Result, value, throws, range_error}
use packagekit_dart.Dart.Utf8.{utf8_decode}
use packagekit_dart.Dart.Reader.{
  Reader, R, then_read, ◌>>=◌, ◌>>◌, pure, with_reader, check_bounds, get_uint, get_at, read_uint,
  read_uint32, read_uint64, read_bool, utf8_or_throw, read_view, read_string, read_each,
  read_string_list,
}

-- The reader of a view that shows `window` of a buffer that goes on with `tail`.
abbrev pub over : List ℕ → List ℕ → ℕ → Reader
over window tail o = record { bytes = window ++ tail; len = length window; offset = o }

-- A read that succeeds stops at some `next` inside the view, and does the same in a longer view.
abbrev pub Extends : {A : Type 0} → R A → Type 0
Extends {A} m =
    (window tail more tail' : List ℕ) (o : ℕ) (a : A) (r : Reader)
    → o ≤ length window
    → m (over window tail o) ≡ value (a, r)
    → (next : ℕ) × (o ≤ next)
      × (next ≤ length window)
      × (r ≡ over window tail next)
      × (m (over (window ++ more) tail' o) ≡ value (a, over (window ++ more) tail' next))

value-of :
    {A B : Type 0} (x : Result (A × Reader)) (f : A → R B) {b : B} {r : Reader}
    → then_read f x ≡ value (b, r)
    → (a : A) × (r' : Reader) × (x ≡ value (a, r')) × (f a r' ≡ value (b, r))
value-of (value (a, r')) f h = (a, r', refl, h)
value-of (throws e) f h = cc

pub >>=-Extends :
    {A B : Type 0} (m : R A) (f : A → R B)
    → Extends m
    → ((a : A) → Extends (f a))
    → Extends (m >>= f)
>>=-Extends m f hm hf window tail more tail' o b r le e =
    let (a, r', e1, e2) = value-of (m (over window tail o)) f e in
    let (mid, le1, le2, same, e3) = hm window tail more tail' o a r' le e1 in
    let (next, le3, le4, same', e4) =
      hf a window tail more tail' mid b r le2 (ap (f a) (sym same) ∙ e2) in
    (next, omega arith, le4, same', rw e3 e4)

pub pure-Extends : {A : Type 0} (a : A) → Extends (pure a)
pure-Extends a window tail more tail' o b r le e = (o, omega arith, le, cc, cc)

pub with_reader-Extends : {A : Type 0} (c : Result A) → Extends (with_reader c)
with_reader-Extends (value a) window tail more tail' o b r le e = (o, omega arith, le, cc, cc)
with_reader-Extends (throws x) window tail more tail' o b r le e = cc

-- The bytes of a checked read, in the view and in the longer one.
window_bytes :
    (window tail more tail' : List ℕ) (o n : ℕ)
    → o + n ≤ length window
    → take n (drop o ((window ++ more) ++ tail')) ≡ take n (drop o (window ++ tail))
window_bytes window tail more tail' o n h =
    take-drop-append o n (window ++ more) tail' (omega (arith, length-append window more))
    ∙ take-drop-append o n window more h
    ∙ sym (take-drop-append o n window tail h)

module _ (window tail : List ℕ) (o n : ℕ) where
  check_inside :
      o + n ≤ length window → check_bounds n (over window tail o) ≡ value (tt, over window tail o)
  unfolding check_bounds
  check_inside h = ground arith

  check_outside : length window < o + n → check_bounds n (over window tail o) ≡ throws range_error
  unfolding check_bounds
  check_outside h = ground arith

  view_inside :
      o + n ≤ length window
      → read_view n (over window tail o)
        ≡ value (take n (drop o (window ++ tail)), over window tail (o + n))
  unfolding read_view
  view_inside h = ground (arith, length-append window tail)

  get_inside :
      o + n ≤ length window
      → get_at n (over window tail o)
        ≡ value (of_le_bytes (take n (drop o (window ++ tail))), over window tail (o + n))
  unfolding get_at get_uint
  get_inside h = ground (arith, length-append window tail)

-- A bounds check and a read of as many bytes, of which `f` makes the result.
checked-Extends :
    {A : Type 0} (n : ℕ) (m : R A) (f : List ℕ → A)
    → ((window tail : List ℕ) (o : ℕ)
        → o + n ≤ length window
        → m (over window tail o)
          ≡ value (f (take n (drop o (window ++ tail))), over window tail (o + n)))
    → Extends (check_bounds n >> m)
checked-Extends n m f inside window tail more tail' o a r le e =
    elim (≤-or-< (o + n) (length window)) [
      | inl h ↦
          let done = sym (inside window tail o h) ∙ (rw (check_inside window tail o n h) at e) in
          let h' : o + n ≤ length (window ++ more) = omega (arith, length-append window more) in
          (
            o + n,
            omega arith,
            h,
            cc done,
            rw (check_inside (window ++ more) tail' o n h') (
                inside (window ++ more) tail' o h'
                ∙ rw (window_bytes window tail more tail' o n h) (cc done)),
          )
      | inr h ↦ cc (rw (check_outside window tail o n h) at e)
    ]

read_uint-Extends : (n : ℕ) → Extends (read_uint n)
unfolding read_uint
read_uint-Extends n =
    checked-Extends n (get_at n) of_le_bytes (λ window tail o h. get_inside window tail o n h)

pub read_uint32-Extends : Extends read_uint32
unfolding read_uint32
read_uint32-Extends = read_uint-Extends 4

pub read_uint64-Extends : Extends read_uint64
unfolding read_uint64
read_uint64-Extends =
    >>=-Extends (read_uint 8) (λ v. pure (signed64 v)) (read_uint-Extends 8)
      (λ v. pure-Extends (signed64 v))

pub read_bool-Extends : Extends read_bool
unfolding read_bool
read_bool-Extends =
    >>=-Extends (read_uint 1) (λ v. pure (not (v == 0))) (read_uint-Extends 1)
      (λ v. pure-Extends (not (v == 0)))

checked_view-Extends : (n : ℕ) → Extends (check_bounds n >> read_view n)
checked_view-Extends n =
    checked-Extends n (read_view n) (λ bs. bs) (λ window tail o h. view_inside window tail o n h)

then_read_assoc :
    {A B C : Type 0} (x : Result (A × Reader)) (f : A → R B) (g : B → R C)
    → then_read g (then_read f x) ≡ then_read (λ a. f a >>= g) x
then_read_assoc (value (a, r)) f g = refl
then_read_assoc (throws e) f g = refl

>>=_assoc :
    {A B C : Type 0} (m : R A) (f : A → R B) (g : B → R C)
    → (m >>= f) >>= g ≡ m >>= (λ a. f a >>= g)
>>=_assoc m f g = fun_ext (λ r. then_read_assoc (m r) f g)

string_body-Extends :
    (n : ℕ)
    → Extends (
        check_bounds n
        >> (read_view n >>= λ bytes. with_reader (utf8_or_throw (utf8_decode bytes))))
string_body-Extends n =
    subst Extends
      (>>=_assoc (check_bounds n) (λ _. read_view n)
        (λ bytes. with_reader (utf8_or_throw (utf8_decode bytes))))
      (>>=-Extends (check_bounds n >> read_view n)
        (λ bytes. with_reader (utf8_or_throw (utf8_decode bytes))) (checked_view-Extends n)
        (λ bytes. with_reader-Extends (utf8_or_throw (utf8_decode bytes))))

pub read_string-Extends : Extends read_string
unfolding read_string
read_string-Extends =
    >>=-Extends read_uint32
      (λ n.
        check_bounds n
        >> (read_view n >>= λ bytes. with_reader (utf8_or_throw (utf8_decode bytes))))
      read_uint32-Extends string_body-Extends

read_each-Extends : (count : ℕ) → Extends (read_each count)
unfolding read_each
read_each-Extends zero = pure-Extends []
read_each-Extends (suc count) =
    >>=-Extends read_string (λ s. read_each count >>= λ rest. pure (s ∷ rest)) read_string-Extends
      (λ s.
        >>=-Extends (read_each count) (λ rest. pure (s ∷ rest)) (read_each-Extends count)
          (λ rest. pure-Extends (s ∷ rest)))

pub read_string_list-Extends : Extends read_string_list
unfolding read_string_list
read_string_list-Extends = >>=-Extends read_uint32 read_each read_uint32-Extends read_each-Extends
