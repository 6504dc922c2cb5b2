-- ===== src/Glaze/Prefix.antt =====
-- The decoder on any buffer: where it stops, what it ignores, and cut-off input.
use packagekit_dart.Base.{
  ℕ, zero, suc, ◌+◌, ◌≤◌, ◌≡◌, refl, Option, none, some, List, [], ◌∷◌, ◌++◌, append-nil, arith,
  inl, inr, length, length-append, of_le_bytes, not, ◌==◌, Option-cases, take-drop-append,
}
use packagekit_dart.Glaze.{
  ◌>>=◌, Kind, u8, boolean, u32, u64, string, strings, FieldDescriptor, read_bytes, decode_uint,
  decode_string, decode_each, decode_strings, decode_bool, decode_field, decode_impl, decode,
  encode,
}
use packagekit_dart.Glaze.RoundTrip.{FitsFields, copy_fields, decode-encode}

pub >>=-eq-some {ℓ κ} :
    {A : Type ℓ} {B : Type κ} (m : Option A) (f : A → Option B) {b : B}
    → (m >>= f) ≡ some b
    → (a : A) × (m ≡ some a) × (f a ≡ some b)
>>=-eq-some none f h = cc
>>=-eq-some (some a) f h = (a, refl, h)

-- A read from `o` that succeeds stops at `next`, inside the buffer, and gives the same answer on
-- every longer buffer.
abbrev pub Stops {ℓ} : {A : Type ℓ} → (List ℕ → ℕ → Option (A × ℕ)) → Type ℓ
Stops {A} read =
    (buf more : List ℕ) (o next : ℕ) (a : A)
    → o ≤ length buf
    → read buf o ≡ some (a, next)
    → (o ≤ next) × (next ≤ length buf) × (read (buf ++ more) o ≡ some (a, next))

read_bytes-Stops : (n : ℕ) → Stops (λ buf o. read_bytes buf o n)
unfolding read_bytes
read_bytes-Stops n buf more o next a h e =
    ground (arith, length-append buf more, take-drop-append o n buf more)

pure-Stops {ℓ} : {A : Type ℓ} (a : A) → Stops (λ buf o. some (a, o))
pure-Stops a buf more o next b h e = ground arith

>>=-Stops {ℓ κ} :
    {A : Type ℓ} {B : Type κ} (read : List ℕ → ℕ → Option (A × ℕ))
    (then_read : A → List ℕ → ℕ → Option (B × ℕ))
    → Stops read
    → ((a : A) → Stops (then_read a))
    → Stops (λ buf o. read buf o >>= λ p. then_read p.0 buf p.1)
>>=-Stops read then_read hr ht buf more o next b h e =
    let ((a, mid), e1, e2) = >>=-eq-some (read buf o) _ e in
    let (le1, le2, e3) = hr buf more o mid a h e1 in
    let (le3, le4, e4) = ht a buf more mid next b le2 e2 in (omega arith, le4, rw e3 e4)

decode_uint-Stops : (n : ℕ) → Stops (decode_uint n)
unfolding decode_uint
decode_uint-Stops n =
    >>=-Stops (λ buf o. read_bytes buf o n) (λ bytes buf o. some (of_le_bytes bytes, o))
      (read_bytes-Stops n) (λ bytes. pure-Stops (of_le_bytes bytes))

decode_string-Stops : Stops decode_string
unfolding decode_string
decode_string-Stops =
    >>=-Stops (decode_uint 4) (λ len buf o. read_bytes buf o len) (decode_uint-Stops 4)
      read_bytes-Stops

decode_each-Stops : (count : ℕ) → Stops (decode_each count)
unfolding decode_each
decode_each-Stops zero = pure-Stops []
decode_each-Stops (suc count) =
    >>=-Stops decode_string (λ s buf o. decode_each count buf o >>= λ p. some (s ∷ p.0, p.1))
      decode_string-Stops
      (λ s.
        >>=-Stops (decode_each count) (λ rest buf o. some (s ∷ rest, o)) (decode_each-Stops count)
          (λ rest. pure-Stops (s ∷ rest)))

decode_field-Stops : (k : Kind) → Stops (decode_field k)
unfolding decode_field
decode_field-Stops u8 = decode_uint-Stops 1
decode_field-Stops boolean =
    unfold decode_bool in
    >>=-Stops (decode_uint 1) (λ byte buf o. some (not (byte == 0), o)) (decode_uint-Stops 1)
      (λ byte. pure-Stops (not (byte == 0)))
decode_field-Stops u32 = decode_uint-Stops 4
decode_field-Stops u64 = decode_uint-Stops 8
decode_field-Stops string = decode_string-Stops
decode_field-Stops strings =
    unfold decode_strings in
    >>=-Stops (decode_uint 4) decode_each (decode_uint-Stops 4) decode_each-Stops

module _ {T : Type 0} where
  decode_impl-Stops :
      (fields : List (FieldDescriptor T)) (obj : T) → Stops (λ buf o. decode_impl buf o obj fields)
  unfolding decode_impl
  decode_impl-Stops [] obj = pure-Stops obj
  decode_impl-Stops (f ∷ fields) obj =
      >>=-Stops (decode_field f.kind) (λ v buf o. decode_impl buf o (f.set obj v) fields)
        (decode_field-Stops f.kind) (λ v. decode_impl-Stops fields (f.set obj v))

  -- A decode that succeeds stops inside the buffer, and bytes added behind the buffer change
  -- nothing.
  pub decode-Stops :
      (fields : List (FieldDescriptor T)) (obj : T) → Stops (λ buf o. decode fields buf o obj)
  unfolding decode
  decode-Stops fields obj = decode_impl-Stops fields obj

  -- An encoding that is cut off anywhere makes the decoder read past the end.
  pub decode_truncated :
      (fields : List (FieldDescriptor T)) (obj target : T) (front back : List ℕ) (x : ℕ)
      → FitsFields fields obj
      → encode fields obj ≡ front ++ (x ∷ back)
      → decode fields front 0 target ≡ none
  decode_truncated fields obj target front back x h e =
      elim (Option-cases (decode fields front 0 target)) [
        | inl failed ↦ failed
        | inr ((r, next), ok) ↦
            let (_, in_front, longer) =
              decode-Stops fields target front (x ∷ back) 0 next r (omega arith) ok in
            let whole : decode fields (front ++ (x ∷ back)) 0 target
                ≡ some (copy_fields fields obj target, 0 + length (front ++ (x ∷ back))) =
              rw (e, append-nil) at (decode-encode fields [] [] obj target h) in
            absurd (ground (arith, longer, whole, in_front, length-append front (x ∷ back)))
      ]
