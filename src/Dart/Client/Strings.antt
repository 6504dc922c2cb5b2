-- ===== src/Dart/Client/Strings.antt =====
-- The strings that a method of lib/src/packagekit_client.dart hands over, as UTF-8 without NUL.
use packagekit_dart.Base.{
  ℕ, ◌≡◌, ◌≢◌, sym, Bool, true, ◌&&◌, not, List, [], ◌∷◌, map, All, ◌==◌, arith, All-append, subst,
}
use packagekit_dart.PkBridge.Requests.{strings}
use packagekit_dart.PkBridge.Calls.{HasNoNul}
use packagekit_dart.Dart.Utf8.{utf8_encode, encode_char}
use packagekit_dart.Dart.Client.Queries.{Query, native_request, query_strings}
use packagekit_dart.Dart.Client.Queries.Starts.{strings_lem}

unfoldable pub has_no_nul : List ℕ → Bool
has_no_nul [] = true
has_no_nul (b ∷ bs) = not (b == 0) && has_no_nul bs

pub has_no_nul_sound : (s : List ℕ) → has_no_nul s ≡ true → HasNoNul s
unfolding has_no_nul
has_no_nul_sound [] h = tt
has_no_nul_sound (b ∷ bs) h = (ground (arith, h), has_no_nul_sound bs (ground (arith, h)))

encode_char-HasNoNul : (c : ℕ) → c ≢ 0 → HasNoNul (encode_char c)
unfolding encode_char
encode_char-HasNoNul c h = ground arith

pub utf8_encode-HasNoNul : (s : List ℕ) → HasNoNul s → HasNoNul (utf8_encode s)
unfolding utf8_encode
utf8_encode-HasNoNul [] h = tt
utf8_encode-HasNoNul (c ∷ s) h =
    All-append (λ b. b ≢ 0) (encode_char c) (utf8_encode s) (encode_char-HasNoNul c h.0)
      (utf8_encode-HasNoNul s h.1)

All-utf8_encode : (ss : List (List ℕ)) → All HasNoNul ss → All HasNoNul (map utf8_encode ss)
All-utf8_encode [] h = tt
All-utf8_encode (s ∷ ss) h = (utf8_encode-HasNoNul s h.0, All-utf8_encode ss h.1)

pub query-HasNoNul :
    (q : Query) → All HasNoNul (query_strings q) → All HasNoNul (strings (native_request q))
query-HasNoNul q h =
    subst (All HasNoNul) (sym (strings_lem q)) (All-utf8_encode (query_strings q) h)
