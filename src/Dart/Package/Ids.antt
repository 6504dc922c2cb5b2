-- ===== src/Dart/Package/Ids.antt =====
-- Package ids as text and as parts.
use packagekit_dart.Base.{
  ℕ, ◌≡◌, ◌≢◌, refl, sym, ap, subst, ◌∙◌, ◌⊎◌, inl, inr, List, [], ◌∷◌, ◌++◌, All, arith, ◌==◌,
  Bool-cases,
}
use packagekit_dart.Dart.Core.{value, throws, format_exception, DartString}
use packagekit_dart.Dart.Package.{PkPackageId, push_front, split, from_parts, parse, raw}

-- The text does not contain the separator.
abbrev pub Lacks : ℕ → DartString → Type 0
Lacks sep = All (λ c. c ≢ sep)

split_one : (sep : ℕ) (a : DartString) → Lacks sep a → split sep a ≡ a ∷ []
unfolding split
split_one sep [] h = refl
split_one sep (c ∷ a) h = ground (arith, split_one sep a h.1, h.0)

split-append :
    (sep : ℕ) (a rest : DartString)
    → Lacks sep a
    → split sep (a ++ (sep ∷ rest)) ≡ a ∷ split sep rest
unfolding split
split-append sep [] rest h = ground arith
split-append sep (c ∷ a) rest h = ground (arith, split-append sep a rest h.1, h.0)

-- No part contains a semicolon.
pub record IsClean (p : PkPackageId) : Type 0 where
  pub name : Lacks b';' p.name
  pub version : Lacks b';' p.version
  pub arch : Lacks b';' p.arch
  pub data_ : Lacks b';' p.data_

-- A package id whose parts contain no semicolon is read back from its text.
pub parse-raw : (p : PkPackageId) → IsClean p → parse (raw p) ≡ value p
unfolding parse raw
parse-raw p h = rw (
  split-append b';' p.name _ h.name,
  split-append b';' p.version _ h.version,
  split-append b';' p.arch p.data_ h.arch,
  split_one b';' p.data_ h.data_,
)

-- The parts with the separator between them.
join : ℕ → List DartString → DartString
join sep [] = []
join sep (p ∷ []) = p
join sep (p ∷ q ∷ parts) = p ++ (sep ∷ join sep (q ∷ parts))

join-push_front :
    (sep c : ℕ) (parts : List DartString) → join sep (push_front c parts) ≡ c ∷ join sep parts
unfolding join push_front
join-push_front sep c [] = refl
join-push_front sep c (p ∷ []) = refl
join-push_front sep c (p ∷ q ∷ parts) = refl

join-cons :
    (sep : ℕ) (p : DartString) (parts : List DartString)
    → parts ≢ []
    → join sep (p ∷ parts) ≡ p ++ (sep ∷ join sep parts)
unfolding join
join-cons sep p [] h = absurd (h refl)
join-cons sep p (q ∷ parts) h = refl

push_front-ne-nil : (c : ℕ) (parts : List DartString) → push_front c parts ≢ []
unfolding push_front
push_front-ne-nil c [] = λ e. cc
push_front-ne-nil c (p ∷ parts) = λ e. cc

split-ne-nil : (sep : ℕ) (s : DartString) → split sep s ≢ []
unfolding split
split-ne-nil sep [] = λ e. cc
split-ne-nil sep (c ∷ cs) = ground (arith, push_front-ne-nil c (split sep cs))

join-split : (sep : ℕ) (s : DartString) → join sep (split sep s) ≡ s
unfolding split
join-split sep [] = unfold join in refl
join-split sep (c ∷ cs) = ground (
  arith,
  join-split sep cs,
  join-cons sep [] (split sep cs) (split-ne-nil sep cs),
  join-push_front sep c (split sep cs),
)

push_front-Lacks :
    (sep c : ℕ) (parts : List DartString)
    → c ≢ sep
    → All (Lacks sep) parts
    → All (Lacks sep) (push_front c parts)
unfolding push_front
push_front-Lacks sep c [] h hs = ((h, tt), tt)
push_front-Lacks sep c (p ∷ parts) h hs = ((h, hs.0), hs.1)

split-Lacks : (sep : ℕ) (s : DartString) → All (Lacks sep) (split sep s)
unfolding split
split-Lacks sep [] = (tt, tt)
split-Lacks sep (c ∷ cs) = elim (Bool-cases (c == sep)) [
  | inl same ↦ rw same (tt, split-Lacks sep cs)
  | inr other ↦ rw other (push_front-Lacks sep c (split sep cs) (ground arith) (split-Lacks sep cs))
]

from_parts-eq-value :
    (parts : List DartString) (p : PkPackageId)
    → from_parts parts ≡ value p
    → parts ≡ p.name ∷ p.version ∷ p.arch ∷ p.data_ ∷ []
unfolding from_parts
from_parts-eq-value (a ∷ b ∷ c ∷ d ∷ []) p e = cc
from_parts-eq-value _ p e = cc

-- If `parse` accepts a text, the text is that of its result, whose parts contain no semicolon.
pub parse-eq-value :
    (s : DartString) (p : PkPackageId) → parse s ≡ value p → (raw p ≡ s) × IsClean p
unfolding parse raw join
parse-eq-value s p e =
    let parts : split b';' s ≡ p.name ∷ p.version ∷ p.arch ∷ p.data_ ∷ [] =
      from_parts-eq-value (split b';' s) p e in
    let clean = subst (All (Lacks b';')) parts (split-Lacks b';' s) in
    (
      ap (join b';') (sym parts) ∙ join-split b';' s,
      record { name = clean.0; version = clean.1.0; arch = clean.1.1.0; data_ = clean.1.1.1.0 },
    )

-- The only error is a FormatException.
pub parse-eq-throws :
    (s : DartString)
    → ((p : PkPackageId) × (parse s ≡ value p)) ⊎ (parse s ≡ throws format_exception)
unfolding parse
parse-eq-throws s = go (split b';' s)
  where
    go :
        (parts : List DartString)
        → ((p : PkPackageId) × (from_parts parts ≡ value p))
          ⊎ (from_parts parts ≡ throws format_exception)
    go (a ∷ b ∷ c ∷ d ∷ []) = inl (_, refl)
    go _ = inr refl
