-- ===== src/Dart/Bindings/Filling.antt =====
-- What `_allocStringArray` of lib/src/ffi/bindings.dart leaves in memory.
use packagekit_dart.Base.{
  ℕ, suc, ◌+◌, ◌<◌, ◌≡◌, refl, sym, ap, ◌∙◌, some, List, [], ◌∷◌, ◌++◌, append-nil, append_assoc,
  length, Below, arith,
}
use packagekit_dart.Dart.Core.{DartString}
use packagekit_dart.Dart.Bindings.{to_native_utf8}
use packagekit_dart.Dart.Bindings.Memory.{
  Block, bytes, pointers, Memory, get_at, set_at, update, store, zeros, fill,
}

abbrev pub memory : List (ℕ × Block) → ℕ → Memory
memory blocks last = record { blocks = blocks; last = last }

-- The blocks of the strings that are allocated behind an address, and their addresses.
abbrev pub entries : ℕ → List DartString → List (ℕ × Block)
entries n [] = []
entries n (s ∷ strings) = (suc n, bytes (to_native_utf8 s)) ∷ entries (suc n) strings

abbrev pub addresses : ℕ → List DartString → List ℕ
addresses n [] = []
addresses n (s ∷ strings) = suc n ∷ addresses (suc n) strings

set_at-length : (ps qs : List ℕ) (p q : ℕ) → set_at (length ps) q (ps ++ (p ∷ qs)) ≡ ps ++ (q ∷ qs)
unfolding set_at
set_at-length [] qs p q = refl
set_at-length (x ∷ ps) qs p q = rw (set_at-length ps qs p q)

pub get_at-length : (ps qs : List ℕ) (p : ℕ) → get_at (length ps) (ps ++ (p ∷ qs)) ≡ some p
unfolding get_at
get_at-length [] qs p = refl
get_at-length (x ∷ ps) qs p = get_at-length ps qs p

pub length-snoc : (ps : List ℕ) (p : ℕ) → length (ps ++ (p ∷ [])) ≡ suc (length ps)
length-snoc [] p = refl
length-snoc (x ∷ ps) p = ap suc (length-snoc ps p)

update_lem :
    (B : List (ℕ × Block)) (n arr i q : ℕ) (ps : List ℕ) (rest : List (ℕ × Block))
    → Below n B
    → n < arr
    → update arr i q (B ++ ((arr, pointers ps) ∷ rest))
      ≡ B ++ ((arr, pointers (set_at i q ps)) ∷ rest)
unfolding update
update_lem [] n arr i q ps rest below lt = ground arith
update_lem ((a, b) ∷ B) n arr i q ps rest below lt =
    ground (arith, below.0, update_lem B n arr i q ps rest below.1 lt)

module _ (B : List (ℕ × Block)) (n arr : ℕ) (below : Below n B) (lt : n < arr) where
  store_lem :
      (ps zs : List ℕ) (es : List (ℕ × Block)) (last : ℕ) (b : Block)
      → store arr (length ps) (suc last) (
          memory
            ((B ++ ((arr, pointers (ps ++ (0 ∷ zs))) ∷ es)) ++ ((suc last, b) ∷ []))
            (suc last))
        ≡ memory
            (B ++ ((arr, pointers ((ps ++ (suc last ∷ [])) ++ zs)) ∷ (es ++ ((suc last, b) ∷ []))))
            (suc last)
  store_lem ps zs es last b =
      let e : List (ℕ × Block) = (suc last, b) ∷ [] in
      ap (λ bs. memory bs (suc last))
        (ap (update arr (length ps) (suc last))
            (append_assoc B ((arr, pointers (ps ++ (0 ∷ zs))) ∷ es) e)
          ∙ update_lem B n arr (length ps) (suc last) (ps ++ (0 ∷ zs)) (es ++ e) below lt
          ∙ ap (λ l. B ++ ((arr, pointers l) ∷ (es ++ e)))
              (set_at-length ps zs 0 (suc last) ∙ sym (append_assoc ps (suc last ∷ []) zs)))

  pub fill_lem :
      (strings : List DartString) (ps : List ℕ) (es : List (ℕ × Block)) (last : ℕ)
      → fill arr
          (length ps)
          strings
          (memory (B ++ ((arr, pointers (ps ++ zeros (length strings))) ∷ es)) last)
        ≡ memory
            (B ++ ((arr, pointers (ps ++ addresses last strings)) ∷ (es ++ entries last strings)))
            (last + length strings)
  unfolding fill zeros
  fill_lem [] ps es last = rw (append-nil es) (ap (memory _) (omega arith))
  fill_lem (s ∷ strings) ps es last =
      let q = suc last in
      let e : ℕ × Block = (q, bytes (to_native_utf8 s)) in
      ap (fill arr (suc (length ps)) strings)
        (store_lem ps (zeros (length strings)) es last (bytes (to_native_utf8 s)))
      ∙ ap
          (λ i. fill arr i strings (
            memory
              (B
                ++ ((arr, pointers ((ps ++ (q ∷ [])) ++ zeros (length strings)))
                    ∷ (es ++ (e ∷ []))))
              q))
          (sym (length-snoc ps q))
      ∙ fill_lem strings (ps ++ (q ∷ [])) (es ++ (e ∷ [])) q
      ∙ rw
          (
            append_assoc ps (q ∷ []) (addresses q strings),
            append_assoc es (e ∷ []) (entries q strings),
          )
          (ap (memory _) (omega arith))
