-- ===== src/Dart/Bindings/Arrays.antt =====
-- The string arrays of lib/src/ffi/bindings.dart in memory: what a C function reads of them, and that
-- they are freed.
use packagekit_dart.Base.{
  ℕ, suc, ◌+◌, ◌≤◌, ◌<◌, ◌≡◌, ◌≢◌, subst, refl, sym, ap, ◌∙◌, some, List, [], ◌∷◌, ◌++◌, append-nil,
  append_assoc, length, find, free, find_new, find_other, find-append, free-append, free-Above,
  free_new, free_other, Below, Below-grow, Below-append, Above, arith,
}
use packagekit_dart.Dart.Core.{DartString}
use packagekit_dart.Dart.Bindings.{to_native_utf8, alloc_string_array}
use packagekit_dart.Dart.Bindings.Memory.{
  Block, bytes, pointers, Memory, load, alloc_array, free_block, free_each, free_array, read_each,
}
use packagekit_dart.Dart.Bindings.Filling.{
  memory, entries, addresses, get_at-length, length-snoc, fill_lem,
}

-- Every string stands at its address.
abbrev Found : List (ℕ × Block) → ℕ → List DartString → Type 0
Found blocks last [] = Unit {0}
Found blocks last (s ∷ strings) =
    (find (suc last) blocks ≡ some (bytes (to_native_utf8 s))) × Found blocks (suc last) strings

Found-append :
    (C : List (ℕ × Block)) (last : ℕ) (strings : List DartString)
    → Below last C
    → Found (C ++ entries last strings) last strings
Found-append C last [] below = tt
Found-append C last (s ∷ strings) below =
    let e : ℕ × Block = (suc last, bytes (to_native_utf8 s)) in
    (
      find-append last (suc last) C (entries last (s ∷ strings)) below (omega arith)
          ∙ find_new (suc last) (bytes (to_native_utf8 s)) (entries (suc last) strings),
      subst (λ bs. Found bs (suc last) strings)
          (append_assoc C (e ∷ []) (entries (suc last) strings))
          (Found-append (C ++ (e ∷ [])) (suc last) strings (
            Below-append (suc last) C (e ∷ []) (Below-grow last (suc last) C (omega arith) below)
              (omega arith, tt))),
    )

load_lem :
    (blocks : List (ℕ × Block)) (arr l p : ℕ) (ps qs : List ℕ)
    → find arr blocks ≡ some (pointers (ps ++ (p ∷ qs)))
    → load arr (length ps) (memory blocks l) ≡ some p
unfolding load
load_lem blocks arr l p ps qs there = rw there (get_at-length ps qs p)

-- Reading from index `length ps` on.
read_each_lem :
    (blocks : List (ℕ × Block)) (arr l : ℕ) (strings : List DartString) (ps : List ℕ) (last : ℕ)
    → find arr blocks ≡ some (pointers (ps ++ addresses last strings))
    → Found blocks last strings
    → read_each arr (length ps) (length strings) (memory blocks l)
      ≡ some (alloc_string_array strings)
unfolding read_each alloc_string_array
read_each_lem blocks arr l [] ps last there h = refl
read_each_lem blocks arr l (s ∷ strings) ps last there h =
    let q = suc last in
    let rest : read_each arr (suc (length ps)) (length strings) (memory blocks l)
        ≡ some (alloc_string_array strings) =
      subst
        (λ i.
          read_each arr i (length strings) (memory blocks l) ≡ some (alloc_string_array strings))
        (length-snoc ps q)
        (read_each_lem blocks arr l strings (ps ++ (q ∷ [])) q
          (there
            ∙ ap (λ x. some (pointers x)) (sym (append_assoc ps (q ∷ []) (addresses q strings))))
          h.1) in
    rw (load_lem blocks arr l q ps (addresses q strings) there, h.0, rest) refl

entries-Above : (m n : ℕ) (strings : List DartString) → m ≤ n → Above m (entries n strings)
entries-Above m n [] le = tt
entries-Above m n (s ∷ strings) le =
    (omega (arith, le), entries-Above m (suc n) strings (omega (arith, le)))

module _ (B : List (ℕ × Block)) (n arr : ℕ) (below : Below n B) (lt : n < arr) where
  free_block_lem :
      (ps : List ℕ) (last l : ℕ) (b : Block) (es : List (ℕ × Block))
      → arr ≤ last
      → Above (suc last) es
      → free_block (suc last) (memory (B ++ ((arr, pointers ps) ∷ (suc last, b) ∷ es)) l)
        ≡ some (memory (B ++ ((arr, pointers ps) ∷ es)) l)
  free_block_lem ps last l b es le above =
      let q = suc last in
      let x = pointers ps in
      let later : n < q = omega (arith, lt, le) in
      let other : arr ≢ q = λ e. absurd (omega (arith, e, le)) in
      let found : find q (B ++ ((arr, x) ∷ (q, b) ∷ es)) ≡ some b =
        find-append n q B ((arr, x) ∷ (q, b) ∷ es) below later
        ∙ find_other q arr x ((q, b) ∷ es) other
        ∙ find_new q b es in
      let gone : free q (B ++ ((arr, x) ∷ (q, b) ∷ es)) ≡ B ++ ((arr, x) ∷ es) =
        free-append n q B ((arr, x) ∷ (q, b) ∷ es) below later
        ∙ ap (λ t. B ++ t)
            (free_other q arr x ((q, b) ∷ es) other
              ∙ ap (λ t. (arr, x) ∷ t) (free_new q b es ∙ free-Above q q es above (omega arith))) in
      rw found (ap (λ bs. some (memory bs l)) gone)

  array_there :
      (ps : List ℕ) (es : List (ℕ × Block))
      → find arr (B ++ ((arr, pointers ps) ∷ es)) ≡ some (pointers ps)
  array_there ps es =
      find-append n arr B ((arr, pointers ps) ∷ es) below lt ∙ find_new arr (pointers ps) es

  free_each_lem :
      (strings : List DartString) (ps : List ℕ) (last l : ℕ)
      → arr ≤ last
      → free_each arr
          (length ps)
          (length strings)
          (memory (B ++ ((arr, pointers (ps ++ addresses last strings)) ∷ entries last strings)) l)
        ≡ some (memory (B ++ ((arr, pointers (ps ++ addresses last strings)) ∷ [])) l)
  unfolding free_each
  free_each_lem [] ps last l le = refl
  free_each_lem (s ∷ strings) ps last l le =
      let q = suc last in
      let all = ps ++ addresses last (s ∷ strings) in
      let assoc = append_assoc ps (q ∷ []) (addresses q strings) in
      let rest : free_each arr (suc (length ps)) (length strings)
            (memory (B ++ ((arr, pointers all) ∷ entries q strings)) l)
          ≡ some (memory (B ++ ((arr, pointers all) ∷ [])) l) =
        subst
          (λ x.
            free_each arr (suc (length ps)) (length strings)
              (memory (B ++ ((arr, pointers x) ∷ entries q strings)) l)
            ≡ some (memory (B ++ ((arr, pointers x) ∷ [])) l))
          assoc
          (subst
            (λ i.
              free_each arr i (length strings) (
                memory
                  (B
                    ++ ((arr, pointers ((ps ++ (q ∷ [])) ++ addresses q strings))
                        ∷ entries q strings))
                  l)
              ≡ some (
                  memory (B ++ ((arr, pointers ((ps ++ (q ∷ [])) ++ addresses q strings)) ∷ [])) l))
            (length-snoc ps q) (free_each_lem strings (ps ++ (q ∷ [])) q l (omega (arith, le)))) in
      rw
        (
          load_lem (B ++ ((arr, pointers all) ∷ entries last (s ∷ strings))) arr l q ps
              (addresses q strings) (array_there all (entries last (s ∷ strings))),
          free_block_lem all last l (bytes (to_native_utf8 s)) (entries q strings) le
              (entries-Above q q strings (omega arith)),
        )
        rest

module _ (strings : List DartString) (m : Memory) (below : Below m.last m.blocks) where
  abbrev arr : ℕ
  arr = suc m.last

  abbrev array_block : List (ℕ × Block)
  array_block = (arr, pointers (addresses arr strings)) ∷ []

  abbrev filled : Memory
  filled = memory (m.blocks ++ (array_block ++ entries arr strings)) (arr + length strings)

  alloc_array_lem : alloc_array strings m ≡ (arr, filled)
  unfolding alloc_array
  alloc_array_lem =
      ap (λ x. (arr, x)) (fill_lem m.blocks m.last arr below (omega arith) strings [] [] arr)

  filled-Found : Found filled.blocks arr strings
  filled-Found =
      subst (λ bs. Found bs arr strings) (append_assoc m.blocks array_block (entries arr strings))
        (Found-append (m.blocks ++ array_block) arr strings (
          Below-append arr m.blocks array_block (Below-grow m.last arr m.blocks (omega arith) below)
            (omega arith, tt)))

  read_filled : read_each arr 0 (length strings) filled ≡ some (alloc_string_array strings)
  read_filled =
      read_each_lem filled.blocks arr filled.last strings [] arr
        (array_there m.blocks m.last arr below (omega arith) (addresses arr strings)
          (entries arr strings))
        filled-Found

  free_last :
      free_block arr (memory (m.blocks ++ array_block) filled.last)
      ≡ some (memory m.blocks filled.last)
  free_last =
      let x = pointers (addresses arr strings) in
      let gone : free arr (m.blocks ++ array_block) ≡ m.blocks =
        free-append m.last arr m.blocks array_block below (omega arith)
        ∙ ap (λ t. m.blocks ++ t) (free_new arr x [] ∙ free-Above arr arr [] tt (omega arith))
        ∙ append-nil m.blocks in
      rw (array_there m.blocks m.last arr below (omega arith) (addresses arr strings) [])
        (ap (λ bs. some (memory bs filled.last)) gone)

  free_filled : free_array arr (length strings) filled ≡ some (memory m.blocks filled.last)
  unfolding free_array
  free_filled =
      rw
        (free_each_lem m.blocks m.last arr below (omega arith) strings [] arr filled.last
          (omega arith))
        free_last

-- What a C function that is handed an array of some strings reads, and what freeing it leaves of the
-- memory `m`.
abbrev pub IsBorrowed : List DartString → Memory → ℕ × Memory → Type 0
IsBorrowed strings m (arr, m') =
    (read_each arr 0 (length strings) m' ≡ some (alloc_string_array strings))
    × (free_array arr (length strings) m'
        ≡ some (record { blocks = m.blocks; last = suc m.last + length strings }))

-- In a memory whose blocks are all at or below the last address given: behind `_allocStringArray`
-- of some strings, a C function that is handed the array and their number reads their buffers,
-- NUL-terminated and in order; and `_freeStringArray` of both then frees only what is allocated,
-- and leaves exactly the blocks that there were before.
pub alloc_array-IsBorrowed :
    (strings : List DartString) (m : Memory)
    → Below m.last m.blocks
    → IsBorrowed strings m (alloc_array strings m)
alloc_array-IsBorrowed strings m below =
    subst (IsBorrowed strings m) (sym (alloc_array_lem strings m below))
      (read_filled strings m below, free_filled strings m below)
