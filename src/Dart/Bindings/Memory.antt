-- ===== src/Dart/Bindings/Memory.antt =====
-- lib/src/ffi/bindings.dart: the memory of `_allocStringArray` and `_freeStringArray`. The allocator of
-- package:ffi is not part of the repository: it gives a fresh address, and freeing or reading what is
-- not allocated is undefined, which is `none`.
use packagekit_dart.Base.{
  ℕ, zero, suc, Option, none, some, List, [], ◌∷◌, ◌++◌, length, find, free, ◌==◌, if◌then◌else◌,
}
use packagekit_dart.Glaze.{◌>>=◌}
use packagekit_dart.Dart.Core.{DartString}
use packagekit_dart.Dart.Bindings.{to_native_utf8}

-- A block holds bytes or pointers.
pub data Block : Type 0 where
  bytes : List ℕ → Block
  pointers : List ℕ → Block

-- The allocated blocks, and the last address given.
pub record Memory : Type 0 where
  pub blocks : List (ℕ × Block)
  pub last : ℕ

abbrev pub allocate : Block → Memory → ℕ × Memory
allocate b m =
    (suc m.last, record { blocks = m.blocks ++ ((suc m.last, b) ∷ []); last = suc m.last })

abbrev pub pointers_of : Option Block → Option (List ℕ)
pointers_of (some (pointers ps)) = some ps
pointers_of _ = none

abbrev pub bytes_of : Option Block → Option (List ℕ)
bytes_of (some (bytes b)) = some b
bytes_of _ = none

unfoldable pub get_at : ℕ → List ℕ → Option ℕ
get_at i [] = none
get_at zero (p ∷ ps) = some p
get_at (suc i) (p ∷ ps) = get_at i ps

unfoldable pub set_at : ℕ → ℕ → List ℕ → List ℕ
set_at i q [] = []
set_at zero q (p ∷ ps) = q ∷ ps
set_at (suc i) q (p ∷ ps) = p ∷ set_at i q ps

-- arr[i].
unfoldable pub load : ℕ → ℕ → Memory → Option ℕ
unfolding get_at
load arr i m = do ps ← pointers_of (find arr m.blocks); get_at i ps

abbrev stored : ℕ → ℕ → Block → Block
stored i q (bytes b) = bytes b
stored i q (pointers ps) = pointers (set_at i q ps)

unfoldable pub update : ℕ → ℕ → ℕ → List (ℕ × Block) → List (ℕ × Block)
unfolding set_at
update arr i q [] = []
update arr i q ((a, b) ∷ blocks) =
    let rest = update arr i q blocks in
    if a == arr then (a, stored i q b) ∷ blocks else (a, b) ∷ rest

-- arr[i] = q.
abbrev pub store : ℕ → ℕ → ℕ → Memory → Memory
store arr i q m = record m { blocks = update arr i q m.blocks }

abbrev freed : ℕ → Memory → Option Block → Option Memory
freed p m none = none
freed p m (some b) = some (record m { blocks = free p m.blocks })

-- calloc.free(p).
abbrev pub free_block : ℕ → Memory → Option Memory
free_block p m = freed p m (find p m.blocks)

unfoldable pub zeros : ℕ → List ℕ
zeros zero = []
zeros (suc n) = 0 ∷ zeros n

-- The loop of `_allocStringArray`, from index i.
unfoldable pub fill : ℕ → ℕ → List DartString → Memory → Memory
unfolding update to_native_utf8
fill arr i [] m = m
fill arr i (s ∷ strings) m =
    let (p, m') = allocate (bytes (to_native_utf8 s)) m in
    fill arr (suc i) strings (store arr i p m')

unfoldable pub alloc_array : List DartString → Memory → ℕ × Memory
unfolding fill zeros
alloc_array strings m =
    let (arr, m') = allocate (pointers (zeros (length strings))) m in (arr, fill arr 0 strings m')

-- The loop of `_freeStringArray`, from index i.
unfoldable pub free_each : ℕ → ℕ → ℕ → Memory → Option Memory
unfolding load
free_each arr i zero m = some m
free_each arr i (suc count) m = do
  p ← load arr i m
  m' ← free_block p m
  free_each arr (suc i) count m'

unfoldable pub free_array : ℕ → ℕ → Memory → Option Memory
unfolding free_each
free_array arr count m = do m' ← free_each arr 0 count m; free_block arr m'

-- What the C function reads: the strings at arr[i], ..., arr[i + count - 1].
unfoldable pub read_each : ℕ → ℕ → ℕ → Memory → Option (List (List ℕ))
unfolding load
read_each arr i zero m = some []
read_each arr i (suc count) m = do
  p ← load arr i m
  b ← bytes_of (find p m.blocks)
  rest ← read_each arr (suc i) count m
  some (b ∷ rest)
