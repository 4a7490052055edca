-- ===== src/Prelude/Dict.antt =====
-- Python's `dict` with text keys, as an association list in the order of insertion: a write to a
-- present key keeps its place, a new key goes to the end.
use v_machine.Prelude.Tests.{if◌then◌else◌, is_some}
use Prim.Native.Nat.{ℕ, ◌+◌}
use Prim.Native.String.{String}
use mathlib.Core.Path.{◌≡◌, refl}
use mathlib.Core.Bool.{Bool}
use mathlib.Core.Option.{Option, none, some}
use mathlib.Core.List.{List, [], ◌∷◌}
use native.Mathlib.Omega.{arith}
use text.Mathlib.Text.{◌==◌}
use text.Mathlib.TextEquality.{eq_iff}

abbrev pub Dict {ℓ} : Type ℓ → Type ℓ
Dict V = List (String × V)

module _ {ℓ} {V : Type ℓ} where
  -- d.get(k)
  unfoldable pub lookup : String → Dict V → Option V
  lookup k [] = none
  lookup k ((j, v) ∷ d) = if j == k then some v else lookup k d

  -- d.get(k, v)
  abbrev pub get_or : String → Dict V → V → V
  get_or k d v = elim (lookup k d) [ none ↦ v | some w ↦ w ]

  -- d[k] = v
  unfoldable pub insert : String → V → Dict V → Dict V
  insert k v [] = (k, v) ∷ []
  insert k v ((j, w) ∷ d) = if j == k then (k, v) ∷ d else (j, w) ∷ insert k v d

  -- del d[k], d.pop(k, None)
  unfoldable pub remove : String → Dict V → Dict V
  remove k [] = []
  remove k ((j, w) ∷ d) = let rest = remove k d in if j == k then rest else (j, w) ∷ rest

  -- k in d
  abbrev pub has_key : String → Dict V → Bool
  has_key k d = is_some (lookup k d)

  pub lookup-insert :
      (k j : String) (v : V) (d : Dict V)
      → lookup j (insert k v d) ≡ (if k == j then some v else lookup j d)
  unfolding lookup insert
  lookup-insert k j v [] = refl
  lookup-insert k j v ((i, w) ∷ d) =
      ground (arith, eq_iff k j, eq_iff i k, eq_iff i j, lookup-insert k j v d)

  pub lookup-remove :
      (k j : String) (d : Dict V) → lookup j (remove k d) ≡ (if k == j then none else lookup j d)
  unfolding lookup remove
  lookup-remove k j [] = ground arith
  lookup-remove k j ((i, w) ∷ d) =
      ground (arith, lookup-remove k j d, eq_iff i k, eq_iff i j, eq_iff k j)

-- A dict of counters.
abbrev pub Counter : Type 0
Counter = Dict ℕ

-- counter.get(name, 0)
abbrev pub count_of : String → Counter → ℕ
count_of name counter = get_or name counter 0

abbrev pub total : Counter → ℕ
total [] = 0
total ((k, n) ∷ d) = n + total d

-- counter[name] = counter.get(name, 0) + 1
unfoldable pub incr : String → Counter → Counter
incr name counter = insert name (count_of name counter + 1) counter

pub count_of-incr :
    (name j : String) (counter : Counter)
    → count_of j (incr name counter)
      ≡ (if name == j then count_of name counter + 1 else count_of j counter)
unfolding incr
count_of-incr name j counter =
    ground (arith, lookup-insert name j (count_of name counter + 1) counter)

total-insert :
    (k : String) (n : ℕ) (d : Counter) → total (insert k n d) + count_of k d ≡ total d + n
unfolding insert lookup
total-insert k n [] = omega arith
total-insert k n ((j, m) ∷ d) = ground (arith, total-insert k n d)

pub total-incr : (name : String) (counter : Counter) → total (incr name counter) ≡ total counter + 1
unfolding incr
total-incr name counter = omega (arith, total-insert name (count_of name counter + 1) counter)
