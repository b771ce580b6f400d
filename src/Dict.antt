-- ===== src/Dict.antt =====
-- Python's `dict` with string keys, as the list of its items in insertion order.
use mathlib.Core.Path.{subst₂}
use termhop.Base.{
  Bool-cases, inl, inr, ◌+◌, ◌≤◌, String, ◌==◌, eq_iff, ◌≡◌, refl, Bool, Option, none, some, List,
  [], ◌∷◌, arith, if◌then◌else◌, length, map,
}

abbrev pub Dict {ℓ} : Type ℓ → Type ℓ
Dict V = List (String × V)

none_ne_some {ℓ} : {V : Type ℓ} {v : V} → none ≡ some v → ⊥
none_ne_some h = cc

module _ {ℓ} {V : Type ℓ} where
  -- d.get(k)
  unfoldable pub get : Dict V → String → Option V
  get [] k = none
  get ((j, v) ∷ d) k = if j == k then some v else get d k

  -- d[k] = v: an existing key keeps its place, a new one goes to the end
  unfoldable pub put : Dict V → String → V → Dict V
  put [] k v = (k, v) ∷ []
  put ((j, w) ∷ d) k v = if j == k then (j, v) ∷ d else (j, w) ∷ put d k v

  -- d.pop(k, None), del d[k]
  unfoldable pub pop : Dict V → String → Dict V
  pop [] k = []
  pop ((j, w) ∷ d) k = let rest = pop d k in if j == k then rest else (j, w) ∷ rest

  -- `for k, v in list(d.items()): if test(v): del d[k]`
  unfoldable pub discard : (V → Bool) → Dict V → Dict V
  discard test [] = []
  discard test ((j, w) ∷ d) = let rest = discard test d in if test w then rest else (j, w) ∷ rest

  -- d.values()
  unfoldable pub values : Dict V → List V
  values = map (λ kv. kv.1)

  -- No key is listed twice: what makes a list of items a dict.
  abbrev pub Unique : Dict V → Type ℓ
  Unique [] = Unit
  Unique ((j, v) ∷ d) = (get d j ≡ none) × Unique d

  pub get-put :
      (d : Dict V) (key j : String) (value : V)
      → get (put d key value) j ≡ (if key == j then some value else get d j)
  unfolding get put
  get-put [] key j value = refl
  get-put ((i, w) ∷ d) key j value =
      ground (arith, eq_iff key j, eq_iff i key, eq_iff i j, get-put d key j value)

  pub get-pop : (d : Dict V) (k j : String) → get (pop d k) j ≡ (if k == j then none else get d j)
  unfolding get pop
  get-pop [] k j = ground arith
  get-pop ((i, w) ∷ d) k j = ground (arith, eq_iff k j, eq_iff i k, eq_iff i j, get-pop d k j)

  -- `discard` spares a key whose value fails the test.
  pub get-discard :
      (test : V → Bool) (d : Dict V) (j : String)
      → Unique d
      → get (discard test d) j
        ≡ (elim (get d j) [ none ↦ none | some v ↦ if test v then none else some v ])
  unfolding get discard
  get-discard test [] j u = refl
  get-discard test ((i, w) ∷ d) j u = ground (arith, eq_iff i j, get-discard test d j u.1)

  pub put-Unique : (d : Dict V) (k : String) (v : V) → Unique d → Unique (put d k v)
  unfolding get put
  put-Unique [] k v u = ground arith
  put-Unique ((i, w) ∷ d) k v u =
      ground (arith, eq_iff i k, eq_iff k i, get-put d k i v, put-Unique d k v u.1)

  pub pop-Unique : (d : Dict V) (k : String) → Unique d → Unique (pop d k)
  unfolding get pop
  pop-Unique [] k u = tt
  pop-Unique ((i, w) ∷ d) k u =
      ground (arith, eq_iff i k, eq_iff k i, get-pop d k i, pop-Unique d k u.1)

  pub discard-Unique : (test : V → Bool) (d : Dict V) → Unique d → Unique (discard test d)
  unfolding discard
  discard-Unique test [] u = tt
  discard-Unique test ((i, w) ∷ d) u =
      ground (arith, get-discard test d i u.1, discard-Unique test d u.1)

  pub length-pop-le : (d : Dict V) (k : String) → length (pop d k) ≤ length d
  unfolding pop
  length-pop-le [] k = omega arith
  length-pop-le ((i, w) ∷ d) k = ground (arith, length-pop-le d k)

  pub length-put-le : (d : Dict V) (k : String) (v : V) → length (put d k v) ≤ length d + 1
  unfolding put
  length-put-le [] k v = omega arith
  length-put-le ((i, w) ∷ d) k v = ground (arith, length-put-le d k v)

  -- A predicate of every item.
  abbrev pub AllItems {κ} : (String → V → Type κ) → Dict V → Type κ
  AllItems Q [] = Unit
  AllItems Q ((j, v) ∷ d) = Q j v × AllItems Q d

  pub get-AllItems {κ} :
      (Q : String → V → Type κ) (d : Dict V) (k : String) {v : V}
      → AllItems Q d
      → get d k ≡ some v
      → Q k v
  unfolding get
  get-AllItems Q [] k all e = absurd (none_ne_some e)
  get-AllItems Q ((j, w) ∷ d) k {v} all e = elim (Bool-cases (j == k)) [
    | inl same ↦ let value : w ≡ v = ground arith in subst₂ Q ((eq_iff j k).0 same) value all.0
    | inr other ↦ get-AllItems Q d k all.1 (ground (arith, other))
  ]
