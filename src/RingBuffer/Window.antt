-- ===== src/RingBuffer/Window.antt =====
-- The cells of an array from an index on, going round at its end.
use native.Mathlib.Nat.{mod-add-mod, mod-eq_of_lt, mod-eq-sub-mod, add-zero}
use native.Mathlib.Decide.{dec_lt}
use tec.Base.{
  ℕ, zero, suc, ◌+◌, ◌-◌, ◌%◌, ◌<◌, ◌≡◌, ◌≢◌, refl, sym, ap, ◌∙◌, Option, none, some, List, [], ◌∷◌,
  ◌++◌, arith, length, get_elem?, set, get_elem?-set_self, get_elem?-set_ne,
}

pub round_ne : (n i k : ℕ) → i < n → suc k < n → i ≢ (i + suc k) % n
round_ne n i k hi hk = elim (dec_lt (i + suc k) n) [
  | yes p ↦ omega (arith, mod-eq_of_lt p)
  | no p ↦ omega (
    arith,
    mod-eq-sub-mod {n = i + suc k} {m = n} (omega arith),
    mod-eq_of_lt {n = i + suc k - n} {m = n} (omega arith),
  )
]

pub round_shift : (n i k : ℕ) → (i + suc k) % n ≡ ((i + 1) % n + k) % n
round_shift n i k = rw mod-add-mod (ap (λ t. t % n) (omega arith))

module _ {ℓ} {T : Type ℓ} where
  -- A cell in front of a list; nothing for a read outside the array.
  abbrev pub put_cell : Option T → List T → List T
  put_cell none xs = xs
  put_cell (some x) xs = x ∷ xs

  abbrev pub window : List T → ℕ → ℕ → ℕ → List T
  window buf n i zero = []
  window buf n i (suc k) = put_cell (get_elem? buf i) (window buf n ((i + 1) % n) k)

  pub get_elem?-some : (xs : List T) (i : ℕ) → i < length xs → (x : T) × (get_elem? xs i ≡ some x)
  get_elem?-some [] i h = elim h [ ]
  get_elem?-some (x ∷ xs) zero h = (x, refl)
  get_elem?-some (x ∷ xs) (suc i) h = get_elem?-some xs i (omega arith)

  pub length-window :
      (buf : List T) (n i k : ℕ) → length buf ≡ n → i < n → length (window buf n i k) ≡ k
  length-window buf n i zero e h = refl
  length-window buf n i (suc k) e h =
      let (x, hit) = get_elem?-some buf i (omega arith) in
      rw hit (ap suc (length-window buf n ((i + 1) % n) k e (omega arith)))

  -- Writing the cell behind a window makes the window longer by the value.
  pub window-set :
      (buf : List T) (n i k j : ℕ) (x : T)
      → length buf ≡ n
      → i < n
      → k < n
      → j ≡ (i + k) % n
      → window (set buf j x) n i (suc k) ≡ window buf n i k ++ (x ∷ [])
  window-set buf n i zero j x e hi hk hj =
      let same : j ≡ i = hj ∙ rw add-zero (mod-eq_of_lt hi) in
      rw (same, get_elem?-set_self buf i x (omega arith))
  window-set buf n i (suc k) j x e hi hk hj =
      let (y, hit) = get_elem?-some buf i (omega arith) in
      let tail =
        window-set buf n ((i + 1) % n) k j x e (omega arith) (omega arith)
          (hj ∙ round_shift n i k) in
      let kept : get_elem? (set buf j x) i ≡ some y =
        get_elem?-set_ne buf x (λ q. round_ne n i k hi hk (sym q ∙ hj)) ∙ hit in
      rw (kept, hit) (ap (◌∷◌ y) tail)

  -- The cell at a distance is the element of the window there.
  pub get_elem?-window :
      (buf : List T) (n i k p : ℕ)
      → length buf ≡ n
      → i < n
      → p < k
      → get_elem? (window buf n i k) p ≡ get_elem? buf ((i + p) % n)
  get_elem?-window buf n i zero p e hi hp = elim hp [ ]
  get_elem?-window buf n i (suc k) zero e hi hp =
      let (y, hit) = get_elem?-some buf i (omega arith) in
      rw (hit, add-zero, mod-eq_of_lt hi) (rw hit)
  get_elem?-window buf n i (suc k) (suc p) e hi hp =
      let (y, hit) = get_elem?-some buf i (omega arith) in
      rw (hit, round_shift n i p)
        (get_elem?-window buf n ((i + 1) % n) k p e (omega arith) (omega arith))
