-- ===== src/Ranges/Search.antt =====
-- Go's `sort.Search`: binary search for the first index at which a monotone test holds.
use gostream.Prelude.{
  ℕ, zero, suc, ◌+◌, ◌/◌, ◌≤◌, ◌<◌, ◌≡◌, Bool, true, false, Bool-cases, ltb, if◌then◌else◌, inl,
  inr, arith,
}

-- The interval shrinks in each round, so `n` rounds are enough.
search_loop : ℕ → (ℕ → Bool) → ℕ → ℕ → ℕ
search_loop zero f i j = i
search_loop (suc fuel) f i j =
    let h = (i + j) / 2 in
    let left = search_loop fuel f i h in
    let right = search_loop fuel f (h + 1) j in if ltb i j then (if f h then left else right) else i

unfoldable pub search : ℕ → (ℕ → Bool) → ℕ
unfolding search_loop
search n f = search_loop n f 0 n

pub record IsFirst (n : ℕ) (f : ℕ → Bool) (i : ℕ) : Type 0 where
  pub bound : i ≤ n
  pub before : (k : ℕ) → k < i → f k ≡ false
  pub here : i < n → f i ≡ true

module _ (n : ℕ) (f : ℕ → Bool) (mono : (k m : ℕ) → k ≤ m → m < n → f k ≡ true → f m ≡ true) where
  below_false : (h : ℕ) → h < n → f h ≡ false → (k : ℕ) → k < h + 1 → f k ≡ false
  below_false h l e k lt = elim (Bool-cases (f k)) [
    | inl t ↦ ground (arith, mono k h (omega arith) l t)
    | inr e' ↦ e'
  ]

  search_loop-IsFirst :
      (fuel i j : ℕ)
      → j ≤ i + fuel
      → i ≤ j
      → j ≤ n
      → ((k : ℕ) → k < i → f k ≡ false)
      → (j < n → f j ≡ true)
      → IsFirst n f (search_loop fuel f i j)
  unfolding search_loop
  search_loop-IsFirst zero i j a b c before here =
      let e : i ≡ j = omega arith in
      record { bound = omega arith; before = before; here = rw (← e) at here }
  search_loop-IsFirst (suc fuel) i j a b c before here = elim (Bool-cases (ltb i j)) [
    | inl more ↦ elim (Bool-cases (f ((i + j) / 2))) [
      | inl t ↦
          rw (more, t)
            (search_loop-IsFirst fuel i ((i + j) / 2) (ground arith) (ground arith) (ground arith)
              before (λ _. t))
      | inr e ↦
          rw (more, e)
            (search_loop-IsFirst fuel ((i + j) / 2 + 1) j (ground arith) (ground arith) c
              (below_false ((i + j) / 2) (ground arith) e) here)
    ]
    | inr done ↦
        let e : i ≡ j = ground arith in
        rw done (record { bound = omega arith; before = before; here = rw (← e) at here })
  ]

  -- The search returns the first index below `n` at which the test holds, or `n`.
  pub search-IsFirst : IsFirst n f (search n f)
  unfolding search
  search-IsFirst =
      search_loop-IsFirst n 0 n (omega arith) (omega arith) (omega arith) (λ k h. elim h [ ])
        (λ h. absurd (omega arith))
