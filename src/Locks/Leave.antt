-- ===== src/Locks/Leave.antt =====
-- The section that counts a goroutine out keeps the invariant.
use Prim.Native.String.{String}
use gostream.Prelude.{
  ℕ, ◌+◌, ◌-◌, ◌<◌, ◌≡◌, sym, ap, ◌∙◌, ◌==◌, leb, true, false, Bool-cases, if_of_true, if_of_false,
  List, [], ◌∷◌, ◌++◌, Option, none, some, All, inl, inr, arith, subst,
}
use gostream.Locks.{
  Goroutine, idle, waiting, trying, holding, leaving, Manager, assign, update, release_entry,
  with_goroutines,
}
use gostream.Locks.Counts.{
  one_if, uses_of, uses, holds, Linked, uses-append, holds-append, All-split, All-join,
}
use gostream.Locks.Sound.{IsSound, bit, assign_other, assign-cases}

none-uses :
    (locks : String → Option ℕ) (path : String) (i : ℕ) (gs : List Goroutine)
    → uses i gs ≡ 0
    → locks path ≡ some i
    → All (Linked locks) gs
    → All (Linked (assign locks path none)) gs
unfolding uses
none-uses locks path i [] u l h = tt
none-uses locks path i (g ∷ gs) u l h =
    (head g (omega (arith, u)) h.0, none-uses locks path i gs (omega (arith, u)) l h.1)
  where
    at :
        (p : String) (e : ℕ) → one_if e i ≡ 0 → locks p ≡ some e → assign locks path none p ≡ some e
    at p e z k = assign_other locks path none p (λ q. other p e z k q) ∙ k
      where
        other : (p : String) (e : ℕ) → one_if e i ≡ 0 → locks p ≡ some e → p ≡ path → ⊥
        other p e z k q = let same : e ≡ i = cc in ground arith

    head : (g : Goroutine) → uses_of i g ≡ 0 → Linked locks g → Linked (assign locks path none) g
    head idle z k = tt
    head (waiting p e) z k = at p e z k
    head (trying p e) z k = at p e z k
    head (holding p e) z k = at p e z k
    head (leaving p e) z k = at p e z k

pub exits :
    (m : Manager) (before after : List Goroutine) (path : String) (i : ℕ)
    → m.goroutines ≡ before ++ leaving path i ∷ after
    → IsSound m
    → IsSound (with_goroutines (release_entry m path i) (before ++ idle ∷ after))
unfolding release_entry
exits m before after path i eq s = elim (Bool-cases (leb n 0)) [
  | inl t ↦ subst (λ l. IsSound (state l)) (sym (if_of_true _ _ t)) (dropped t)
  | inr t ↦ subst (λ l. IsSound (state l)) (sym (if_of_false _ _ t)) (kept t)
]
  where
    n : ℕ
    n = m.refs i - 1

    state : (String → Option ℕ) → Manager
    state l = record m { refs = update m.refs i n; locks = l; goroutines = before ++ idle ∷ after }

    parts : All (Linked m.locks) before × (m.locks path ≡ some i) × All (Linked m.locks) after
    parts =
        All-split (Linked m.locks) before (leaving path i) after
          (subst (All (Linked m.locks)) eq s.linked)

    shrinks : (e : ℕ) → uses e m.goroutines ≡ uses e (before ++ idle ∷ after) + one_if i e
    shrinks e =
        ap (uses e) eq
        ∙ omega
            (arith, uses-append e before (leaving path i) after, uses-append e before idle after)

    halves : (e : ℕ) → uses e (before ++ idle ∷ after) ≡ uses e before + uses e after
    halves e = omega (arith, uses-append e before idle after)

    refs_i : m.refs i ≡ uses i m.goroutines
    refs_i = s.counted path i parts.1

    held : (e : ℕ) → holds e (before ++ idle ∷ after) ≡ bit (m.held e)
    held e =
        omega
          (arith, holds-append e before (leaving path i) after, holds-append e before idle after)
        ∙ (sym (ap (holds e) eq) ∙ s.one_holder e)

    counted :
        (p : String) (e : ℕ)
        → m.locks p ≡ some e
        → update m.refs i n e ≡ uses e (before ++ idle ∷ after)
    counted p e q = elim (Bool-cases (e == i)) [
      | inl t ↦ grind (arith, shrinks e, refs_i)
      | inr t ↦ grind (arith, shrinks e, s.counted p e q)
    ]

    still :
        leb n 0 ≡ false
        → (p : String) (e : ℕ) → m.locks p ≡ some e
        → 0 < uses e (before ++ idle ∷ after)
    still t p e q = elim (Bool-cases (e == i)) [
      | inl a ↦ grind (arith, shrinks i, refs_i)
      | inr a ↦ grind (arith, shrinks e, s.in_use p e q)
    ]

    kept : leb n 0 ≡ false → IsSound (state m.locks)
    kept t = record {
      linked = All-join (Linked m.locks) before idle after parts.0 tt parts.2;
      counted = counted;
      in_use = λ p e q. still t p e q;
      one_holder = held;
      separate = s.separate;
      fresh = s.fresh;
    }

    dropped : leb n 0 ≡ true → IsSound (state (assign m.locks path none))
    dropped t = record {
      linked =
          All-join (Linked (assign m.locks path none)) before idle after
            (none-uses m.locks path i before (omega (arith, none_left)) parts.1 parts.0) tt
            (none-uses m.locks path i after (omega (arith, none_left)) parts.1 parts.2);
      counted = λ p e q. counted p e (old p e q).1;
      in_use = used;
      one_holder = held;
      separate = λ p q e a b. s.separate p q e (old p e a).1 (old q e b).1;
      fresh = λ p e q. s.fresh p e (old p e q).1;
    }
      where
        none_left : uses i before + uses i after ≡ 0
        none_left = ground (arith, halves i, shrinks i, refs_i)

        old :
            (p : String) (e : ℕ)
            → assign m.locks path none p ≡ some e
            → (p ≡ path → ⊥) × (m.locks p ≡ some e)
        old p e q = elim (assign-cases m.locks path none p e q) [
          | inl (a, b) ↦ absurd cc
          | inr r ↦ r
        ]

        used :
            (p : String) (e : ℕ)
            → assign m.locks path none p ≡ some e
            → 0 < uses e (before ++ idle ∷ after)
        used p e q = elim (Bool-cases (e == i)) [
          | inl a ↦
              absurd (
                (old p e q).0
                  (s.separate p path i ((old p e q).1 ∙ ap some (ground arith)) parts.1))
          | inr a ↦ grind (arith, shrinks e, s.in_use p e (old p e q).1)
        ]
