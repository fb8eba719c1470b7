-- ===== src/Locks/Exclusion.antt =====
-- At most one goroutine is in possession of a path's lock, and an entry that nobody uses is gone.
use Prim.Native.String.{String}
use text.Mathlib.Text.{◌==◌ as str_eq}
use text.Mathlib.TextEquality.{eq_iff}
use gostream.Prelude.{
  ℕ, ◌+◌, ◌≤◌, ◌≡◌, refl, sym, if◌then◌else◌, Bool-cases, Option-cases, List, [], ◌∷◌, Option, none,
  some, All, inl, inr, arith, subst,
}
use gostream.Locks.{
  Goroutine, idle, waiting, trying, holding, leaving, Manager, new_lock_manager, Step, lock_enters,
  try_enters, lock_acquires, try_acquires, try_fails, unlocks, leaves, Reach, here, next, AllIdle,
}
use gostream.Locks.Counts.{holds, Linked, holds-le-uses, uses_idle}
use gostream.Locks.Sound.{IsSound, takes, gives_back, goes_on}
use gostream.Locks.Enter.{starts}
use gostream.Locks.Leave.{exits}

Step-IsSound : (m n : Manager) → Step m n → IsSound m → IsSound n
Step-IsSound m n (lock_enters before after path eq) s =
    starts m before after path (waiting path) eq s (λ k e l. l) (λ i e. refl) (λ i e. refl)
Step-IsSound m n (try_enters before after path eq) s =
    starts m before after path (trying path) eq s (λ k e l. l) (λ i e. refl) (λ i e. refl)
Step-IsSound m n (lock_acquires before after path e eq h) s =
    takes m before after (waiting path e) path e eq s (λ l. l) (λ i. refl) (λ i. refl) h
Step-IsSound m n (try_acquires before after path e eq h) s =
    takes m before after (trying path e) path e eq s (λ l. l) (λ i. refl) (λ i. refl) h
Step-IsSound m n (try_fails before after path e eq h) s =
    goes_on m before after (trying path e) (leaving path e) m.held eq s (λ l. l) (λ i. refl)
      (λ i c. c)
Step-IsSound m n (unlocks before after path e eq) s = gives_back m before after path e eq s
Step-IsSound m n (leaves before after path e eq) s = exits m before after path e eq s

Reach-IsSound : (m n : Manager) → Reach m n → IsSound m → IsSound n
Reach-IsSound m n here s = s
Reach-IsSound m n (next {n = k} r t) s = Step-IsSound k n t (Reach-IsSound m k r s)

idle-Linked : (l : String → Option ℕ) (gs : List Goroutine) → AllIdle gs → All (Linked l) gs
idle-Linked l [] h = tt
idle-Linked l (g ∷ gs) h = (subst (Linked l) (sym h.0) tt, idle-Linked l gs h.1)

new-IsSound : (gs : List Goroutine) → AllIdle gs → IsSound (new_lock_manager gs)
unfolding new_lock_manager
new-IsSound gs h = record {
  linked = idle-Linked (λ p. none) gs h;
  counted = λ p e q. absurd cc;
  in_use = λ p e q. absurd cc;
  one_holder = λ e. omega (arith, holds-le-uses e gs, uses_idle e gs h);
  separate = λ p q e a b. absurd cc;
  fresh = λ p e q. absurd cc;
}

abbrev pub holders : String → List Goroutine → ℕ
holders path [] = 0
holders path (holding p e ∷ gs) = (if str_eq p path then 1 else 0) + holders path gs
holders path (_ ∷ gs) = holders path gs

holders-none :
    (locks : String → Option ℕ) (path : String) (gs : List Goroutine)
    → All (Linked locks) gs
    → locks path ≡ none
    → holders path gs ≡ 0
holders-none locks path [] h l = refl
holders-none locks path (idle ∷ gs) h l = holders-none locks path gs h.1 l
holders-none locks path (waiting p e ∷ gs) h l = holders-none locks path gs h.1 l
holders-none locks path (trying p e ∷ gs) h l = holders-none locks path gs h.1 l
holders-none locks path (leaving p e ∷ gs) h l = holders-none locks path gs h.1 l
holders-none locks path (holding p e ∷ gs) h l = elim (Bool-cases (str_eq p path)) [
  | inl t ↦ let same : p ≡ path = ground (arith, eq_iff p path) in absurd cc
  | inr t ↦ rw t (omega (arith, holders-none locks path gs h.1 l))
]

holders-le-holds :
    (locks : String → Option ℕ) (path : String) (i : ℕ) (gs : List Goroutine)
    → All (Linked locks) gs
    → locks path ≡ some i
    → holders path gs ≤ holds i gs
unfolding holds
holders-le-holds locks path i [] h l = omega arith
holders-le-holds locks path i (idle ∷ gs) h l =
    omega (arith, holders-le-holds locks path i gs h.1 l)
holders-le-holds locks path i (waiting p e ∷ gs) h l =
    omega (arith, holders-le-holds locks path i gs h.1 l)
holders-le-holds locks path i (trying p e ∷ gs) h l =
    omega (arith, holders-le-holds locks path i gs h.1 l)
holders-le-holds locks path i (leaving p e ∷ gs) h l =
    omega (arith, holders-le-holds locks path i gs h.1 l)
holders-le-holds locks path i (holding p e ∷ gs) h l = elim (Bool-cases (str_eq p path)) [
  | inl t ↦
      let same : p ≡ path = ground (arith, eq_iff p path) in
      let one : e ≡ i = cc in grind (arith, holders-le-holds locks path i gs h.1 l)
  | inr t ↦ grind (arith, holders-le-holds locks path i gs h.1 l)
]

-- However the goroutines interleave their calls of `Lock`, of `TryLock` and of the function that
-- these return, starting on a new manager with every goroutine outside of it, at most one of them is in
-- possession of the lock of a path.
pub reach-exclusive :
    (start : List Goroutine) (m : Manager) (path : String)
    → AllIdle start
    → Reach (new_lock_manager start) m
    → holders path m.goroutines ≤ 1
reach-exclusive start m path h r = elim (Option-cases (m.locks path)) [
  | inl l ↦ omega (arith, holders-none m.locks path m.goroutines s.linked l)
  | inr (i, l) ↦
      grind (arith, holders-le-holds m.locks path i m.goroutines s.linked l, s.one_holder i)
]
  where
    s : IsSound m
    s = Reach-IsSound _ m r (new-IsSound start h)

-- Whatever the goroutines have done to a new manager, once all of them are outside again the map has no entry left for any path.
pub reach-idle-empty :
    (start : List Goroutine) (m : Manager) (path : String)
    → AllIdle start
    → Reach (new_lock_manager start) m
    → AllIdle m.goroutines
    → m.locks path ≡ none
reach-idle-empty start m path h r quiet = elim (Option-cases (m.locks path)) [
  | inl l ↦ l
  | inr (e, l) ↦ absurd (
      omega (
        arith,
        (Reach-IsSound _ m r (new-IsSound start h)).in_use path e l,
        uses_idle e m.goroutines quiet,
      ))
]
