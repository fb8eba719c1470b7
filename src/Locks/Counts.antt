-- ===== src/Locks/Counts.antt =====
-- How many goroutines use an entry, and how many hold its mutex.
use Prim.Native.String.{String}
use gostream.Prelude.{
  ℕ, ◌+◌, ◌≤◌, ◌≡◌, refl, ◌==◌, if◌then◌else◌, Bool-cases, List, [], ◌∷◌, ◌++◌, Option, some, All,
  inl, inr, arith,
}
use gostream.Locks.{Goroutine, idle, waiting, trying, holding, leaving, AllIdle}

abbrev pub one_if : ℕ → ℕ → ℕ
one_if i e = if i == e then 1 else 0

abbrev pub uses_of : ℕ → Goroutine → ℕ
uses_of e idle = 0
uses_of e (waiting path i) = one_if i e
uses_of e (trying path i) = one_if i e
uses_of e (holding path i) = one_if i e
uses_of e (leaving path i) = one_if i e

abbrev pub holds_of : ℕ → Goroutine → ℕ
holds_of e (holding path i) = one_if i e
holds_of e _ = 0

unfoldable pub uses : ℕ → List Goroutine → ℕ
uses e [] = 0
uses e (g ∷ gs) = uses_of e g + uses e gs

unfoldable pub holds : ℕ → List Goroutine → ℕ
holds e [] = 0
holds e (g ∷ gs) = holds_of e g + holds e gs

-- What a goroutine points at is what the map has for its path.
abbrev pub Linked : (String → Option ℕ) → Goroutine → Type 0
Linked locks idle = Unit
Linked locks (waiting path e) = locks path ≡ some e
Linked locks (trying path e) = locks path ≡ some e
Linked locks (holding path e) = locks path ≡ some e
Linked locks (leaving path e) = locks path ≡ some e

pub uses-append :
    (e : ℕ) (xs : List Goroutine) (g : Goroutine) (ys : List Goroutine)
    → uses e (xs ++ g ∷ ys) ≡ uses e xs + uses_of e g + uses e ys
unfolding uses
uses-append e [] g ys = omega arith
uses-append e (x ∷ xs) g ys = omega (arith, uses-append e xs g ys)

pub holds-append :
    (e : ℕ) (xs : List Goroutine) (g : Goroutine) (ys : List Goroutine)
    → holds e (xs ++ g ∷ ys) ≡ holds e xs + holds_of e g + holds e ys
unfolding holds
holds-append e [] g ys = omega arith
holds-append e (x ∷ xs) g ys = omega (arith, holds-append e xs g ys)

holds_of-le : (e : ℕ) (g : Goroutine) → holds_of e g ≤ uses_of e g
holds_of-le e idle = omega arith
holds_of-le e (waiting path i) = ground arith
holds_of-le e (trying path i) = ground arith
holds_of-le e (holding path i) = omega arith
holds_of-le e (leaving path i) = ground arith

pub holds-le-uses : (e : ℕ) (gs : List Goroutine) → holds e gs ≤ uses e gs
unfolding uses holds
holds-le-uses e [] = omega arith
holds-le-uses e (g ∷ gs) = omega (arith, holds_of-le e g, holds-le-uses e gs)

pub All-split :
    (P : Goroutine → Type 0) (xs : List Goroutine) (g : Goroutine) (ys : List Goroutine)
    → All P (xs ++ g ∷ ys)
    → All P xs × P g × All P ys
All-split P [] g ys h = (tt, h.0, h.1)
All-split P (x ∷ xs) g ys h = let (a, b, c) = All-split P xs g ys h.1 in ((h.0, a), b, c)

pub All-join :
    (P : Goroutine → Type 0) (xs : List Goroutine) (g : Goroutine) (ys : List Goroutine)
    → All P xs
    → P g
    → All P ys
    → All P (xs ++ g ∷ ys)
All-join P [] g ys a b c = (b, c)
All-join P (x ∷ xs) g ys a b c = (a.0, All-join P xs g ys a.1 b c)

pub All-mono :
    (P Q : Goroutine → Type 0) (gs : List Goroutine)
    → ((g : Goroutine) → P g → Q g)
    → All P gs
    → All Q gs
All-mono P Q [] f h = tt
All-mono P Q (g ∷ gs) f h = (f g h.0, All-mono P Q gs f h.1)

one_if_false : (i e : ℕ) → (i ≡ e → ⊥) → one_if i e ≡ 0
one_if_false i e h = elim (Bool-cases (i == e)) [ inl t ↦ absurd (h (ground arith)) | inr t ↦ rw t ]

-- An entry that the map does not have is used by nobody.
pub uses_unlinked :
    (locks : String → Option ℕ) (e : ℕ) (gs : List Goroutine)
    → All (Linked locks) gs
    → ((path : String) → locks path ≡ some e → ⊥)
    → uses e gs ≡ 0
unfolding uses
uses_unlinked locks e [] h f = refl
uses_unlinked locks e (g ∷ gs) h f = omega (arith, head g h.0, uses_unlinked locks e gs h.1 f)
  where
    at : (path : String) (i : ℕ) → locks path ≡ some i → one_if i e ≡ 0
    at path i l = one_if_false i e (λ (q : i ≡ e). f path (cc))

    head : (g : Goroutine) → Linked locks g → uses_of e g ≡ 0
    head idle l = refl
    head (waiting path i) l = at path i l
    head (trying path i) l = at path i l
    head (holding path i) l = at path i l
    head (leaving path i) l = at path i l

pub uses_idle : (e : ℕ) (gs : List Goroutine) → AllIdle gs → uses e gs ≡ 0
unfolding uses
uses_idle e [] h = refl
uses_idle e (g ∷ gs) h = rw h.0 (omega (arith, uses_idle e gs h.1))
