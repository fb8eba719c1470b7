-- ===== src/Locks/Sound.antt =====
-- The invariant of the manager and the goroutines, and the steps on an entry's mutex.
use Prim.Native.String.{String}
use text.Mathlib.Text.{◌==◌ as str_eq}
use text.Mathlib.TextEquality.{eq_iff}
use gostream.Prelude.{
  ℕ, ◌+◌, ◌<◌, ◌≡◌, refl, sym, ap, ◌∙◌, ◌==◌, if◌then◌else◌, Bool, true, false, Bool-cases,
  if_of_true, if_of_false, List, ◌∷◌, ◌++◌, Option, some, All, ◌⊎◌, inl, inr, arith, subst,
}
use gostream.Locks.{
  Goroutine, idle, waiting, trying, holding, leaving, Manager, assign, update, set_held,
  with_goroutines,
}
use gostream.Locks.Counts.{
  one_if, uses_of, holds_of, uses, holds, Linked, uses-append, holds-append, All-split, All-join,
}

abbrev pub bit : Bool → ℕ
bit b = if b then 1 else 0

pub record IsSound (m : Manager) : Type 0 where
  pub linked : All (Linked m.locks) m.goroutines
  pub counted : (path : String) (e : ℕ) → m.locks path ≡ some e → m.refs e ≡ uses e m.goroutines
  pub in_use : (path : String) (e : ℕ) → m.locks path ≡ some e → 0 < uses e m.goroutines
  pub one_holder : (e : ℕ) → holds e m.goroutines ≡ bit (m.held e)
  pub separate : (p q : String) (e : ℕ) → m.locks p ≡ some e → m.locks q ≡ some e → p ≡ q
  pub fresh : (path : String) (e : ℕ) → m.locks path ≡ some e → e < m.next_id

-- A goroutine that goes on with the entry it has: only the entry's mutex changes.
pub goes_on :
    (m : Manager) (before after : List Goroutine) (g h : Goroutine) (held : ℕ → Bool)
    → m.goroutines ≡ before ++ g ∷ after
    → IsSound m
    → (Linked m.locks g → Linked m.locks h)
    → ((e : ℕ) → uses_of e h ≡ uses_of e g)
    → ((e : ℕ)
        → holds e before + holds_of e g + holds e after ≡ bit (m.held e)
        → holds e before + holds_of e h + holds e after ≡ bit (held e))
    → IsSound (record m { held = held; goroutines = before ++ h ∷ after })
goes_on m before after g h held eq s link count hold = record {
  linked = All-join (Linked m.locks) before h after parts.0 (link parts.1) parts.2;
  counted = λ path e l. s.counted path e l ∙ same e;
  in_use = λ path e l. omega (arith, s.in_use path e l, same e);
  one_holder = λ e.
      holds-append e before h after
      ∙ hold e (sym (holds-append e before g after) ∙ ap (holds e) (sym eq) ∙ s.one_holder e);
  separate = s.separate;
  fresh = s.fresh;
}
  where
    parts : All (Linked m.locks) before × Linked m.locks g × All (Linked m.locks) after
    parts = All-split (Linked m.locks) before g after (subst (All (Linked m.locks)) eq s.linked)

    same : (e : ℕ) → uses e m.goroutines ≡ uses e (before ++ h ∷ after)
    same e =
        ap (uses e) eq
        ∙ omega (arith, uses-append e before g after, uses-append e before h after, count e)

pub takes :
    (m : Manager) (before after : List Goroutine) (g : Goroutine) (path : String) (i : ℕ)
    → m.goroutines ≡ before ++ g ∷ after
    → IsSound m
    → (Linked m.locks g → m.locks path ≡ some i)
    → ((e : ℕ) → one_if i e ≡ uses_of e g)
    → ((e : ℕ) → holds_of e g ≡ 0)
    → m.held i ≡ false
    → IsSound (with_goroutines (set_held m i true) (before ++ holding path i ∷ after))
takes m before after g path i eq s link count free t =
    goes_on m before after g (holding path i) (update m.held i true) eq s link count hold
  where
    hold :
        (e : ℕ)
        → holds e before + holds_of e g + holds e after ≡ bit (m.held e)
        → holds e before + one_if i e + holds e after ≡ bit (update m.held i true e)
    hold e h = elim (Bool-cases (e == i)) [
      | inl q ↦ grind (arith, free e)
      | inr q ↦ grind (arith, free e)
    ]

pub gives_back :
    (m : Manager) (before after : List Goroutine) (path : String) (i : ℕ)
    → m.goroutines ≡ before ++ holding path i ∷ after
    → IsSound m
    → IsSound (with_goroutines (set_held m i false) (before ++ leaving path i ∷ after))
gives_back m before after path i eq s =
    goes_on m before after (holding path i) (leaving path i) (update m.held i false) eq s (λ l. l)
      (λ e. refl) hold
  where
    hold :
        (e : ℕ)
        → holds e before + one_if i e + holds e after ≡ bit (m.held e)
        → holds e before + 0 + holds e after ≡ bit (update m.held i false e)
    hold e h = elim (Bool-cases (e == i)) [ inl q ↦ grind (arith) | inr q ↦ grind (arith) ]

pub assign_same :
    (locks : String → Option ℕ) (path : String) (v : Option ℕ) → assign locks path v path ≡ v
assign_same locks path v = ground (arith, eq_iff path path)

pub assign_other :
    (locks : String → Option ℕ) (path : String) (v : Option ℕ) (p : String)
    → (p ≡ path → ⊥)
    → assign locks path v p ≡ locks p
assign_other locks path v p n = elim (Bool-cases (str_eq p path)) [
  | inl t ↦ absurd (n ((eq_iff p path).0 t))
  | inr t ↦ rw t
]

pub Linked-mono :
    (l k : String → Option ℕ)
    → ((p : String) (e : ℕ) → l p ≡ some e → k p ≡ some e)
    → (g : Goroutine) → Linked l g
    → Linked k g
Linked-mono l k f idle h = tt
Linked-mono l k f (waiting p e) h = f p e h
Linked-mono l k f (trying p e) h = f p e h
Linked-mono l k f (holding p e) h = f p e h
Linked-mono l k f (leaving p e) h = f p e h

-- What a map has after an assignment is what was assigned, or what it had.
pub assign-cases :
    (locks : String → Option ℕ) (path : String) (v : Option ℕ) (p : String) (e : ℕ)
    → assign locks path v p ≡ some e
    → ((p ≡ path) × (v ≡ some e)) ⊎ ((p ≡ path → ⊥) × (locks p ≡ some e))
assign-cases locks path v p e h = elim (Bool-cases (str_eq p path)) [
  | inl t ↦ inl ((eq_iff p path).0 t, sym (if_of_true _ _ t) ∙ h)
  | inr t ↦ inr ((λ q. ground (arith, t, q, eq_iff p path)), sym (if_of_false _ _ t) ∙ h)
]
